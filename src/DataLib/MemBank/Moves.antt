-- ===== src/DataLib/MemBank/Moves.antt =====
-- Copies and moves of banks: every bank that stays in use has a live header pointer.
use bm_daq.Common.{◌≡◌, ◌≢◌, refl, sym, ap, ◌∙◌, length}
use bm_daq.Ufe.{Ufe, UfeLaws, SameContents, size}
use bm_daq.DataLib.Headers.{HeaderType}
use bm_daq.DataLib.MemBank.{Bank, copy_bank, assign_bank, move_bank, move_construct}
use bm_daq.DataLib.MemBank.Invariant.{IsSound, SizeAgrees}

module _ ⦃lib : Ufe⦄ where
  open lib use {Container, bytes, buffer, construct, copy, copy_assign, move_assign}

  -- A bank with the contents of another, and a header of its own or taken over.
  pub record Twin (t : HeaderType) (b b' : Bank) : Type 0 where
    pub sound : IsSound t b'
    pub contents : SameContents b.container b'.container
    pub agrees : SizeAgrees b → SizeAgrees b'

  twin :
      (t : HeaderType) (b b' : Bank)
      → IsSound t b
      → SameContents b.container b'.container
      → b'.header ≡ buffer b'.container
      → buffer b'.container ≢ 0
      → Twin t b b'
  twin t b b' s same at ne = record {
    sound = record { header_eq = at; live = rw at ne; holds = rw (same.bytes_eq) s.holds };
    contents = same;
    agrees = λ e. rw (same.bytes_eq) e;
  }

  module _ (laws : UfeLaws) (t : HeaderType) where
    -- Of a bank with a live header: a copy and an assigned copy hold what the source holds and point to their own buffers. Both
    -- moves, the assignment and the constructor, take over the contents and the header pointer of the
    -- source, and leave it empty with a null header.
    pub copies_sound :
        (a b : Bank)
        → IsSound t b
        → Twin t b (copy_bank b)
          × Twin t b (assign_bank a b)
          × Twin t b (move_bank a b).0
          × Twin t b (move_construct b).0
          × ((move_bank a b).0.header ≡ b.header)
          × ((move_bank a b).1.header ≡ 0)
          × (size (move_bank a b).1.container ≡ 0)
          × ((move_construct b).0.header ≡ b.header)
          × ((move_construct b).1.header ≡ 0)
          × (size (move_construct b).1.container ≡ 0)
    unfolding copy_bank assign_bank move_bank move_construct
    copies_sound a b s =
        let live : buffer b.container ≢ 0 = rw (sym s.header_eq) s.live in
        (
          twin t b (copy_bank b) s (laws.copy_lem b.container) refl
              (laws.copy_allocated b.container live),
          twin t b (assign_bank a b) s (laws.copy_assign_lem a.container b.container) refl
              (laws.copy_assign_allocated a.container b.container live),
          moved a,
          moved (record { container = construct; header = 0 }),
          refl,
          refl,
          ap length (laws.move_assign_source a.container b.container).1,
          refl,
          refl,
          ap length (laws.move_assign_source construct b.container).1,
        )
      where
        moved : (o : Bank) → Twin t b (move_bank o b).0
        moved o =
            let kept = laws.move_assign_buffer o.container b.container in
            twin t b (move_bank o b).0 s (laws.move_assign_lem o.container b.container)
              (s.header_eq ∙ sym kept) (rw kept (rw (sym s.header_eq) s.live))
