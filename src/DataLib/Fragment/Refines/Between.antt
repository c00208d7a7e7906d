-- ===== src/DataLib/Fragment/Refines/Between.antt =====
-- The refinement between two spills.
use bm_daq.Common.{
  ℕ, ◌+◌, ◌-◌, ◌≤◌, ◌<◌, ◌≡◌, refl, ap, ◌∙◌, inl, inr, List, [], ◌∷◌, length, drop, slice,
  length-slice, leb-true, leb-false, le_or_lt, arith,
}
use bm_daq.Action.{>>-eq}
use bm_daq.Ufe.{Ufe, UfeLaws, size, relocate}
use bm_daq.Ufe.Relocate.{relocate_outside}
use bm_daq.MdWord.{MdWord}
use bm_daq.DataLib.Headers.{event, fragment}
use bm_daq.DataLib.MemBank.{Bank, append_range}
use bm_daq.DataLib.MemBank.Invariant.{IsSound}
use bm_daq.DataLib.MemBank.Clear.{IsEmpty}
use bm_daq.DataLib.Fragment.{State, in_bank, move_to_event_bank, process}
use bm_daq.DataLib.Fragment.Spec.{idle, collecting, stays, checked, absorb, IsScanned, AllFit}
use bm_daq.DataLib.Fragment.Transfer.{IsComplete, Moved, agrees, differs, move_to_event_bank-Moved}
use bm_daq.DataLib.Fragment.Refines.{HasRoom, Implements}
use bm_daq.DataLib.Fragment.Refines.Banks.{IsEmpty-Holds, opened, whole}
use bm_daq.DataLib.Fragment.Refines.Equations.{
  quiet_outside, lone_trailer, lone_header, header_last, header_first,
}

-- The state with another bank in its builder.
module _ ⦃lib : Ufe⦄ where
  abbrev pub with_bank : Bank → State → State
  with_bank b f = record f { builder = record (f.builder) { mem_bank = b } }

module _ ⦃lib : Ufe⦄ ⦃word : MdWord⦄ (laws : UfeLaws) where
  open lib use {Container, bytes, memsize, board_id, spill_headers, spill_trailers}

  -- A completed spill in the builder's bank: it is emitted, or its ends disagree.
  pub finish :
      (p : List ℕ) (f : State) (b : Bank)
      → IsComplete p b
      → memsize b.container ≡ memsize f.builder.mem_bank.container
      → IsSound event f.out_data
      → size f.out_data.container + size b.container ≤ memsize f.out_data.container
      → Implements f (checked p idle) (move_to_event_bank (with_bank b f))
  finish p f b full kept s room =
      settle (move_to_event_bank-Moved laws p (with_bank b f) full s room)
    where
      settle :
          Moved p (with_bank b f) (move_to_event_bank (with_bank b f))
          → Implements f (checked p idle) (move_to_event_bank (with_bank b f))
      settle (agrees good done emptied mem own got) =
          rw good (done, emptied, record { board_eq = own; memsize_eq = mem ∙ kept }, got)
      settle (differs bad thrown same) = rw bad (
        thrown,
        ap (λ g. g.out_data) same,
        rw (ap (λ g. spill_trailers g.builder.mem_bank.container) same ∙ full.trailers_eq)
            (omega arith),
      )

  module _ (c : Container) (f : State) (own : board_id c ≡ f.builder.board_id)
      (scanned : IsScanned c) (room : HasRoom c f) (s : IsSound event f.out_data) where
    -- An append that returns, as the whole of the call.
    one_append :
        (h : ℕ) (ts : List ℕ)
        → IsEmpty fragment f.builder.mem_bank
        → spill_headers c ≡ h ∷ []
        → spill_trailers c ≡ ts
        → relocate h (size c - h) (size f.builder.mem_bank.container) ts ≡ []
        → h + 4 ≤ size c
        → process c f ≡ in_bank (append_range c h (size c - h)) f
        → Implements f (stays (collecting (drop h (bytes c)))) (process c f)
    one_append h ts e hs_eq ts_eq left_out fits eq =
        let (done, holds, kept) =
          opened laws c scanned f.builder.mem_bank room.in_bank h ts (IsEmpty-Holds e) hs_eq ts_eq
            left_out fits in
        rw eq (done, holds, record { board_eq = refl; memsize_eq = kept }, refl)

    pub outside :
        (hs ts : List ℕ)
        → spill_headers c ≡ hs
        → spill_trailers c ≡ ts
        → AllFit (size c) hs
        → AllFit (size c) ts
        → length hs < 2
        → length ts < 2
        → IsEmpty fragment f.builder.mem_bank
        → Implements f (absorb idle (bytes c) hs ts) (process c f)
    unfolding absorb
    outside [] [] hs_eq ts_eq hf tf _ _ e =
        rw (quiet_outside c f own e.trailers_eq scanned.small e.headers_eq hs_eq ts_eq)
          (refl, e, record { board_eq = refl; memsize_eq = refl }, refl)
    outside [] (t ∷ []) hs_eq ts_eq hf tf _ _ e =
        rw (lone_trailer c f own e.trailers_eq scanned.small e.headers_eq t hs_eq ts_eq)
          (refl, refl, refl)
    outside (h ∷ []) [] hs_eq ts_eq hf tf _ _ e = one_append h [] e hs_eq ts_eq refl hf.0 (
        lone_header c f own e.trailers_eq scanned.small e.headers_eq h (omega (arith, hf.0)) hs_eq
          ts_eq)
    outside (h ∷ []) (t ∷ []) hs_eq ts_eq hf tf _ _ e = elim (le_or_lt h t) [
      | inl order ↦
          let n : ℕ = t + 4 - h in
          let (done, full, kept) =
            whole laws c scanned f.builder.mem_bank room.in_bank h t (IsEmpty-Holds e) hs_eq ts_eq
              order tf.0 in
          let eq =
            header_first c f own e.trailers_eq scanned.small e.headers_eq h t tf.0 order hs_eq
              ts_eq in
          rw
            (leb-true h t order, eq, >>-eq (in_bank (append_range c h n)) move_to_event_bank f done)
            (finish (slice h n (bytes c)) f _ full kept s (
              omega (
                arith,
                room.in_event,
                full.size_eq,
                e.size_eq,
                length-slice h n (bytes c) (omega arith),
              )))
      | inr order ↦ rw (leb-false h t order) (
          one_append h (t ∷ []) e hs_eq ts_eq (relocate_outside h (size c - h) _ t (inl order)) hf.0
            (header_last c f own e.trailers_eq scanned.small e.headers_eq h t (omega (arith, hf.0))
              order hs_eq ts_eq))
    ]
    outside (h ∷ i ∷ hs) ts hs_eq ts_eq hf tf few _ e = absurd (omega arith)
    outside [] (t ∷ u ∷ ts) hs_eq ts_eq hf tf _ few e = absurd (omega arith)
    outside (h ∷ []) (t ∷ u ∷ ts) hs_eq ts_eq hf tf _ few e = absurd (omega arith)
