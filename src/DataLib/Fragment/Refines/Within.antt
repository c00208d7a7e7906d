-- ===== src/DataLib/Fragment/Refines/Within.antt =====
-- The refinement within a spill.
use bm_daq.Common.{
  ℕ, ◌+◌, ◌-◌, ◌≤◌, ◌<◌, ◌%◌, ◌≢◌, ◌≡◌, refl, ap, ◌∙◌, inl, inr, List, [], ◌∷◌, ◌++◌, length, take,
  drop, length-append, length-slice, leb-true, leb-false, subst, le_or_lt, arith,
}
use bm_daq.Action.{ok, >>-eq, ◌>>=◌, ◌>>◌}
use bm_daq.Ufe.{Ufe, UfeLaws, size, relocate}
use bm_daq.Ufe.Relocate.{relocate_outside}
use bm_daq.MdWord.{MdWord}
use bm_daq.DataLib.Headers.{event, size_field}
use bm_daq.DataLib.MemBank.{Bank, field, assign, append_range, append_all}
use bm_daq.DataLib.MemBank.Invariant.{IsSound, read-eq}
use bm_daq.DataLib.Fragment.{State, in_bank, add64, move_to_event_bank, process}
use bm_daq.DataLib.Fragment.Spec.{collecting, checked, absorb, IsScanned, AllFit, Apart}
use bm_daq.DataLib.Fragment.Transfer.{
  IsComplete, Received, Moved, agrees, differs, move_to_event_bank-Moved,
}
use bm_daq.DataLib.Fragment.Refines.{Holds, HasRoom, Implements}
use bm_daq.DataLib.Fragment.Refines.Banks.{IsEmpty-Holds, opened, closed, extended, resized}
use bm_daq.DataLib.Fragment.Refines.Equations.{
  quiet_inside, trailer_inside, trailer_first, second_header, second_spill,
}
use bm_daq.DataLib.Fragment.Refines.Between.{with_bank, finish}

-- Two words that are not the same do not overlap.
behind : (h t : ℕ) → t ≤ h → h % 4 ≡ 0 → t % 4 ≡ 0 → h ≢ t → t + 4 ≤ h
behind h t order hm tm ne = omega arith

module _ ⦃lib : Ufe⦄ ⦃word : MdWord⦄ (laws : UfeLaws) where
  open lib use {Container, bytes, memsize, board_id, spill_headers, spill_trailers}

  module _ (c : Container) (f : State) (own : board_id c ≡ f.builder.board_id)
      (scanned : IsScanned c) (room : HasRoom c f) (s : IsSound event f.out_data) where
    -- The spill ends in this chunk.
    ends :
        (p hs : List ℕ) (t : ℕ)
        → Holds p (8 ∷ []) f.builder.mem_bank
        → spill_headers c ≡ hs
        → spill_trailers c ≡ t ∷ []
        → relocate 0 (t + 4) (size f.builder.mem_bank.container) hs ≡ []
        → t + 4 ≤ size c
        → let call = in_bank (append_range c 0 (t + 4)) in
          ((call f).0 ≡ ok tt)
          × IsComplete (p ++ take (t + 4) (bytes c)) (call f).1.builder.mem_bank
          × (memsize (call f).1.builder.mem_bank.container ≡ memsize f.builder.mem_bank.container)
          × (size f.out_data.container + size (call f).1.builder.mem_bank.container
              ≤ memsize f.out_data.container)
    ends p hs t o hs_eq ts_eq left_out fits =
        let (done, full, kept) =
          closed laws c scanned f.builder.mem_bank room.in_bank p hs t o hs_eq ts_eq left_out
            fits in
        (
          done,
          full,
          kept,
          omega (
            arith,
            room.in_event,
            full.size_eq,
            o.size_eq,
            length-append p (take (t + 4) (bytes c)),
            length-slice 0 (t + 4) (bytes c) (omega arith),
          ),
        )

    -- A chunk with no spill positions: `append` sets the size, and then it is added once more.
    pub grows :
        (p : List ℕ)
        → spill_headers c ≡ []
        → spill_trailers c ≡ []
        → Holds p (8 ∷ []) f.builder.mem_bank
        → let b = (append_all c f.builder.mem_bank).1 in
          process c f
          ≡ (ok tt, with_bank (assign size_field (add64 (field size_field b) (size c)) b).1 f)
    grows p hs_eq ts_eq o =
        let (done, holds, kept) =
          extended laws c scanned f.builder.mem_bank room.in_bank p o hs_eq ts_eq in
        let b : Bank = (append_all c f.builder.mem_bank).1 in
        let v : ℕ = add64 (field size_field b) (size c) in
        let (again, _, _) = resized laws c scanned b (p ++ bytes c) (8 ∷ []) v holds in
        let seen = read-eq size_field b holds.sound.header_eq holds.sound.live holds.sound.holds in
        quiet_inside c f own o.trailers_eq scanned.small o.headers_eq hs_eq ts_eq
        ∙ ground (arith, done, seen, again)

    -- The next spill begins behind the one that ends here.
    finish_and_open :
        (p : List ℕ) (h : ℕ) (g : State)
        → g.out_data ≡ f.out_data
        → g.builder.board_id ≡ f.builder.board_id
        → memsize g.builder.mem_bank.container ≡ memsize f.builder.mem_bank.container
        → 8 ≤ size f.builder.mem_bank.container
        → IsComplete p g.builder.mem_bank
        → spill_headers c ≡ h ∷ []
        → relocate h (size c - h) 8 (spill_trailers c) ≡ []
        → h + 4 ≤ size c
        → Moved p g (move_to_event_bank g)
        → Implements f
            (checked p (collecting (drop h (bytes c))))
            ((move_to_event_bank >> in_bank (append_range c h (size c - h))) g)
    finish_and_open p h g out board mem old full hs_eq left_out fits
          (agrees good done emptied mem' own' got) =
        let n : ℕ = size c - h in
        let g' : State = (move_to_event_bank g).1 in
        let (done', holds, kept) =
          opened laws c scanned g'.builder.mem_bank (omega (arith, room.in_bank, emptied.size_eq)) h
            (spill_trailers c) (IsEmpty-Holds emptied) hs_eq refl
            (ap (λ k. relocate h n k (spill_trailers c)) emptied.size_eq ∙ left_out) fits in
        rw (good, >>-eq move_to_event_bank (in_bank (append_range c h n)) g done)
          (
            done',
            holds,
            record { board_eq = own' ∙ board; memsize_eq = kept ∙ mem' ∙ mem },
            subst (λ o. Received p o g'.out_data) out got,
          )
    finish_and_open p h g out board mem old full hs_eq left_out fits (differs bad thrown same) =
        rw (bad, thrown, ◌>>=◌)
          (
            refl,
            ap (λ k. k.out_data) same ∙ out,
            rw (ap (λ k. spill_trailers k.builder.mem_bank.container) same ∙ full.trailers_eq)
                (omega arith),
          )

    pub inside :
        (p hs ts : List ℕ)
        → spill_headers c ≡ hs
        → spill_trailers c ≡ ts
        → AllFit (size c) hs
        → AllFit (size c) ts
        → Apart hs ts
        → length hs < 2
        → length ts < 2
        → Holds p (8 ∷ []) f.builder.mem_bank
        → Implements f (absorb (collecting p) (bytes c) hs ts) (process c f)
    unfolding absorb
    inside p [] [] hs_eq ts_eq hf tf _ _ _ o =
        let (done, holds, kept) =
          extended laws c scanned f.builder.mem_bank room.in_bank p o hs_eq ts_eq in
        let b : Bank = (append_all c f.builder.mem_bank).1 in
        let v : ℕ = add64 (field size_field b) (size c) in
        let (again, holds', kept') = resized laws c scanned b (p ++ bytes c) (8 ∷ []) v holds in
        rw (grows p hs_eq ts_eq o)
          (refl, holds', record { board_eq = refl; memsize_eq = kept' ∙ kept }, refl)
    inside p [] (t ∷ []) hs_eq ts_eq hf tf _ _ _ o =
        let (done, full, kept, fits) = ends p [] t o hs_eq ts_eq refl tf.0 in
        rw
          (
            trailer_inside c f own o.trailers_eq scanned.small o.headers_eq t tf.0 hs_eq ts_eq,
            >>-eq (in_bank (append_range c 0 (t + 4))) move_to_event_bank f done,
          )
          (finish laws (p ++ take (t + 4) (bytes c)) f _ full kept s fits)
    inside p (h ∷ []) [] hs_eq ts_eq hf tf _ _ _ o =
        rw (second_header c f own o.trailers_eq scanned.small o.headers_eq h hs_eq ts_eq)
          (refl, refl, refl)
    inside p (h ∷ []) (t ∷ []) hs_eq ts_eq hf tf ne _ _ o = elim (le_or_lt t h) [
      | inl order ↦
          let (done, full, kept, fits) =
            ends p (h ∷ []) t o hs_eq ts_eq
              (relocate_outside 0 (t + 4) (size f.builder.mem_bank.container) h
                (inr (omega (arith, behind h t order hf.1 tf.1 ne.0.0))))
              tf.0 in
          let call = in_bank (append_range c 0 (t + 4)) in
          let data_now : List ℕ = p ++ take (t + 4) (bytes c) in
          let later = move_to_event_bank >> in_bank (append_range c h (size c - h)) in
          let eq =
            trailer_first c f own o.trailers_eq scanned.small o.headers_eq h t tf.0
              (omega (arith, hf.0)) order hs_eq ts_eq in
          rw (leb-true t h order, eq, >>-eq call later f done)
            (finish_and_open data_now h (call f).1 refl refl kept o.sound.holds full hs_eq
              (ap (relocate h (size c - h) 8) ts_eq
                ∙ relocate_outside h (size c - h) 8 t
                    (inl (omega (arith, behind h t order hf.1 tf.1 ne.0.0))))
              hf.0 (move_to_event_bank-Moved laws data_now (call f).1 full s fits))
      | inr order ↦
          rw
            (
              leb-false t h order,
              second_spill c f own o.trailers_eq scanned.small o.headers_eq h t order hs_eq ts_eq,
            )
            (refl, refl, refl)
    ]
    inside p (h ∷ i ∷ hs) ts hs_eq ts_eq hf tf _ few _ e = absurd (omega arith)
    inside p [] (t ∷ u ∷ ts) hs_eq ts_eq hf tf _ _ few e = absurd (omega arith)
    inside p (h ∷ []) (t ∷ u ∷ ts) hs_eq ts_eq hf tf _ _ few e = absurd (omega arith)
