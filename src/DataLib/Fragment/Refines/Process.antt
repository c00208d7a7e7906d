-- ===== src/DataLib/Fragment/Refines/Process.antt =====
-- The refinement, all cases together.
use bm_daq.Common.{ℕ, ◌<◌, ◌≡◌, refl, ◌⊎◌, inl, inr, List, [], ◌∷◌, length, le_or_lt, arith}
use bm_daq.Action.{multiple_spills}
use bm_daq.Ufe.{Ufe, UfeLaws, size}
use bm_daq.MdWord.{MdWord}
use bm_daq.DataLib.Headers.{event}
use bm_daq.DataLib.MemBank.Invariant.{IsSound}
use bm_daq.DataLib.Fragment.{State, process}
use bm_daq.DataLib.Fragment.Spec.{
  Phase, idle, collecting, rejects, absorb, IsScanned, AllFit, Apart,
}
use bm_daq.DataLib.Fragment.Refines.{Represents, HasRoom, Implements}
use bm_daq.DataLib.Fragment.Refines.Equations.{too_many}
use bm_daq.DataLib.Fragment.Refines.Between.{outside}
use bm_daq.DataLib.Fragment.Refines.Within.{inside}

absorb_many :
    ⦃word : MdWord⦄ (q : Phase) (c hs ts : List ℕ)
    → (1 < length hs) ⊎ (1 < length ts)
    → absorb q c hs ts ≡ rejects multiple_spills
unfolding absorb
absorb_many idle c [] [] many = absurd (omega arith)
absorb_many idle c [] (t ∷ []) many = absurd (omega arith)
absorb_many idle c [] (t ∷ u ∷ ts) many = refl
absorb_many idle c (h ∷ []) [] many = absurd (omega arith)
absorb_many idle c (h ∷ []) (t ∷ []) many = absurd (omega arith)
absorb_many idle c (h ∷ []) (t ∷ u ∷ ts) many = refl
absorb_many idle c (h ∷ i ∷ hs) ts many = refl
absorb_many (collecting p) c [] [] many = absurd (omega arith)
absorb_many (collecting p) c [] (t ∷ []) many = absurd (omega arith)
absorb_many (collecting p) c [] (t ∷ u ∷ ts) many = refl
absorb_many (collecting p) c (h ∷ []) [] many = absurd (omega arith)
absorb_many (collecting p) c (h ∷ []) (t ∷ []) many = absurd (omega arith)
absorb_many (collecting p) c (h ∷ []) (t ∷ u ∷ ts) many = refl
absorb_many (collecting p) c (h ∷ i ∷ hs) ts many = refl

module _ ⦃lib : Ufe⦄ ⦃word : MdWord⦄ (laws : UfeLaws) where
  open lib use {Container, bytes, memsize, board_id, spill_headers, spill_trailers}

  module _ (c : Container) (f : State) (own : board_id c ≡ f.builder.board_id)
      (scanned : IsScanned c) (room : HasRoom c f) (s : IsSound event f.out_data) where
    any_positions :
        (q : Phase) (hs ts : List ℕ)
        → spill_headers c ≡ hs
        → spill_trailers c ≡ ts
        → AllFit (size c) hs
        → AllFit (size c) ts
        → Apart hs ts
        → Represents q f.builder.mem_bank
        → Implements f (absorb q (bytes c) hs ts) (process c f)
    any_positions q hs ts hs_eq ts_eq hf tf ne r = elim (le_or_lt 2 (length hs)) [
      | inl many ↦ rejected (inl (rw hs_eq many)) (inl many)
      | inr few_hs ↦ elim (le_or_lt 2 (length ts)) [
        | inl many ↦ rejected (inr (inl (rw ts_eq many))) (inr many)
        | inr few_ts ↦ by_phase q few_hs few_ts r
      ]
    ]
      where
        rejected :
            (1 < length (spill_headers c))
              ⊎ (1 < length (spill_trailers c))
              ⊎ (0 < length (spill_trailers f.builder.mem_bank.container))
            → (1 < length hs) ⊎ (1 < length ts)
            → Implements f (absorb q (bytes c) hs ts) (process c f)
        rejected seen many =
            rw (absorb_many q (bytes c) hs ts many, too_many c f own seen) (refl, refl, refl)

        by_phase :
            (q : Phase)
            → length hs < 2
            → length ts < 2
            → Represents q f.builder.mem_bank
            → Implements f (absorb q (bytes c) hs ts) (process c f)
        by_phase idle few_hs few_ts e =
            outside laws c f own scanned room s hs ts hs_eq ts_eq hf tf few_hs few_ts e
        by_phase (collecting p) few_hs few_ts o =
            inside laws c f own scanned room s p hs ts hs_eq ts_eq hf tf ne few_hs few_ts o

    -- For a container of the builder's board, with spill positions as the scanner leaves them, an event
    -- bank with a live header, a builder's bank that represents the phase, and room in both banks,
    -- `process` does in every case what the specification `absorb` says: it returns and keeps the chunk,
    -- or emits the completed spill into the event, or throws the error that the specification names.
    pub process-Implements :
        (q : Phase)
        → Represents q f.builder.mem_bank
        → Implements f (absorb q (bytes c) (spill_headers c) (spill_trailers c)) (process c f)
    process-Implements q r =
        any_positions q (spill_headers c) (spill_trailers c) refl refl scanned.headers_fit
          scanned.trailers_fit scanned.apart r
