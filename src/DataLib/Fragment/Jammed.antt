-- ===== src/DataLib/Fragment/Jammed.antt =====
-- A fragment builder after a spill whose ends disagree.
use bm_daq.Common.{◌<◌, ◌≡◌, subst, inr, List, ◌∷◌, length, arith}
use bm_daq.Action.{err, spill_data_mismatch, multiple_spills, fatal}
use bm_daq.Ufe.{Ufe, UfeLaws}
use bm_daq.MdWord.{MdWord}
use bm_daq.DataLib.Headers.{event}
use bm_daq.DataLib.MemBank.Invariant.{IsSound}
use bm_daq.DataLib.Fragment.{State, process}
use bm_daq.DataLib.Fragment.Spec.{Phase, rejects, absorb, IsScanned}
use bm_daq.DataLib.Fragment.Stream.{feed}
use bm_daq.DataLib.Fragment.Refines.{Represents, HasRoom, Implements}
use bm_daq.DataLib.Fragment.Refines.Equations.{too_many}
use bm_daq.DataLib.Fragment.Refines.Process.{process-Implements}

module _ ⦃lib : Ufe⦄ ⦃word : MdWord⦄ where
  open lib use {Container, bytes, board_id, spill_headers, spill_trailers}

  feed-jammed :
      (c : Container) (cs : List Container) (f : State)
      → board_id c ≡ f.builder.board_id
      → 0 < length (spill_trailers f.builder.mem_bank.container)
      → feed (c ∷ cs) f ≡ (err (record { reason = multiple_spills; severity = fatal }), f)
  unfolding feed
  feed-jammed c cs f own left = ground (arith, too_many c f own (inr (inr left)))

  -- Where a container completes a spill whose ends disagree: the error is thrown, the event is as it was,
  -- and the spill stays in the builder's bank, so that of all the containers of this board that follow
  -- none is accepted, whatever they hold: the first one throws that there are multiple spills, and changes
  -- nothing, so that the next one would again.
  pub mismatch-jams :
      (laws : UfeLaws) (c : Container) (f : State)
      → board_id c ≡ f.builder.board_id
      → IsScanned c
      → HasRoom c f
      → IsSound event f.out_data
      → (q : Phase) → Represents q f.builder.mem_bank
      → absorb q (bytes c) (spill_headers c) (spill_trailers c) ≡ rejects spill_data_mismatch
      → (next : Container) (later : List Container)
      → board_id next ≡ (process c f).1.builder.board_id
      → let f' = (process c f).1 in
        ((process c f).0 ≡ err (record { reason = spill_data_mismatch; severity = fatal }))
        × (f'.out_data ≡ f.out_data)
        × (feed (next ∷ later) f'
            ≡ (err (record { reason = multiple_spills; severity = fatal }), f'))
  mismatch-jams laws c f own scanned room s q r bad next later same_board =
      let (thrown, out, left) =
        subst (λ x. Implements f x (process c f)) bad
          (process-Implements laws c f own scanned room s q r) in
      (thrown, out, feed-jammed next later (process c f).1 same_board left)
