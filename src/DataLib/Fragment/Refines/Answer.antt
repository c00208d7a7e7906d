-- ===== src/DataLib/Fragment/Refines/Answer.antt =====
-- The refinement for containers of any board, and for builders that are jammed.
use bm_daq.Common.{false, ◌<◌, ◌≡◌, refl, ◌==◌, length, arith, Bool-cases, inl, inr}
use bm_daq.Action.{err, fatal, wrong_board_id}
use bm_daq.Ufe.{Ufe, UfeLaws}
use bm_daq.MdWord.{MdWord}
use bm_daq.DataLib.Headers.{event}
use bm_daq.DataLib.MemBank.{Bank}
use bm_daq.DataLib.MemBank.Invariant.{IsSound}
use bm_daq.DataLib.Fragment.{State, process}
use bm_daq.DataLib.Fragment.Spec.{
  Condition, building, jammed, answer, absorb_unless_jammed, IsScanned,
}
use bm_daq.DataLib.Fragment.Refines.{Represents, HasRoom, Implements}
use bm_daq.DataLib.Fragment.Refines.Equations.{too_many}
use bm_daq.DataLib.Fragment.Refines.Process.{process-Implements}

module _ ⦃lib : Ufe⦄ ⦃word : MdWord⦄ where
  open lib use {Container, bytes, board_id, spill_headers, spill_trailers}

  -- A jammed builder's bank holds a trailer.
  abbrev pub IsIn : Condition → Bank → Type 0
  IsIn (building q) b = Represents q b
  IsIn jammed b = 0 < length (spill_trailers b.container)

  wrong_board :
      (c : Container) (f : State)
      → (board_id c == f.builder.board_id) ≡ false
      → process c f ≡ (err (record { reason = wrong_board_id; severity = fatal }), f)
  unfolding process
  wrong_board c f other = ground arith

  -- For every container, of whatever board, with spill positions as the scanner leaves them, an event bank
  -- with a live header, room in both banks, and a builder's bank that represents the data so far or holds
  -- a trailer already: `process` does what `answer` says. It throws for the wrong board, for a jammed
  -- builder, for a chunk that the specification rejects as inconsistent or with several spills, and for a
  -- completed spill with another tag or another board in its trailer than in its header; else it keeps the
  -- chunk, or moves the completed spill to the event.
  pub process-answer :
      (laws : UfeLaws) (c : Container) (f : State)
      → IsScanned c
      → HasRoom c f
      → IsSound event f.out_data
      → (x : Condition) → IsIn x f.builder.mem_bank
      → Implements f
          (answer f.builder.board_id (board_id c) x (bytes c) (spill_headers c) (spill_trailers c))
          (process c f)
  unfolding answer
  process-answer laws c f scanned room s x is_in =
      elim (Bool-cases (board_id c == f.builder.board_id)) [
        | inl same ↦ rw same (of_board (ground (arith, same)) x is_in)
        | inr other ↦ rw (other, wrong_board c f other) (refl, refl, refl)
      ]
    where
      of_board :
          board_id c ≡ f.builder.board_id
          → (x : Condition) → IsIn x f.builder.mem_bank
          → Implements f
              (absorb_unless_jammed x (bytes c) (spill_headers c) (spill_trailers c))
              (process c f)
      of_board own (building q) r = process-Implements laws c f own scanned room s q r
      of_board own jammed left = rw (too_many c f own (inr (inr left))) (refl, refl, refl)
