-- ===== src/Workers/EventBuilder/Calls.antt =====
-- How a call of `process` ends, apart from what the event holds.
use bm_daq.Common.{◌++◌, [], ◌∷◌, ℕ, ◌+◌, ◌%◌, ◌^◌, ◌≡◌, ◌≢◌, none, some, length, arith}
use bm_daq.Action.{Result, ok, err, fault, UfeError}
use bm_daq.Ufe.{Ufe}
use bm_daq.MdWord.{MdWord}
use bm_daq.DataLib.Headers.{event, n_fragments_field, time_field, event_id_field}
use bm_daq.DataLib.MemBank.{Bank, read, assign, clear_bank}
use bm_daq.DataLib.Fragment.{FragmentBuilder, Frame}
use bm_daq.DataLib.Fragment
use bm_daq.Workers.Status.{ok_s}
use bm_daq.Workers.EventBuilder.{
  UfeRecorder, State, find_entry, store, run_builder, write_event, recycle, by_severity, process,
}

module _ ⦃lib : Ufe⦄ ⦃word : MdWord⦄ (rec : UfeRecorder lib.Container) where
  open lib use {Container, board_id}

  -- The state once the fragment builder of the board has run.
  abbrev pub ran : State rec → Frame Container → State rec
  ran s f = record s {
    board_event_builders = store (board_id s.output) (f.builder) s.board_event_builders;
    spill_mem_bank = some (f.out_data);
  }

  -- The state once the map has a null pointer for the container's board.
  abbrev pub with_null : State rec → State rec
  with_null s = record s { null_builders = s.null_builders ++ board_id s.output ∷ [] }

  -- Where the map of builders does not hold the container's board, `process` goes through a null
  -- pointer, which the map holds from then on.
  pub unknown_board-fault :
      (s : State rec) (now : ℕ)
      → find_entry (board_id s.output) s.board_event_builders ≡ none
      → process rec now s ≡ (fault, with_null s)
  unfolding process run_builder
  unknown_board-fault s now missing = ground arith

  module _ (s : State rec) (now : ℕ) (b : FragmentBuilder Container) (o : Bank)
      (known : find_entry (board_id s.output) s.board_event_builders ≡ some b)
      (spill : s.spill_mem_bank ≡ some o) where
    abbrev pub outcome : Result (Unit {0}) × Frame Container
    outcome = Fragment.process s.output (record { builder = b; out_data = o })

    run_builder-eq : run_builder rec s ≡ (outcome.0, ran s outcome.1)
    unfolding run_builder
    run_builder-eq = ground arith

    -- An error of the fragment builder ends the call with the status of its severity. The data that
    -- it had taken stay in the banks, nothing is recorded, and the container is only cleared for an
    -- error that is neither serious nor fatal.
    pub process-err :
        (e : UfeError)
        → outcome.0 ≡ err e
        → process rec now s ≡ by_severity rec e.severity (ran s outcome.1)
    unfolding process
    process-err e thrown = ground (arith, run_builder-eq)

    module _ (done : outcome.0 ≡ ok tt) (n : ℕ) where
      -- The event is not complete.
      pub process_incomplete :
          read n_fragments_field outcome.1.out_data ≡ (ok n, outcome.1.out_data)
          → n ≢ length (store (board_id s.output) outcome.1.builder s.board_event_builders)
          → process rec now s ≡ (ok ok_s, recycle rec (ran s outcome.1))
      unfolding process write_event
      process_incomplete seen few = ground (arith, run_builder-eq)

      -- The event is complete: it is stamped, recorded and cleared.
      pub process_complete :
          read n_fragments_field outcome.1.out_data ≡ (ok n, outcome.1.out_data)
          → n ≡ length (store (board_id s.output) outcome.1.builder s.board_event_builders)
          → let o₁ = (assign time_field now outcome.1.out_data).1 in
            let o₂ = (assign event_id_field s.event_id o₁).1 in
            ((assign time_field now outcome.1.out_data).0 ≡ ok tt)
            → ((assign event_id_field s.event_id o₁).0 ≡ ok tt)
            → ((rec.write o₂.container s.recorder).0 ≡ ok tt)
            → ((clear_bank event o₂).0 ≡ ok tt)
            → process rec now s ≡ (
              ok ok_s,
              recycle rec (record (ran s outcome.1) {
                spill_mem_bank = some (clear_bank event o₂).1;
                event_id = (s.event_id + 1) % 2 ^ 32;
                recorder = (rec.write o₂.container s.recorder).1;
              }),
            )
      unfolding process write_event
      process_complete seen full d₁ d₂ d₃ d₄ = ground (arith, run_builder-eq)

      -- The event is complete, but the recorder throws: it is stamped and numbered, and stays as it is.
      pub process_unwritten :
          (e : UfeError)
          → read n_fragments_field outcome.1.out_data ≡ (ok n, outcome.1.out_data)
          → n ≡ length (store (board_id s.output) outcome.1.builder s.board_event_builders)
          → let o₁ = (assign time_field now outcome.1.out_data).1 in
            let o₂ = (assign event_id_field s.event_id o₁).1 in
            ((assign time_field now outcome.1.out_data).0 ≡ ok tt)
            → ((assign event_id_field s.event_id o₁).0 ≡ ok tt)
            → ((rec.write o₂.container s.recorder).0 ≡ err e)
            → process rec now s
              ≡ by_severity rec e.severity (record (ran s outcome.1) {
                spill_mem_bank = some o₂;
                event_id = (s.event_id + 1) % 2 ^ 32;
                recorder = (rec.write o₂.container s.recorder).1;
              })
      unfolding process write_event
      process_unwritten e seen full d₁ d₂ d₃ = ground (arith, run_builder-eq)
