-- ===== src/Tests/Failures.antt =====
-- The theorem on events that cannot be written, at concrete inputs.
use bm_daq.Common.{◌∙◌, ◌+◌, ◌%◌, ◌^◌, ◌<◌, ◌≡◌, refl, some, List, [], ◌∷◌, arith}
use bm_daq.Action.{ok, err, UfeError, external, minor}
use bm_daq.Ufe.{size}
use bm_daq.DataLib.Headers.{fragment, n_fragments_field}
use bm_daq.DataLib.MemBank.Clear.{IsEmpty}
use bm_daq.DataLib.MemBank.{
  MemBank, field, can_access, read, assign, refresh, create_size, append_all, append_range,
  header_clear, clear_bank,
}
use bm_daq.DataLib.Fragment.{
  FragmentBuilder, mismatch, word_at, append_from_header, move_to_event_bank, process_outside,
  process,
}
use bm_daq.DataLib.Fragment.Spec.{idle, absorb, emits, is_consistent}
use bm_daq.DataLib.Fragment.Refines.{Implements, HasRoom}
use bm_daq.DataLib.Fragment.Refines.Process.{process-Implements}
use bm_daq.Workers.Status.{ok_s}
use bm_daq.Workers.EventBuilder as EventBuilder
use bm_daq.Workers.EventBuilder.{UfeRecorder, find_entry, store, run_builder, write_event}
use bm_daq.Workers.EventBuilder.Events.{stamp}
use bm_daq.Workers.EventBuilder.Invariant.{IsReady}
use bm_daq.Workers.EventBuilder.Steps.{Takes}
use bm_daq.Workers.EventBuilder.Runs.{Step, completes, given, here}
use bm_daq.Workers.EventBuilder.Failures.{process-loses}
use bm_daq.Tests.Toy.{Box, capacity_of, toy, toy_word, toy_laws}
use bm_daq.Tests.Fragments.{start}
use bm_daq.Tests.Banks.{new_bank-IsEmpty, new_event-IsEmpty, new_bank-capacity}
use bm_daq.Tests.Spills.{whole, whole-IsScanned, whole-HasRoom, spill, no_fragments}

abbrev light : UfeError
light = record { reason = external; severity = minor }

-- A recorder that cannot write.
abbrev broken_recorder : UfeRecorder Box
broken_recorder = record {
  Recorder = List Box;
  init = λ r. (ok tt, []);
  write = λ c r. (err light, r);
  close = λ r. r;
}

abbrev first_event : EventBuilder.State broken_recorder
first_event = record {
  board_event_builders = (9, start.builder) ∷ [];
  null_builders = [];
  spill_mem_bank = some (start.out_data);
  event_id = 0;
  recorder = [];
  output = whole;
}

small_numbers :
    (1 < 2 ^ 16) × (0 < 2 ^ 32) × (100 < 2 ^ 64) × (field n_fragments_field start.out_data < 1)
small_numbers = omega (arith, no_fragments)

abbrev ready : IsReady broken_recorder first_event
ready = record {
  event_bank = start.out_data;
  spill = refl;
  sound = new_event-IsEmpty.sound;
  agrees = new_event-IsEmpty.agrees;
  builders = (record { board_eq = refl; phase = idle; represents = new_bank-IsEmpty }, tt);
  few_boards = small_numbers.0;
  few_fragments = small_numbers.3;
  in_event_id = small_numbers.1;
}

known_9 : find_entry 9 first_event.board_event_builders ≡ some (start.builder)
unfolding find_entry
known_9 = refl

abbrev taken : Takes broken_recorder first_event 100 start.out_data
taken = record {
  builder = start.builder;
  known = known_9;
  scanned = whole-IsScanned;
  room = whole-HasRoom;
  in_time = small_numbers.2;
}

-- What the fragment builder leaves.
abbrev left : EventBuilder.State broken_recorder
left = (EventBuilder.process broken_recorder 100 first_event).1

whole-Implements : Implements start (emits spill idle) (process whole start)
unfolding absorb is_consistent mismatch
whole-Implements =
    process-Implements toy_laws whole start refl whole-IsScanned whole-HasRoom
      new_event-IsEmpty.sound idle new_bank-IsEmpty

abbrev stamped : MemBank Box
stamped = stamp 100 0 (process whole start).1.out_data

left_spill : left.spill_mem_bank ≡ some stamped
unfolding find_entry store run_builder write_event EventBuilder.process process process_outside
    append_from_header move_to_event_bank mismatch word_at append_all append_range create_size
    clear_bank header_clear refresh assign read can_access
left_spill = refl

left_known : find_entry 9 left.board_event_builders ≡ some (process whole start).1.builder
unfolding find_entry store run_builder write_event EventBuilder.process process process_outside
    append_from_header move_to_event_bank mismatch word_at append_all append_range create_size
    clear_bank header_clear refresh assign read can_access
left_known = refl

stamped_size : size stamped.container ≡ 52
unfolding find_entry store run_builder write_event EventBuilder.process process process_outside
    append_from_header move_to_event_bank mismatch word_at append_all append_range create_size
    clear_bank header_clear refresh assign read can_access
stamped_size = refl

stamped_capacity : capacity_of stamped.container ≡ 1024
unfolding find_entry store run_builder write_event EventBuilder.process process process_outside
    append_from_header move_to_event_bank mismatch word_at append_all append_range create_size
    clear_bank header_clear refresh assign read can_access
stamped_capacity = refl

abbrev left_builder : FragmentBuilder Box
left_builder = (process whole start).1.builder

left-IsEmpty : IsEmpty fragment left_builder.mem_bank
left-IsEmpty = whole-Implements.1

left_capacity : capacity_of left_builder.mem_bank.container ≡ 1024
left_capacity = whole-Implements.2.memsize_eq ∙ new_bank-capacity

left-HasRoom : HasRoom whole (record { builder = left_builder; out_data = stamped })
left-HasRoom = record {
  in_bank = omega (arith, left-IsEmpty.size_eq, left_capacity);
  in_event = omega (arith, left-IsEmpty.size_eq, stamped_size, stamped_capacity);
}

later : 101 < 2 ^ 64
later = omega arith

abbrev taken_again : Takes broken_recorder (given broken_recorder whole left) 101 stamped
taken_again = record {
  builder = left_builder;
  known = left_known;
  scanned = whole-IsScanned;
  room = left-HasRoom;
  in_time = later;
}

second_spill :
    Step broken_recorder left
      (spill ∷ [])
      (EventBuilder.process broken_recorder 101 (given broken_recorder whole left)).1
unfolding absorb is_consistent mismatch
second_spill =
    completes whole 101 stamped idle idle spill left_spill taken_again left-IsEmpty refl refl

process-loses_example :
    let (status, s₁) = EventBuilder.process broken_recorder 100 first_event in
    let s₃ = (EventBuilder.process broken_recorder 101 (given broken_recorder whole left)).1 in
    (status ≡ ok ok_s)
    × (s₁.event_id ≡ (0 + 1) % 2 ^ 32)
    × (s₃.recorder ≡ s₁.recorder)
    × (s₃.event_id ≡ s₁.event_id)
    × ((o : MemBank Box) × (s₃.spill_mem_bank ≡ some o) × (field n_fragments_field o ≡ 1 + 1 + 0))
unfolding absorb is_consistent mismatch
process-loses_example =
    process-loses broken_recorder toy_laws first_event 100 ready taken idle idle spill light
      new_bank-IsEmpty refl (omega (arith, no_fragments)) (λ w. refl) refl second_spill here
      (omega arith)
