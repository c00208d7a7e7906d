-- ===== src/Tests/Runs.antt =====
-- The theorems on runs of the event builder, and on the scanner before it, at concrete inputs.
use bm_daq.Common.{
  ℕ, ◌^◌, ◌≡◌, refl, some, none, [], ◌∷◌, length, if◌then◌else◌, ◌<◌, drop_all, arith,
}
use bm_daq.Common.{◌/◌, ◌%◌, List, ◌↔◌}
use bm_daq.DataLib.Fragment.Refines.{HasRoom}
use bm_daq.DataLib.MemBank.{MemBank}
use bm_daq.Action.{ok, fault}
use bm_daq.DataLib.Headers.{event, n_fragments_field}
use bm_daq.DataLib.MemBank.{field, create_size, refresh, assign}
use bm_daq.DataLib.Fragment.{mismatch}
use bm_daq.DataLib.Fragment.Spec.{IsScanned, idle, absorb, is_consistent}
use bm_daq.Workers.Status.{ok_s}
use bm_daq.Workers.Scanner as Scanner
use bm_daq.Workers.EventBuilder as EventBuilder
use bm_daq.Workers.EventBuilder.{find_entry, store}
use bm_daq.Workers.EventBuilder.Invariant.{IsReady, Accounts, nothing}
use bm_daq.Workers.EventBuilder.Steps.{Takes, Processed, process-Processed}
use bm_daq.Workers.EventBuilder.Runs.{given, ready_at, Run, here, next, completes, Run-Accounts}
use bm_daq.Workers.EventBuilder.Fresh.{has_any, new_builder}
use bm_daq.Workers.EventBuilder.Start.{board_size, event_size, init-Accounts}
use bm_daq.Workers.EventBuilder.Room.{init-HasRoom}
use bm_daq.Workers.EventBuilder.Counts.{Run-counts}
use bm_daq.Workers.Scanner.Loops.{process_while, process-ends}
use bm_daq.Workers.Pipeline.{absorb_raw, scanned-Processed}
use bm_daq.Workers.EventBuilder.Unknown.{process-fault}
use bm_daq.Tests.Toy.{Box, toy, toy_word, toy_laws}
use bm_daq.Tests.Fragments.{start}
use bm_daq.Tests.Banks.{new_bank-IsEmpty, new_event-IsEmpty}
use bm_daq.Tests.Machine.{file_recorder}
use bm_daq.Tests.Spills.{whole, whole-IsScanned, whole-HasRoom, one_board, spill, no_fragments}

abbrev first_event : EventBuilder.State file_recorder
first_event = record one_board { event_id = 0 }

small_numbers : (1 < 2 ^ 16) × (0 < 2 ^ 32) × (100 < 2 ^ 64)
small_numbers = omega arith

one_builder : (0 < 1) × (field n_fragments_field start.out_data < 1)
one_builder = (omega arith, omega (arith, no_fragments))

abbrev first_ready : IsReady file_recorder first_event
first_ready = record {
  event_bank = start.out_data;
  spill = refl;
  sound = new_event-IsEmpty.sound;
  agrees = new_event-IsEmpty.agrees;
  builders = (record { board_eq = refl; phase = idle; represents = new_bank-IsEmpty }, tt);
  few_boards = small_numbers.0;
  few_fragments = one_builder.1;
  in_event_id = small_numbers.1;
}

known_9 : find_entry 9 first_event.board_event_builders ≡ some (start.builder)
unfolding find_entry
known_9 = refl

abbrev taken : Takes file_recorder first_event 100 start.out_data
taken = record {
  builder = start.builder;
  known = known_9;
  scanned = whole-IsScanned;
  room = whole-HasRoom;
  in_time = small_numbers.2;
}

process-Processed_example :
    Processed file_recorder first_event 100 start.out_data
      (absorb idle (toy.bytes whole) (4 ∷ []) (20 ∷ []))
      (EventBuilder.process file_recorder 100 first_event)
process-Processed_example =
    process-Processed file_recorder toy_laws (λ w k. refl) first_event 100 first_ready taken idle
      new_bank-IsEmpty

-- Data of a board that is not in the map.
abbrev foreign : Box
foreign = record whole { board = 7 }

foreign-IsScanned : IsScanned foreign
foreign-IsScanned = record {
  small = whole-IsScanned.small;
  headers_fit = whole-IsScanned.headers_fit;
  trailers_fit = whole-IsScanned.trailers_fit;
  apart = whole-IsScanned.apart;
}

abbrev unknown : EventBuilder.State file_recorder
unknown = given file_recorder foreign first_event

not_found : find_entry 7 unknown.board_event_builders ≡ none
unfolding find_entry
not_found = refl

process-fault_example :
    let e = EventBuilder.process file_recorder 100 unknown in
    ((e.0 ≡ fault) ↔ (find_entry 7 unknown.board_event_builders ≡ none))
    × (e.0 ≡ fault → e.1 ≡ record unknown { null_builders = 7 ∷ [] })
process-fault_example =
    process-fault file_recorder toy_laws (λ w k. refl) unknown 100
      (ready_at file_recorder foreign first_event start.out_data first_ready refl) foreign-IsScanned
      (λ b known. cc (not_found, known)) (small_numbers.2)

first_event-Accounts : Accounts file_recorder 1 [] [] first_event
first_event-Accounts = record {
  ready = first_ready;
  boards_eq = refl;
  events = [];
  waiting = [];
  spills_eq = refl;
  whole = tt;
  count_eq = no_fragments;
  data_eq =
      drop_all 24 (toy.bytes start.out_data.container) (omega (arith, new_event-IsEmpty.size_eq));
  event_id_eq = refl;
  written = nothing;
}

one_spill :
    Run file_recorder first_event
      (spill ∷ [])
      (EventBuilder.process file_recorder 100 first_event).1
unfolding absorb is_consistent mismatch
one_spill =
    next here
      (completes whole 100 start.out_data idle idle spill refl taken new_bank-IsEmpty refl refl)
      refl

Run-Accounts_example :
    Accounts file_recorder 1 (spill ∷ []) [] (EventBuilder.process file_recorder 100 first_event).1
Run-Accounts_example =
    Run-Accounts file_recorder toy_laws (λ w k. refl) first_event-Accounts one_spill

Run-counts_example :
    let s' = (EventBuilder.process file_recorder 100 first_event).1 in
    (s'.event_id ≡ 1 / 1 % 2 ^ 32)
    × ((o : MemBank Box) × (s'.spill_mem_bank ≡ some o) × (field n_fragments_field o ≡ 1 % 1))
Run-counts_example = Run-counts file_recorder toy_laws (λ w k. refl) first_event-Accounts one_spill

-- Nothing but the output, which is not read.
abbrev pub unused : EventBuilder.State file_recorder
unused = record {
  board_event_builders = [];
  null_builders = [];
  spill_mem_bank = none;
  event_id = 0;
  recorder = [];
  output = whole;
}

pub new_event_counts_nothing : field n_fragments_field (create_size event 160000).1 ≡ 0
unfolding create_size refresh assign
new_event_counts_nothing = refl

init-Accounts_example :
    let (r, s') = EventBuilder.init file_recorder 4 ((9 ∷ 4 ∷ []) ∷ (5 ∷ []) ∷ []) unused in
    (r ≡ ok tt)
    × Accounts file_recorder (length s'.board_event_builders) [] s'.recorder s'
    × ((k : ℕ)
        → find_entry k s'.board_event_builders ≡ (
            if has_any k ((9 ∷ 4 ∷ []) ∷ (5 ∷ []) ∷ [])
            then some (new_builder (board_size 4) k)
            else none))
init-Accounts_example =
    init-Accounts toy_laws file_recorder 4 ((9 ∷ 4 ∷ []) ∷ (5 ∷ []) ∷ []) unused refl refl refl
      (omega arith) (omega arith) (omega arith) (omega arith) new_event_counts_nothing

-- The event builder as `init` leaves it, without a run, and a container of a board.
abbrev pub two_devices : List (List ℕ)
two_devices = (9 ∷ 4 ∷ []) ∷ (5 ∷ []) ∷ []

init-HasRoom_example : HasRoom whole (record {
  builder = new_builder (board_size 4) 9;
  out_data = (create_size event (event_size 4)).1;
})
unfolding EventBuilder.init EventBuilder.add_devices EventBuilder.add_boards find_entry store
    create_size refresh assign
init-HasRoom_example =
    init-HasRoom file_recorder toy_laws (λ w k. refl) 4 two_devices unused refl refl refl
      (omega arith) (omega arith) (omega arith) (omega arith) new_event_counts_nothing here whole
      (new_builder (board_size 4) 9) ((create_size event (event_size 4)).1) refl refl (omega arith)

-- The data of `whole` as they are read out.
abbrev raw : Scanner.State
raw = record {
  output = record whole { headers = []; trailers = [] };
  trigger_tag = 3;
  printed = [];
}

scanned-Processed_example :
    let (status, sc') = Scanner.process raw in
    (status ≡ ok ok_s)
    × Processed file_recorder
        (given file_recorder sc'.output first_event)
        100
        start.out_data
        (absorb_raw idle raw.output)
        (EventBuilder.process file_recorder 100 (given file_recorder sc'.output first_event))
unfolding find_entry
scanned-Processed_example =
    scanned-Processed file_recorder toy_laws (λ w k. refl) raw first_event 100 first_ready
      (start.builder) idle refl new_bank-IsEmpty refl refl (omega arith) (omega arith)
      (record { in_bank = whole-HasRoom.in_bank; in_event = whole-HasRoom.in_event }) (omega arith)

process-ends_example : process_while 7 raw ≡ some (Scanner.process raw)
process-ends_example = process-ends 7 raw (omega arith)
