-- ===== src/Tests/Workers.antt =====
-- The theorems on the workers at concrete inputs.
use bm_daq.Common.{◌≤◌, ◌<◌, ◌/◌, ◌≡◌, refl, some, [], ◌∷◌, ◌++◌, drop, arith}
use bm_daq.Action.{ok}
use bm_daq.Ufe.{size}
use bm_daq.DataLib.Headers.{event, n_fragments_field, time_field, event_id_field}
use bm_daq.DataLib.MemBank.{Bank, field}
use bm_daq.DataLib.MemBank.Clear.{IsEmpty, CountersZero}
use bm_daq.DataLib.MemBank.Invariant.{SizeAgrees}
use bm_daq.DataLib.Fragment.{mismatch}
use bm_daq.DataLib.Fragment.Spec.{IsScanned, idle, absorb, is_consistent, image}
use bm_daq.DataLib.Fragment.Transfer.{Received}
use bm_daq.Workers.Status.{ok_s, error_s}
use bm_daq.Workers.Scanner as Scanner
use bm_daq.Workers.Scanner.{empty_container}
use bm_daq.Workers.Scanner.Marks.{Passed}
use bm_daq.Workers.Scanner.Passes.{process-marks}
use bm_daq.Workers.Scanner.Scanned.{IsAscending, process-IsScanned}
use bm_daq.Workers.EventBuilder as EventBuilder
use bm_daq.Workers.EventBuilder.{find_entry, store}
use bm_daq.Workers.EventBuilder.Events.{Completes, fragment-kept, event-recorded}
use bm_daq.Tests.Toy.{toy, toy_word, toy_laws}
use bm_daq.Tests.Fragments.{start, chunk, filler, header_word, trailer_words}
use bm_daq.Tests.Banks.{new_bank-IsEmpty, new_event-IsEmpty}
use bm_daq.Tests.Machine.{file_recorder}
use bm_daq.Tests.Spills.{whole-IsScanned, whole-HasRoom, one_board, two_boards, spill, no_fragments}

one_board-Completes :
    Completes toy_laws file_recorder one_board (start.builder) (start.out_data) spill
unfolding find_entry absorb is_consistent mismatch
one_board-Completes = record {
  known = refl;
  own = refl;
  spill = refl;
  sound = new_event-IsEmpty.sound;
  scanned = whole-IsScanned;
  room = whole-HasRoom;
  before = idle;
  after = idle;
  represents = new_bank-IsEmpty;
  completes = refl;
}

two_boards-Completes :
    Completes toy_laws file_recorder two_boards (start.builder) (start.out_data) spill
unfolding find_entry absorb is_consistent mismatch
two_boards-Completes = record {
  known = refl;
  own = refl;
  spill = refl;
  sound = new_event-IsEmpty.sound;
  scanned = whole-IsScanned;
  room = whole-HasRoom;
  before = idle;
  after = idle;
  represents = new_bank-IsEmpty;
  completes = refl;
}

fragment-kept_example :
    let (r, s') = EventBuilder.process file_recorder 100 two_boards in
    (r ≡ ok ok_s)
    × (s'.recorder ≡ [])
    × (s'.event_id ≡ 6)
    × ((o' : Bank) × (s'.spill_mem_bank ≡ some o') × Received spill start.out_data o')
fragment-kept_example =
    fragment-kept toy_laws file_recorder two_boards 100 (start.builder) (start.out_data) spill
      two_boards-Completes (λ e. absurd (omega (arith, no_fragments)))

event-recorded_example :
    let (r, s') = EventBuilder.process file_recorder 100 one_board in
    (r ≡ ok ok_s)
    × (s'.event_id ≡ 7)
    × ((w : Bank) × (s'.recorder ≡ w.container ∷ [])
        × SizeAgrees w
        × (drop 24 (toy.bytes w.container)
            ≡ drop 24 (toy.bytes start.out_data.container) ++ image spill)
        × (field n_fragments_field w ≡ 1)
        × (field time_field w ≡ 100)
        × (field event_id_field w ≡ 6))
    × ((o' : Bank) × (s'.spill_mem_bank ≡ some o') × IsEmpty event o' × CountersZero event o')
event-recorded_example =
    event-recorded toy_laws file_recorder one_board 100 (start.builder) (start.out_data) spill
      one_board-Completes (omega (arith, no_fragments)) (omega arith) (omega arith) (omega arith)
      (λ w. refl)

abbrev raw_words : Scanner.State
raw_words = record {
  output = chunk (filler ∷ header_word 9 5 ∷ (0x10000007) ∷ trailer_words 9 5) [] [];
  trigger_tag = 3;
  printed = [];
}

process-marks_example :
    ((size raw_words.output < 4)
      → Scanner.process raw_words
        ≡ (ok error_s, record raw_words { printed = empty_container ∷ [] }))
    × (4 ≤ size raw_words.output
        → ((Scanner.process raw_words).0 ≡ ok ok_s)
          × Passed
              (size raw_words.output / 4)
              0
              (record raw_words { trigger_tag = 0 })
              (Scanner.process raw_words).1)
process-marks_example = process-marks toy_laws raw_words

process-IsScanned_example :
    let c = (Scanner.process raw_words).1.output in
    IsScanned c × IsAscending c.headers × IsAscending c.trailers
process-IsScanned_example =
    process-IsScanned toy_laws raw_words refl refl (omega arith) (omega arith)
