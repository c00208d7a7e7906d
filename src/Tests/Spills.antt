-- ===== src/Tests/Spills.antt =====
-- Containers with spills, and event builders that take them.
use bm_daq.Common.{ℕ, ◌≡◌, refl, some, List, [], ◌∷◌, drop, take, arith}
use bm_daq.DataLib.Headers.{n_fragments_field}
use bm_daq.DataLib.MemBank.{field, assign, refresh, create_size}
use bm_daq.DataLib.Fragment.Spec.{IsScanned}
use bm_daq.DataLib.Fragment.Refines.{HasRoom}
use bm_daq.Workers.EventBuilder as EventBuilder
use bm_daq.Workers.EventBuilder.{find_entry, store}
use bm_daq.Tests.Toy.{Box, toy, toy_word}
use bm_daq.Tests.Fragments.{opening, start, chunk, filler, header_word, trailer_words}
use bm_daq.Tests.Banks.{new_bank-IsEmpty, new_event-IsEmpty, new_bank-capacity, new_event-capacity}
use bm_daq.Tests.Machine.{file_recorder}

-- A container with a whole spill.
abbrev pub whole : Box
whole = chunk (filler ∷ header_word 9 5 ∷ filler ∷ trailer_words 9 5) (4 ∷ []) (20 ∷ [])

pub opening-IsScanned : IsScanned opening
opening-IsScanned = record {
  small = omega arith;
  headers_fit = (omega arith, refl, tt);
  trailers_fit = tt;
  apart = (tt, tt);
}

pub whole-IsScanned : IsScanned whole
whole-IsScanned = record {
  small = omega arith;
  headers_fit = (omega arith, refl, tt);
  trailers_fit = (omega arith, refl, tt);
  apart = ((λ e. absurd (omega arith), tt), tt);
}

pub opening-HasRoom : HasRoom opening start
opening-HasRoom = record {
  in_bank = omega (arith, new_bank-IsEmpty.size_eq, new_bank-capacity);
  in_event = omega (arith, new_bank-IsEmpty.size_eq, new_event-IsEmpty.size_eq, new_event-capacity);
}

pub whole-HasRoom : HasRoom whole start
whole-HasRoom = record {
  in_bank = omega (arith, new_bank-IsEmpty.size_eq, new_bank-capacity);
  in_event = omega (arith, new_bank-IsEmpty.size_eq, new_event-IsEmpty.size_eq, new_event-capacity);
}

-- The event builder with one board, or with another one as well.
abbrev pub one_board : EventBuilder.State file_recorder
one_board = record {
  board_event_builders = (9, start.builder) ∷ [];
  null_builders = [];
  spill_mem_bank = some (start.out_data);
  event_id = 6;
  recorder = [];
  output = whole;
}

abbrev pub two_boards : EventBuilder.State file_recorder
two_boards = record one_board {
  board_event_builders = (4, start.builder) ∷ (9, start.builder) ∷ [];
}

abbrev pub spill : List ℕ
spill = take 20 (drop 4 (toy.bytes whole))

pub no_fragments : field n_fragments_field start.out_data ≡ 0
unfolding create_size refresh assign
no_fragments = refl
