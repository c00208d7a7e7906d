-- ===== src/Tests/Fragments.antt =====
-- Spills of one board, in the format of tests/FakeData.cpp, through the fragment builder.
use bm_daq.Common.{ℕ, ◌+◌, ◌*◌, ◌^◌, ◌≡◌, refl, List, [], ◌∷◌, ◌++◌}
use bm_daq.Common.Bytes.{bytes_of, load}
use bm_daq.Action.{ok}
use bm_daq.Ufe.{size}
use bm_daq.DataLib.Headers.{fragment, event, n_fragments_field, size_field}
use bm_daq.DataLib.MemBank.{
  field, can_access, read, assign, refresh, create_size, append_all, append_range, header_clear,
  clear_bank,
}
use bm_daq.DataLib.Fragment.{
  State, mismatch, word_at, append_from_header, move_to_event_bank, process_outside, process_inside,
  process,
}
use bm_daq.Tests.Toy.{Box, toy, toy_word, contents}

-- Containers of 32-bit words.
abbrev pub words : List ℕ → List ℕ
words [] = []
words (w ∷ ws) = bytes_of 4 w ++ words ws

abbrev pub filler : ℕ
filler = 0x30000001

abbrev pub header_word : ℕ → ℕ → ℕ
header_word board tag = board * 2 ^ 21 + tag

abbrev pub trailer_words : ℕ → ℕ → List ℕ
trailer_words board tag =
    (0x60000000 + board * 2 ^ 21 + tag) ∷ (0x60000000 + board * 2 ^ 21) ∷ 0x70000001 ∷ []

abbrev pub chunk : List ℕ → List ℕ → List ℕ → Box
chunk ws hs ts = record {
  address = 1;
  raw = words ws;
  capacity = 1024;
  board = 9;
  headers = hs;
  trailers = ts;
}

abbrev pub opening : Box
opening = chunk (filler ∷ header_word 9 5 ∷ filler ∷ []) (4 ∷ []) []

abbrev pub quiet : Box
quiet = chunk (filler ∷ filler ∷ []) [] []

abbrev pub closing : Box
closing = chunk (trailer_words 9 5 ++ filler ∷ []) [] (8 ∷ [])

-- The trailer of another spill.
abbrev pub foreign : Box
foreign = chunk (trailer_words 9 6) [] (8 ∷ [])

abbrev pub start : State
start = record {
  builder = record { board_id = 9; mem_bank = (create_size fragment 1024).1 };
  out_data = (create_size event 1024).1;
}

abbrev pub after_opening : State
after_opening = (process opening start).1

abbrev pub after_quiet : State
after_quiet = (process quiet after_opening).1

-- The spill is collected over three containers, and ends up in the event with its header.
collects :
    let (r, f) = process closing after_quiet in
    (r ≡ ok tt)
    × (size f.builder.mem_bank.container ≡ 8)
    × (field n_fragments_field f.out_data ≡ 1)
    × (size f.out_data.container ≡ 24 + 8 + 7 * 4)
    × (field size_field f.out_data ≡ 60)
    × (f.out_data.container.headers ≡ 32 ∷ [])
    × (f.out_data.container.trailers ≡ 56 ∷ [])
    × (load 4 32 (contents f.out_data.container) ≡ 0x1200005)
unfolding process process_inside process_outside append_from_header move_to_event_bank mismatch
    word_at append_all append_range create_size clear_bank header_clear refresh assign read
    can_access
collects = (refl, refl, refl, refl, refl, refl, refl, refl)
