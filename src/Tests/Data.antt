-- ===== src/Tests/Data.antt =====
-- The theorems on the fragment builder at concrete inputs.
use bm_daq.Common.{sym, subst, ◌+◌, ◌%◌, ◌^◌, ℕ, ◌≡◌, refl, List, [], ◌∷◌, ◌++◌, drop, take, arith}
use bm_daq.Action.{ok, err, spill_data_mismatch, multiple_spills, fatal}
use bm_daq.Ufe.{size}
use bm_daq.DataLib.Headers.{size_field, fragment, event}
use bm_daq.DataLib.MemBank.{field, create_size, refresh, assign, append_range}
use bm_daq.DataLib.MemBank.Clear.{IsEmpty}
use bm_daq.DataLib.MemBank.Invariant.{IsSound}
use bm_daq.DataLib.Fragment as Fragment
use bm_daq.DataLib.Fragment.{mismatch, move_to_event_bank, word_at}
use bm_daq.DataLib.Fragment.Spec.{IsScanned, idle, building, answer, absorb, is_consistent}
use bm_daq.DataLib.Fragment.Refines.{Implements, HasRoom, Holds, SameBuilder}
use bm_daq.DataLib.Fragment.Refines.Process.{process-Implements}
use bm_daq.DataLib.Fragment.Refines.Answer.{process-answer}
use bm_daq.DataLib.Fragment.Transfer.{Received}
use bm_daq.Tests.Toy.{Box, toy, toy_word, toy_laws}
use bm_daq.DataLib.Fragment.Stream.{IsPart, feed, feed-Received}
use bm_daq.DataLib.Fragment.Jammed.{mismatch-jams}
use bm_daq.DataLib.Fragment.Sizes.{process-counts_twice}
use bm_daq.Tests.Fragments.{
  chunk, filler, header_word, trailer_words, after_opening, quiet, closing, opening, start,
}
use bm_daq.Tests.Banks.{new_bank-IsEmpty, new_event-IsEmpty, new_bank-capacity, new_event-capacity}
use bm_daq.Tests.Spills.{whole-IsScanned, whole-HasRoom, opening-IsScanned, opening-HasRoom}

process-answer_example :
    Implements start
      (answer 9 9 (building idle) (toy.bytes opening) (4 ∷ []) [])
      (Fragment.process opening start)
process-answer_example =
    process-answer toy_laws opening start opening-IsScanned opening-HasRoom new_event-IsEmpty.sound
      (building idle) new_bank-IsEmpty

piece_at_board_9 :
    (hs ts : List ℕ) (c : Box)
    → c.board ≡ 9
    → IsScanned c
    → c.headers ≡ hs
    → c.trailers ≡ ts
    → IsPart 9 hs ts c
piece_at_board_9 hs ts c own scanned h t = record {
  own = own;
  scanned = scanned;
  headers_eq = h;
  trailers_eq = t;
}

quiet-IsScanned : IsScanned quiet
quiet-IsScanned = record { small = omega arith; headers_fit = tt; trailers_fit = tt; apart = tt }

closing-IsScanned : IsScanned closing
closing-IsScanned = record {
  small = omega arith;
  headers_fit = tt;
  trailers_fit = (omega arith, refl, tt);
  apart = tt;
}

feed-Received_example :
    let p : List ℕ = drop 4 (toy.bytes opening) ++ toy.bytes quiet ++ take 12 (toy.bytes closing) in
    let (r, f') = feed (opening ∷ quiet ∷ closing ∷ []) start in
    (r ≡ ok tt) × IsEmpty fragment f'.builder.mem_bank × Received p start.out_data f'.out_data
unfolding is_consistent mismatch
feed-Received_example =
    feed-Received toy_laws 9 4 8 opening closing (quiet ∷ []) start refl
      (piece_at_board_9 (4 ∷ []) [] opening refl opening-IsScanned refl refl)
      (piece_at_board_9 [] [] quiet refl quiet-IsScanned refl refl, tt)
      (piece_at_board_9 [] (8 ∷ []) closing refl closing-IsScanned refl refl)
      (
        omega (arith, new_bank-capacity),
        omega (arith, new_event-IsEmpty.size_eq, new_event-capacity),
      )
      new_event-IsEmpty.sound new_bank-IsEmpty refl

-- The start of the spill, in the builder's bank.
abbrev opened : List ℕ
opened = drop 4 (toy.bytes opening)

opened-Implements :
    ((Fragment.process opening start).0 ≡ ok tt)
    × Holds opened (8 ∷ []) after_opening.builder.mem_bank
    × SameBuilder start after_opening
    × (after_opening.out_data ≡ start.out_data)
unfolding absorb
opened-Implements = process-Implements_lem
  where
    process-Implements_lem :
        Implements start
          (absorb idle (toy.bytes opening) (4 ∷ []) [])
          (Fragment.process opening start)
    process-Implements_lem =
        process-Implements toy_laws opening start refl opening-IsScanned opening-HasRoom
          new_event-IsEmpty.sound idle new_bank-IsEmpty

quiet-HasRoom : HasRoom quiet after_opening
quiet-HasRoom =
    let (done, holds, same, out) = opened-Implements in
    record {
      in_bank = omega (arith, holds.size_eq, same.memsize_eq, new_bank-capacity);
      in_event =
          rw out (omega (arith, holds.size_eq, new_event-IsEmpty.size_eq, new_event-capacity));
    }

process-counts_twice_example :
    let b = (Fragment.process quiet after_opening).1.builder.mem_bank in
    field size_field b ≡ (size b.container + 8) % 2 ^ 64
process-counts_twice_example =
    process-counts_twice toy_laws quiet after_opening opened (sym opened-Implements.2.board_eq)
      quiet-IsScanned quiet-HasRoom
      (subst (λ o. IsSound event o) (sym opened-Implements.3) new_event-IsEmpty.sound) refl refl
      opened-Implements.1

-- A spill with the trailer of another one.
abbrev torn : Box
torn = chunk (filler ∷ header_word 9 5 ∷ filler ∷ trailer_words 9 6) (4 ∷ []) (20 ∷ [])

torn_board : (Fragment.process torn start).1.builder.board_id ≡ 9
unfolding Fragment.process Fragment.process_outside move_to_event_bank create_size refresh assign
    append_range word_at mismatch
torn_board = refl

mismatch-jams_example :
    let f' = (Fragment.process torn start).1 in
    ((Fragment.process torn start).0
      ≡ err (record { reason = spill_data_mismatch; severity = fatal }))
    × (f'.out_data ≡ start.out_data)
    × (feed (opening ∷ quiet ∷ []) f'
        ≡ (err (record { reason = multiple_spills; severity = fatal }), f'))
unfolding absorb is_consistent mismatch
mismatch-jams_example =
    mismatch-jams toy_laws torn start refl torn-IsScanned
      (record { in_bank = whole-HasRoom.in_bank; in_event = whole-HasRoom.in_event })
      new_event-IsEmpty.sound idle new_bank-IsEmpty refl opening (quiet ∷ []) (sym torn_board)
  where
    torn-IsScanned : IsScanned torn
    torn-IsScanned = record {
      small = whole-IsScanned.small;
      headers_fit = whole-IsScanned.headers_fit;
      trailers_fit = whole-IsScanned.trailers_fit;
      apart = whole-IsScanned.apart;
    }
