-- ===== src/Tests/Whole.antt =====
-- The theorem on the whole way of the data at concrete inputs.
use bm_daq.Common.{ℕ, ◌≡◌, refl, some, List, [], ◌∷◌, ◌++◌, drop, take, length, arith}
use bm_daq.Action.{ok}
use bm_daq.DataLib.Fragment.{mismatch}
use bm_daq.DataLib.Fragment.Spec.{idle, collecting, absorb, is_consistent}
use bm_daq.Workers.Status.{ok_s}
use bm_daq.Workers.Scanner as Scanner
use bm_daq.Workers.EventBuilder.{init}
use bm_daq.Workers.EventBuilder.Invariant.{Accounts}
use bm_daq.Workers.Pipeline.Book.{Book, new_book, enter, expect, expect_data}
use bm_daq.Workers.Pipeline.Feed.{feed_raw}
use bm_daq.Workers.Pipeline.Records.{AllRaw, containers}
use bm_daq.Workers.Pipeline.AnyOrder.{SameEnd, feed_raw-any_order}
use mathlib.Core.List.{Permᴰ}
use bm_daq.Workers.Pipeline.Whole.{feed_raw-Accounts}
use bm_daq.Tests.Toy.{Box, toy, toy_word, toy_laws}
use bm_daq.Tests.Fragments.{opening, quiet, closing}
use bm_daq.Tests.Machine.{file_recorder}
use bm_daq.Tests.Spills.{whole, spill}
use bm_daq.Tests.Runs.{unused, two_devices, new_event_counts_nothing}

-- A container as it is read out.
abbrev unmarked : Box → Box
unmarked c = record c { headers = []; trailers = [] }

-- A whole spill, and one in three containers.
abbrev read_out : List (Box × ℕ)
read_out =
    (unmarked whole, 100)
    ∷ (unmarked opening, 101)
    ∷ (unmarked quiet, 102)
    ∷ (unmarked closing, 103)
    ∷ []

abbrev pub scanner : Scanner.State
scanner = record { output = whole; trigger_tag = 0; printed = [] }

all_raw : AllRaw file_recorder two_devices read_out
all_raw = (
  record {
    known = refl;
    no_headers = refl;
    no_trailers = refl;
    some_words = omega arith;
    small = omega arith;
  },
  omega arith,
  (
    record {
      known = refl;
      no_headers = refl;
      no_trailers = refl;
      some_words = omega arith;
      small = omega arith;
    },
    omega arith,
    (
      record {
        known = refl;
        no_headers = refl;
        no_trailers = refl;
        some_words = omega arith;
        small = omega arith;
      },
      omega arith,
      (
        record {
          known = refl;
          no_headers = refl;
          no_trailers = refl;
          some_words = omega arith;
          small = omega arith;
        },
        omega arith,
        tt,
      ),
    ),
  ),
)

abbrev start : List ℕ
start = drop 4 (toy.bytes opening)

abbrev later : List ℕ
later = start ++ toy.bytes quiet

abbrev in_pieces : List ℕ
in_pieces = later ++ take 12 (toy.bytes closing)

abbrev pub kept_book : Book
kept_book = enter 9 idle (in_pieces ∷ []) (
    enter 9 (collecting later) []
      (enter 9 (collecting start) [] (enter 9 idle (spill ∷ []) new_book)))

expected : expect 8000 (containers file_recorder read_out) new_book ≡ some kept_book
unfolding expect_data absorb is_consistent mismatch
expected = refl

feed_raw-Accounts_example :
    let s = (init file_recorder 4 two_devices unused).1 in
    let (r, w) = feed_raw file_recorder read_out (record { scanner = scanner; builder = s }) in
    (r ≡ ok ok_s)
    × Accounts file_recorder (length s.board_event_builders) kept_book.spills s.recorder w.builder
feed_raw-Accounts_example =
    feed_raw-Accounts file_recorder toy_laws (λ w k. refl) 4 two_devices unused refl refl refl
      (omega arith) (omega arith) (omega arith) (omega arith) new_event_counts_nothing scanner
      read_out kept_book all_raw expected

-- The boards on other devices, and in another order.
abbrev other_devices : List (List ℕ)
other_devices = (4 ∷ []) ∷ (9 ∷ 5 ∷ []) ∷ []

feed_raw-any_order_example :
    SameEnd file_recorder
      (feed_raw file_recorder read_out
        (record { scanner = scanner; builder = (init file_recorder 4 two_devices unused).1 }))
      (feed_raw file_recorder read_out
        (record { scanner = scanner; builder = (init file_recorder 4 other_devices unused).1 }))
feed_raw-any_order_example =
    feed_raw-any_order file_recorder toy_laws 4 two_devices other_devices unused scanner read_out
      (Permᴰ.swap refl refl) (omega arith) (omega arith) refl
