-- ===== src/Tests/Ring.antt =====
-- The theorems on containers that go round, at concrete inputs.
use bm_daq.Common.{ℕ, zero, suc, ◌+◌, ◌≡◌, refl, true, some, List, [], ◌∷◌, length, arith}
use bm_daq.Action.{ok}
use bm_daq.DataLib.Fragment.{mismatch}
use bm_daq.DataLib.Fragment.Spec.{absorb, is_consistent}
use bm_daq.Workers.Status.{ok_s}
use bm_daq.Workers.Readout.{ReadoutDevice}
use bm_daq.Workers.EventBuilder.{init}
use bm_daq.Workers.EventBuilder.Invariant.{Accounts}
use bm_daq.Workers.Pipeline.Book.{new_book, expect_data}
use bm_daq.Workers.Pipeline.Ring.{Sender, sent, Ring, circulate}
use bm_daq.Workers.Pipeline.Circulation.{AllBlank, AllGood, AllInTime, circulate-Accounts}
use bm_daq.Tests.Toy.{Box, toy, toy_word, toy_laws, empty_box, clip-eq}
use bm_daq.Tests.Fragments.{opening, quiet, closing}
use bm_daq.Tests.Machine.{file_recorder}
use bm_daq.Tests.Spills.{whole}
use bm_daq.Tests.Runs.{unused, two_devices, new_event_counts_nothing}
use bm_daq.Tests.Whole.{scanner, kept_book}

-- A whole spill, one in three parts, and then nothing.
abbrev packets : ℕ → List ℕ
packets zero = toy.bytes whole
packets (suc zero) = toy.bytes opening
packets (suc (suc zero)) = toy.bytes quiet
packets (suc (suc (suc zero))) = toy.bytes closing
packets (suc (suc (suc (suc n)))) = []

-- A device that counts what it has sent.
abbrev counting_usb : ReadoutDevice Box
counting_usb = record {
  Device = ℕ;
  is_open = λ n. true;
  init = λ n. (ok tt, n);
  status = λ n. 0;
  get_data = λ c n. record {
    container = record c { raw = packets n; board = 9 };
    read_size = length (packets n);
    device = n + 1;
  };
}

abbrev sender : Sender counting_usb 1000
sender = record {
  board = λ n. 9;
  packet = packets;
  next = λ n. n + 1;
  sends = λ c n blank few. record {
    bytes_eq = clip-eq (toy.memsize c) (packets n) (omega (arith, blank.roomy, few));
    headers_eq = blank.headers_eq;
    trailers_eq = blank.trailers_eq;
    memsize_eq = refl;
    board_eq = refl;
    read_size_eq = refl;
    device_eq = refl;
    status_eq = refl;
  };
}

abbrev ring : Ring counting_usb file_recorder
ring = record {
  readout = record { device = 0; read_size = 0; output = empty_box 1024; printed = 0 };
  workers = record { scanner = scanner; builder = (init file_recorder 4 two_devices unused).1 };
  empties = empty_box 1000 ∷ [];
}

blank : AllBlank counting_usb 1000 (empty_box 1024 ∷ empty_box 1000 ∷ [])
blank = (
  record { bytes_eq = refl; headers_eq = refl; trailers_eq = refl; roomy = omega arith },
  (record { bytes_eq = refl; headers_eq = refl; trailers_eq = refl; roomy = omega arith }, tt),
)

abbrev times : List ℕ
times = 100 ∷ 101 ∷ 102 ∷ 103 ∷ []

good : AllGood counting_usb two_devices 1000 (sent counting_usb sender 4 0)
good = (
  refl,
  omega arith,
  omega arith,
  omega arith,
  (
    refl,
    omega arith,
    omega arith,
    omega arith,
    (
      refl,
      omega arith,
      omega arith,
      omega arith,
      (refl, omega arith, omega arith, omega arith, tt),
    ),
  ),
)

in_time : AllInTime counting_usb times
in_time = (omega arith, (omega arith, (omega arith, (omega arith, tt))))

expected : expect_data 8000 (sent counting_usb sender 4 0) new_book ≡ some kept_book
unfolding expect_data absorb is_consistent mismatch
expected = refl

circulate-Accounts_example :
    let s = (init file_recorder 4 two_devices unused).1 in
    let (r, g') = circulate counting_usb file_recorder times ring in
    (r ≡ ok ok_s)
    × Accounts file_recorder
        (length s.board_event_builders)
        kept_book.spills
        s.recorder
        g'.workers.builder
    × (g'.readout.device ≡ 4)
    × AllBlank counting_usb 1000 (g'.readout.output ∷ g'.empties)
    × (length g'.empties ≡ 1)
circulate-Accounts_example =
    circulate-Accounts counting_usb file_recorder toy_laws (λ w k. refl) 4 two_devices unused refl
      refl refl (omega arith) (omega arith) (omega arith) (omega arith) new_event_counts_nothing
      sender ring refl blank times kept_book in_time good expected
