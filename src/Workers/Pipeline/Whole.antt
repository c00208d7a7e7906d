-- ===== src/Workers/Pipeline/Whole.antt =====
-- The whole way of the data, from the event builder's `init` on.
use bm_daq.Common.{
  ℕ, ◌+◌, ◌*◌, ◌^◌, ◌≤◌, ◌<◌, ◌≡◌, refl, sym, ◌∙◌, subst, Bool, true, false, some, none, List, [],
  length, if◌then◌else◌, arith,
}
use bm_daq.Action.{ok}
use bm_daq.Ufe.{Ufe, UfeLaws}
use bm_daq.MdWord.{MdWord}
use bm_daq.DataLib.Headers.{fragment, event, n_fragments_field}
use bm_daq.DataLib.MemBank.{field, create_size}
use bm_daq.DataLib.MemBank.Clear.{IsEmpty, create_size-IsEmpty}
use bm_daq.DataLib.Fragment.{FragmentBuilder}
use bm_daq.Workers.Status.{ok_s}
use bm_daq.Workers.Scanner as Scanner
use bm_daq.Workers.EventBuilder.{UfeRecorder, State, init}
use bm_daq.Workers.EventBuilder.Invariant.{Accounts}
use bm_daq.Workers.EventBuilder.Room.{nineteen_fit}
use bm_daq.Workers.EventBuilder.Fresh.{has_any, total_boards, new_builder}
use bm_daq.Workers.EventBuilder.Start.{board_size, event_size, init-Accounts, init-memory}
use bm_daq.Workers.Pipeline.Book.{Book, new_book, expect}
use bm_daq.Workers.Pipeline.Feed.{feed_raw}
use bm_daq.Workers.Pipeline.Tracks.{Tracks}
use bm_daq.Workers.Pipeline.Records.{AllRaw, containers, feed_raw-Tracks}

module _ ⦃lib : Ufe⦄ where
  open lib use {Container}

  new_one :
      (test : Bool) (g f : FragmentBuilder Container)
      → IsEmpty fragment g.mem_bank
      → (if test then some g else none) ≡ some f
      → IsEmpty fragment f.mem_bank
  new_one true g f empty e =
      let same : g ≡ f = cc e in subst (λ x. IsEmpty fragment x.mem_bank) same empty
  new_one false g f empty e = cc

module _ ⦃lib : Ufe⦄ ⦃word : MdWord⦄ (rec : UfeRecorder lib.Container) where
  open lib use {Container}

  -- What `init` leaves, for at most 19 boards, follows the empty book, and there is memory for any run.
  pub init-Tracks :
      (laws : UfeLaws) (buffer_size : ℕ) (devs : List (List ℕ)) (new : State rec)
      → new.board_event_builders ≡ []
      → new.event_id ≡ 0
      → (rec.init new.recorder).0 ≡ ok tt
      → 0 < buffer_size
      → buffer_size * 40000 < 2 ^ 64
      → 0 < total_boards devs
      → total_boards devs ≤ 19
      → field n_fragments_field (create_size event (event_size buffer_size)).1 ≡ 0
      → let s = (init rec buffer_size devs new).1 in
        let boards = length s.board_event_builders in
        Tracks rec devs
          (board_size buffer_size)
          (event_size buffer_size)
          boards
          s.recorder
          new_book
          s
        × (24 + boards * board_size buffer_size ≤ event_size buffer_size)
  init-Tracks laws buffer_size devs new none_yet first opens positive small some_boards few
        zero_count =
      let limit : ℕ = board_size buffer_size in
      let enough : ℕ = event_size buffer_size in
      let s : State rec = (init rec buffer_size devs new).1 in
      let (_, empty, _) = create_size-IsEmpty laws fragment limit (omega arith) (omega arith) in
      let (_, a, found) =
        init-Accounts laws rec buffer_size devs new none_yet first opens (omega arith) (omega arith)
          some_boards (omega arith) zero_count in
      let (sized, bank, memory, at_most) =
        init-memory laws rec buffer_size devs new none_yet opens (omega arith) (omega arith) in
      let fit =
        nineteen_fit rec (length s.board_event_builders) buffer_size (omega (arith, at_most, few))
          positive small in
      (
        record {
          accounts = a;
          short = tt;
          roomy = record {
            sized = sized;
            bank = (create_size event enough).1;
            spill = bank;
            memory = omega (arith, memory);
          };
          represent =
              λ k f e. new_one (has_any k devs) (new_builder limit k) f empty (sym (found k) ∙ e);
          known = λ k h. (new_builder limit k, rw (found k, h) refl);
        },
        fit,
      )

  -- On an event builder without builders and events, with a recorder that can be initialised and does not
  -- throw, sizes that do not wrap, at least one and at most 19 boards, and a new event's bank that happens
  -- to count no fragment: after `init`, for containers of raw data of these boards in any order, of which
  -- the specification rejects none and each fits into the memory of its board, the scanner and the event
  -- builder succeed on every one, and the event builder accounts for exactly the spills that the
  -- specification cuts from the words of the raw data, in order.
  pub feed_raw-Accounts :
      (laws : UfeLaws)
      → ((w : Container) (k : rec.Recorder) → (rec.write w k).0 ≡ ok tt)
      → (buffer_size : ℕ) (devs : List (List ℕ)) (new : State rec) → new.board_event_builders ≡ []
      → new.event_id ≡ 0
      → (rec.init new.recorder).0 ≡ ok tt
      → 0 < buffer_size
      → buffer_size * 40000 < 2 ^ 64
      → 0 < total_boards devs
      → total_boards devs ≤ 19
      → field n_fragments_field (create_size event (event_size buffer_size)).1 ≡ 0
      → (sc : Scanner.State) (cs : List (Container × ℕ)) (b : Book) → AllRaw rec devs cs
      → expect (board_size buffer_size) (containers rec cs) new_book ≡ some b
      → let s = (init rec buffer_size devs new).1 in
        let (r, w) = feed_raw rec cs (record { scanner = sc; builder = s }) in
        (r ≡ ok ok_s) × Accounts rec (length s.board_event_builders) b.spills s.recorder w.builder
  feed_raw-Accounts laws writes buffer_size devs new none_yet first opens positive small some_boards
        few zero_count sc cs b raw expected =
      let (start, fit) =
        init-Tracks laws buffer_size devs new none_yet first opens positive small some_boards few
          zero_count in
      let (done, t) =
        feed_raw-Tracks rec laws writes fit cs new_book b
          (record { scanner = sc; builder = (init rec buffer_size devs new).1 }) start raw
          expected in
      (done, t.accounts)
