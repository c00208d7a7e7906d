-- ===== src/Workers/Pipeline/Circulation.antt =====
-- All three workers together: what a device sends is recorded, while its containers go round.
use bm_daq.Common.{
  ℕ, zero, suc, ◌+◌, ◌*◌, ◌^◌, ◌≤◌, ◌<◌, ◌≡◌, ◌≢◌, refl, sym, ap, ◌∙◌, subst, true, some, List, [],
  ◌∷◌, ◌++◌, length, length-append, arith,
}
use bm_daq.Action.{ok}
use bm_daq.Ufe.{Ufe, UfeLaws, size}
use bm_daq.MdWord.{MdWord}
use bm_daq.DataLib.Headers.{event, n_fragments_field}
use bm_daq.DataLib.MemBank.{field, create_size}
use bm_daq.Workers.Status.{ok_s}
use bm_daq.Workers.Readout as Readout
use bm_daq.Workers.Readout.{ReadoutDevice}
use bm_daq.Workers.EventBuilder.{UfeRecorder, State, init}
use bm_daq.Workers.EventBuilder.Invariant.{Accounts}
use bm_daq.Workers.EventBuilder.Fresh.{has_any, total_boards}
use bm_daq.Workers.EventBuilder.Start.{board_size, event_size}
use bm_daq.Workers.Pipeline.Book.{Book, new_book, expect_data}
use bm_daq.Workers.Pipeline.Feed.{Workers, feed_raw}
use bm_daq.Workers.Pipeline.Tracks.{IsRaw, Tracks}
use bm_daq.Workers.Pipeline.Records.{after, one-Dealt}
use bm_daq.Workers.Pipeline.Whole.{init-Tracks}
use bm_daq.Workers.Pipeline.Ring.{IsBlank, Got, Sender, sent, Ring, turn, circulate}

module _ ⦃lib : Ufe⦄ (usb : ReadoutDevice lib.Container) where
  open lib use {Container}

  abbrev pub AllBlank : ℕ → List Container → Type 0
  AllBlank room [] = Unit {0}
  AllBlank room (c ∷ cs) = IsBlank usb room c × AllBlank room cs

  AllBlank-append :
      (room : ℕ) (cs : List Container) (c : Container)
      → AllBlank room cs
      → IsBlank usb room c
      → AllBlank room (cs ++ c ∷ [])
  AllBlank-append room [] c a b = (b, tt)
  AllBlank-append room (x ∷ cs) c (h, a) b = (h, AllBlank-append room cs c a b)

  -- Data of boards of the devices, at least a word and less than 4 GB, that a container has room for.
  abbrev pub AllGood : List (List ℕ) → ℕ → List (ℕ × List ℕ) → Type 0
  AllGood devs room [] = Unit {0}
  AllGood devs room ((board, l) ∷ ls) =
      (has_any board devs ≡ true)
      × (4 ≤ length l)
      × (length l < 2 ^ 32)
      × (length l ≤ room)
      × AllGood devs room ls

  abbrev pub AllInTime : List ℕ → Type 0
  AllInTime [] = Unit {0}
  AllInTime (now ∷ ts) = (now < 2 ^ 64) × AllInTime ts

  -- The device after so many calls.
  abbrev pub advance : {room : ℕ} → Sender usb room → ℕ → usb.Device → usb.Device
  advance u zero d = d
  advance u (suc n) d = advance u n (u.next d)

  reads :
      (r : Readout.Readout usb)
      → let got = usb.get_data r.output r.device in
        usb.status got.device ≡ 0
        → got.read_size ≢ 0
        → Readout.process usb r ≡ (
          ok_s,
          record r { output = got.container; read_size = got.read_size; device = got.device },
        )
  unfolding Readout.process
  reads r good some_data = ground arith

module _ ⦃lib : Ufe⦄ ⦃word : MdWord⦄ (usb : ReadoutDevice lib.Container)
    (rec : UfeRecorder lib.Container) where
  open lib use {Container}

  AllBlank-turn :
      (room : ℕ) (r : Readout.Readout usb) (w : Workers rec) (cs : List Container)
      → IsBlank usb room w.builder.output
      → AllBlank usb room cs
      → let g = turn usb rec r w cs in
        IsBlank usb room g.readout.output
        × AllBlank usb room g.empties
        × (g.readout.device ≡ r.device)
        × (g.workers ≡ w)
        × (length g.empties ≡ length cs)
  AllBlank-turn room r w [] b a = (b, tt, refl, refl, refl)
  AllBlank-turn room r w (c ∷ cs) b (h, a) = (
    h,
    AllBlank-append usb room cs _ a b,
    refl,
    refl,
    length-append cs (w.builder.output ∷ []) ∙ omega arith,
  )

  round :
      (now : ℕ) (ts : List ℕ) (g : Ring usb rec) (r : Readout.Readout usb) (w : Workers rec)
      → Readout.process usb g.readout ≡ (ok_s, r)
      → feed_raw rec ((r.output, now) ∷ []) g.workers ≡ (ok ok_s, w)
      → circulate usb rec (now ∷ ts) g ≡ circulate usb rec ts (turn usb rec r w g.empties)
  unfolding circulate
  round now ts g r w read fed = ground (arith, read, fed)

  -- The ring follows the book, and so far the device has got to `d`.
  pub record Turns (devs : List (List ℕ)) (limit enough boards : ℕ) (k : rec.Recorder) (room : ℕ)
      (b : Book) (d : usb.Device) (n : ℕ) (g : Ring usb rec) : Type 0 where
    pub tracks : Tracks rec devs limit enough boards k b g.workers.builder
    pub blank : AllBlank usb room (g.readout.output ∷ g.empties)
    pub device_eq : g.readout.device ≡ d
    pub number_eq : length g.empties ≡ n

  module _ (laws : UfeLaws)
      (writes : (w : Container) (k : rec.Recorder) → (rec.write w k).0 ≡ ok tt)
      {devs : List (List ℕ)} {limit enough boards : ℕ} (all_fit : 24 + boards * limit ≤ enough)
      {k : rec.Recorder} {room : ℕ} (u : Sender usb room) where
    circulate-Turns :
        (ts : List ℕ) (g : Ring usb rec) (d : usb.Device) (b b' : Book) (n : ℕ)
        → Turns devs limit enough boards k room b d n g
        → AllGood usb devs room (sent usb u (length ts) d)
        → AllInTime usb ts
        → expect_data limit (sent usb u (length ts) d) b ≡ some b'
        → ((circulate usb rec ts g).0 ≡ ok ok_s)
          × Turns devs limit enough boards k room b'
              (advance usb u (length ts) d)
              n
              (circulate usb rec ts g).1
    unfolding circulate expect_data feed_raw
    circulate-Turns [] g d b b' n t good in_time h =
        (refl, subst (λ x. Turns devs limit enough boards k room x d n g) (cc h) t)
    circulate-Turns (now ∷ ts) g d b b' n t (known, some_words, small, fits, good) (in_time, later)
          h =
        let sending : Got usb (u.board d) (u.packet d) (u.next d) g.readout.output
            (usb.get_data g.readout.output g.readout.device) =
          subst
            (λ x.
              Got usb (u.board d) (u.packet d) (u.next d) g.readout.output
                (usb.get_data g.readout.output x))
            (sym t.device_eq) (u.sends g.readout.output d t.blank.0 fits) in
        let got = usb.get_data g.readout.output g.readout.device in
        let r : Readout.Readout usb = record g.readout {
          output = got.container;
          read_size = got.read_size;
          device = got.device;
        } in
        let same_size : size got.container ≡ length (u.packet d) = ap length sending.bytes_eq in
        let raw : IsRaw rec devs got.container = record {
          known = rw sending.board_eq known;
          no_headers = sending.headers_eq;
          no_trailers = sending.trailers_eq;
          some_words = omega arith;
          small = omega arith;
        } in
        let dealt =
          one-Dealt rec laws writes all_fit got.container now (sent usb u (length ts) (u.next d)) b
            b' g.workers t.tracks raw in_time (rw (sending.board_eq, sending.bytes_eq) h) in
        let w : Workers rec = after rec got.container now g.workers in
        let (first, others, device, same, number) =
          AllBlank-turn room r w g.empties
            (record {
              bytes_eq = dealt.bytes_eq;
              headers_eq = dealt.headers_eq;
              trailers_eq = dealt.trailers_eq;
              roomy = omega (arith, dealt.memsize_eq, sending.memsize_eq, t.blank.0.roomy);
            })
            t.blank.1 in
        rw
          (round now ts g r w
            (reads usb g.readout sending.status_eq
              (λ e. absurd (omega (arith, sending.read_size_eq))))
            (dealt.goes_on []))
          (circulate-Turns ts (turn usb rec r w g.empties) (u.next d) dealt.between b' n
            (record {
              tracks = rw same dealt.tracks;
              blank = (first, others);
              device_eq = device ∙ sending.device_eq;
              number_eq = number ∙ t.number_eq;
            })
            good later dealt.expected)

  -- On a ring of blank containers, with an event builder as `init` leaves it (no
  -- builders and events before, a recorder that can be initialised and does not throw, sizes that do not
  -- wrap, at least one and at most 19 boards, a new event's bank that happens to count no fragment), and a
  -- device that sends good data of these boards, of which the specification rejects none and each
  -- fits into the memory of its board: all workers succeed in every round; the event builder accounts for
  -- exactly the spills that the specification cuts from the data that the device sent, in order; and there
  -- are as many containers as before, all blank, with nothing of the data left in them.
  pub circulate-Accounts :
      (laws : UfeLaws)
      → ((w : Container) (k : rec.Recorder) → (rec.write w k).0 ≡ ok tt)
      → (buffer_size : ℕ) (devs : List (List ℕ)) (new : State rec) → new.board_event_builders ≡ []
      → new.event_id ≡ 0
      → (rec.init new.recorder).0 ≡ ok tt
      → 0 < buffer_size
      → buffer_size * 40000 < 2 ^ 64
      → 0 < total_boards devs
      → total_boards devs ≤ 19
      → field n_fragments_field (create_size event (event_size buffer_size)).1 ≡ 0
      → {room : ℕ} (u : Sender usb room) (g : Ring usb rec)
      → g.workers.builder ≡ (init rec buffer_size devs new).1
      → AllBlank usb room (g.readout.output ∷ g.empties)
      → (ts : List ℕ) (b : Book) → AllInTime usb ts
      → AllGood usb devs room (sent usb u (length ts) g.readout.device)
      → expect_data (board_size buffer_size) (sent usb u (length ts) g.readout.device) new_book
        ≡ some b
      → let s = (init rec buffer_size devs new).1 in
        let (r, g') = circulate usb rec ts g in
        (r ≡ ok ok_s)
        × Accounts rec (length s.board_event_builders) b.spills s.recorder g'.workers.builder
        × (g'.readout.device ≡ advance usb u (length ts) g.readout.device)
        × AllBlank usb room (g'.readout.output ∷ g'.empties)
        × (length g'.empties ≡ length g.empties)
  circulate-Accounts laws writes buffer_size devs new none_yet first opens positive small
        some_boards few zero_count {room} u g begun blank ts b in_time good expected =
      let (start, fit) =
        init-Tracks rec laws buffer_size devs new none_yet first opens positive small some_boards
          few zero_count in
      let (done, t) =
        circulate-Turns laws writes {devs = devs} fit u ts g g.readout.device new_book b
          (length g.empties)
          (record { tracks = rw begun start; blank = blank; device_eq = refl; number_eq = refl })
          good in_time expected in
      (done, t.tracks.accounts, t.device_eq, t.blank, t.number_eq)
