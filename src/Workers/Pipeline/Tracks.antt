-- ===== src/Workers/Pipeline/Tracks.antt =====
-- The event builder follows the book.
use bm_daq.Common.{
  ℕ, ◌+◌, ◌*◌, ◌^◌, ◌≤◌, ◌<◌, ◌≡◌, refl, sym, ap, ◌∙◌, subst, Bool, true, false, Option, some, List,
  [], ◌∷◌, ◌==◌, if◌then◌else◌, arith,
}
use bm_daq.Action.{Result, ok}
use bm_daq.Ufe.{Ufe, UfeLaws, size}
use bm_daq.MdWord.{MdWord}
use bm_daq.DataLib.MemBank.{Bank}
use bm_daq.DataLib.Fragment.{FragmentBuilder}
use bm_daq.DataLib.Fragment.Spec.{Phase, idle, collecting, stays, emits, absorb}
use bm_daq.DataLib.Fragment.Refines.{Represents, HasRoom}
use bm_daq.Workers.Status.{ProcStatus, ok_s}
use bm_daq.Workers.Scanner as Scanner
use bm_daq.Workers.EventBuilder as EventBuilder
use bm_daq.Workers.EventBuilder.{Map, UfeRecorder, find_entry, store}
use bm_daq.Workers.EventBuilder.Invariant.{Accounts}
use bm_daq.Workers.EventBuilder.Memory.{find_entry-sized}
use bm_daq.Workers.EventBuilder.Steps.{Takes, Continues, Processed}
use bm_daq.Workers.EventBuilder.Runs.{given, Step, keeps, completes, Step-Accounts}
use bm_daq.Workers.EventBuilder.Capacity.{AllShort, AllShort-append, Roomy, Step-Roomy}
use bm_daq.Workers.EventBuilder.Room.{Accounts-HasRoom}
use bm_daq.Workers.EventBuilder.Fresh.{has_any, find_entry-store}
use bm_daq.Workers.Pipeline.{absorb_raw, scans, scanned_takes, absorb-scanned, scanned-Processed}
use bm_daq.Workers.Pipeline.Book.{Book, held, enter}

module _ ⦃lib : Ufe⦄ where
  open lib use {Container, board_id, spill_headers, spill_trailers}

  -- Every builder's bank represents the phase of its board.
  abbrev pub AllRepresent : (ℕ → Phase) → Map (FragmentBuilder Container) → Type 0
  AllRepresent phases m =
      (k : ℕ) (f : FragmentBuilder Container)
      → find_entry k m ≡ some f
      → Represents (phases k) f.mem_bank

  abbrev pub AllKnown : List (List ℕ) → Map (FragmentBuilder Container) → Type 0
  AllKnown devs m =
      (k : ℕ) → has_any k devs ≡ true → (f : FragmentBuilder Container) × (find_entry k m ≡ some f)

  choose_phase :
      (test : Bool) (q q' : Phase) (f g : FragmentBuilder Container)
      (rest : Option (FragmentBuilder Container))
      → Represents q' g.mem_bank
      → (rest ≡ some f → Represents q f.mem_bank)
      → (if test then some g else rest) ≡ some f
      → Represents (if test then q' else q) f.mem_bank
  choose_phase true q q' f g rest new old e =
      let same : g ≡ f = cc e in subst (λ x. Represents q' x.mem_bank) same new
  choose_phase false q q' f g rest new old e = old e

  store-AllRepresent :
      (phases : ℕ → Phase) (m : Map (FragmentBuilder Container)) (board : ℕ) (q : Phase)
      (g : FragmentBuilder Container)
      → AllRepresent phases m
      → Represents q g.mem_bank
      → AllRepresent (λ k. if board == k then q else phases k) (store board g m)
  store-AllRepresent phases m board q g a new k f e =
      choose_phase (board == k) (phases k) q f g (find_entry k m) new (a k f)
        (sym (find_entry-store k board g m) ∙ e)

  choose_known :
      (test : Bool) (g : FragmentBuilder Container) (rest : Option (FragmentBuilder Container))
      → ((f : FragmentBuilder Container) × (rest ≡ some f))
      → (f : FragmentBuilder Container) × ((if test then some g else rest) ≡ some f)
  choose_known true g rest old = (g, refl)
  choose_known false g rest old = old

  store-AllKnown :
      (devs : List (List ℕ)) (m : Map (FragmentBuilder Container)) (board : ℕ)
      (g : FragmentBuilder Container)
      → AllKnown devs m
      → AllKnown devs (store board g m)
  store-AllKnown devs m board g a k h =
      let (f, e) = choose_known (board == k) g (find_entry k m) (a k h) in
      (f, find_entry-store k board g m ∙ e)

  held-size : (q : Phase) (b : Bank) → Represents q b → size b.container ≡ held q
  held-size idle b r = r.size_eq
  held-size (collecting p) b r = r.size_eq

module _ ⦃lib : Ufe⦄ ⦃word : MdWord⦄ (rec : UfeRecorder lib.Container) where
  open lib use {Container, bytes, memsize, board_id, spill_headers, spill_trailers}

  -- Raw data of one of the boards of the devices: at least a word and less than 4 GB, without marks.
  pub record IsRaw (devs : List (List ℕ)) (c : Container) : Type 0 where
    pub known : has_any (board_id c) devs ≡ true
    pub no_headers : spill_headers c ≡ []
    pub no_trailers : spill_trailers c ≡ []
    pub some_words : 4 ≤ size c
    pub small : size c < 2 ^ 32

  -- The event builder accounts for the spills of the book, which are short enough for the banks, there is
  -- a builder for every board, and it represents the board's phase.
  pub record Tracks (devs : List (List ℕ)) (limit enough boards : ℕ) (k : rec.Recorder) (b : Book)
      (s : EventBuilder.State rec) : Type 0 where
    pub accounts : Accounts rec boards b.spills k s
    pub short : AllShort limit b.spills
    pub roomy : Roomy rec limit enough s
    pub represent : AllRepresent b.phases s.board_event_builders
    pub known : AllKnown devs s.board_event_builders

  module _ (laws : UfeLaws)
      (writes : (w : Container) (k : rec.Recorder) → (rec.write w k).0 ≡ ok tt)
      {devs : List (List ℕ)} {limit enough boards : ℕ} (all_fit : 24 + boards * limit ≤ enough)
      {k : rec.Recorder} {b : Book} {s : EventBuilder.State rec}
      (t : Tracks devs limit enough boards k b s) (sc : Scanner.State) (raw : IsRaw devs sc.output)
      (fits : held (b.phases (board_id sc.output)) + size sc.output ≤ limit) (now : ℕ)
      (in_time : now < 2 ^ 64) where
    abbrev c : Container
    c = sc.output

    abbrev q : Phase
    q = b.phases (board_id c)

    abbrev f : FragmentBuilder Container
    f = (t.known (board_id c) raw.known).0

    known_f : find_entry (board_id c) s.board_event_builders ≡ some f
    known_f = (t.known (board_id c) raw.known).1

    represents : Represents q f.mem_bank
    represents = t.represent (board_id c) f known_f

    abbrev o : Bank
    o = t.accounts.ready.event_bank

    room : HasRoom c (record { builder = f; out_data = o })
    room =
        let sized =
          find_entry-sized limit (board_id c) s.board_event_builders f t.roomy.sized known_f in
        Accounts-HasRoom rec limit enough t.accounts t.short t.roomy all_fit c f
          t.accounts.ready.event_bank known_f t.accounts.ready.spill
          (omega (arith, sized, held-size q f.mem_bank represents, fits))

    -- What the scanner leaves, and the event builder's call on it.
    abbrev c' : Container
    c' = (Scanner.process sc).1.output

    abbrev e : Result ProcStatus × EventBuilder.State rec
    e = EventBuilder.process rec now (given rec c' s)

    abbrev taken : Takes rec (given rec c' s) now o
    taken =
        scanned_takes rec laws sc s now t.accounts.ready f known_f raw.no_headers raw.no_trailers
          raw.some_words raw.small room in_time

    same_board : board_id c' ≡ board_id c
    same_board =
        (scans rec laws sc s now t.accounts.ready f known_f raw.no_headers raw.no_trailers
          raw.some_words raw.small room in_time).1.board_eq

    processed :
        ((Scanner.process sc).0 ≡ ok ok_s) × Processed rec (given rec c' s) now o (absorb_raw q c) e
    processed =
        scanned-Processed rec laws writes sc s now t.accounts.ready f q known_f represents
          raw.no_headers raw.no_trailers raw.some_words raw.small room in_time

    Step-Tracks :
        (q' : Phase) (ps : List (List ℕ)) (o' : Bank)
        → Continues rec (given rec c' s) now o' q' e
        → Step rec s ps e.1
        → Tracks devs limit enough boards k (enter (board_id c) q' ps b) e.1
    Step-Tracks q' ps o' x step =
        let (roomy, last) = Step-Roomy rec limit enough laws writes t.accounts t.roomy step in
        let eq : e.1.board_event_builders ≡ store (board_id c) x.builder s.board_event_builders =
          x.builders_eq ∙ ap (λ n. store n x.builder s.board_event_builders) same_board in
        record {
          accounts = Step-Accounts rec laws writes t.accounts step;
          short = AllShort-append limit b.spills ps t.short last;
          roomy = roomy;
          represent = subst (AllRepresent (enter (board_id c) q' ps b).phases) (sym eq) (
              store-AllRepresent b.phases s.board_event_builders (board_id c) q' x.builder
                t.represent x.represents);
          known =
              subst (AllKnown devs) (sym eq)
                (store-AllKnown devs s.board_event_builders (board_id c) x.builder t.known);
        }

    same_outcome : absorb q (bytes c') (spill_headers c') (spill_trailers c') ≡ absorb_raw q c
    same_outcome =
        absorb-scanned rec laws sc s now t.accounts.ready f known_f raw.no_headers raw.no_trailers
          raw.some_words raw.small room in_time q

    abbrev Followed : Phase → List (List ℕ) → Type 0
    Followed q' ps =
        ((Scanner.process sc).0 ≡ ok ok_s)
        × (e.0 ≡ ok ok_s)
        × Tracks devs limit enough boards k (enter (board_id c) q' ps b) e.1
        × (e.1.output ≡ lib.clear c')
        × (memsize c' ≡ memsize c)

    same_memory : memsize c' ≡ memsize c
    same_memory =
        (scans rec laws sc s now t.accounts.ready f known_f raw.no_headers raw.no_trailers
          raw.some_words raw.small room in_time).1.memsize_eq

    -- A container that is kept.
    pub stays-Tracks : (q' : Phase) → absorb_raw q c ≡ stays q' → Followed q' []
    stays-Tracks q' h =
        let x : Continues rec (given rec c' s) now o q' e =
          subst (λ y. Processed rec (given rec c' s) now o y e) h processed.1 in
        (
          processed.0,
          x.done,
          Step-Tracks q' [] o x
              (keeps c' now o q q' t.accounts.ready.spill taken represents (same_outcome ∙ h) refl),
          x.recycled,
          same_memory,
        )

    -- A container that completes a spill.
    pub emits-Tracks :
        (p : List ℕ) (q' : Phase) → absorb_raw q c ≡ emits p q' → Followed q' (p ∷ [])
    emits-Tracks p q' h =
        let (o', _, x) = subst (λ y. Processed rec (given rec c' s) now o y e) h processed.1 in
        (
          processed.0,
          x.done,
          Step-Tracks q' (p ∷ []) o' x (
              completes c' now o q q' p t.accounts.ready.spill taken represents (same_outcome ∙ h)
                refl),
          x.recycled,
          same_memory,
        )
