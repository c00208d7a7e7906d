-- ===== src/Workers/Pipeline/Records.antt =====
-- Raw data in, events out: the scanner and the event builder do what the book says.
use bm_daq.Common.{
  ℕ, ◌+◌, ◌*◌, ◌^◌, ◌≤◌, ◌<◌, ◌≡◌, ◌⊎◌, inl, inr, refl, ap, ◌∙◌, length, subst, Bool, true, false,
  Option, some, none, List, [], ◌∷◌, leb, arith,
}
use bm_daq.Action.{ok}
use bm_daq.Ufe.{Ufe, UfeLaws}
use bm_daq.MdWord.{MdWord}
use bm_daq.DataLib.Fragment.Spec.{Phase, Outcome, stays, emits, rejects}
use bm_daq.Workers.Status.{ok_s}
use bm_daq.Workers.Scanner as Scanner
use bm_daq.Workers.EventBuilder as EventBuilder
use bm_daq.Workers.EventBuilder.{UfeRecorder}
use bm_daq.Workers.EventBuilder.Runs.{given}
use bm_daq.Workers.Pipeline.{absorb_words}
use bm_daq.Workers.Pipeline.Book.{Book, held, enter, contents, expect, expect_data}
use bm_daq.Workers.Pipeline.Feed.{Workers, feed_raw}
use bm_daq.Workers.Pipeline.Tracks.{IsRaw, Tracks, stays-Tracks, emits-Tracks}

passed_test :
    {A : Type 0} (test : Bool) (rest : Option A) (x : A)
    → elim test [ true ↦ rest | false ↦ none ] ≡ some x
    → (test ≡ true) × (rest ≡ some x)
passed_test true rest x h = (refl, h)
passed_test false rest x h = cc

not_rejected :
    {A : Type 0} (o : Outcome) (f : Phase → Option A) (g : List ℕ → Phase → Option A) (x : A)
    → elim o [ stays q ↦ f q | emits p q ↦ g p q | rejects r ↦ none ] ≡ some x
    → ((q : Phase) × (o ≡ stays q) × (f q ≡ some x))
      ⊎ ((p : List ℕ) × ((q : Phase) × (o ≡ emits p q) × (g p q ≡ some x)))
not_rejected (stays q) f g x h = inl (q, refl, h)
not_rejected (emits p q) f g x h = inr (p, (q, refl, h))
not_rejected (rejects r) f g x h = cc

module _ ⦃lib : Ufe⦄ ⦃word : MdWord⦄ where
  -- The three ways in which a book can be the one expected.
  expect_cases :
      (limit board : ℕ) (l : List ℕ) (ls : List (ℕ × List ℕ)) (b b' : Book)
      → expect_data limit ((board, l) ∷ ls) b ≡ some b'
      → (held (b.phases board) + length l ≤ limit)
        × (((q : Phase) × (absorb_words (b.phases board) l ≡ stays q)
              × (expect_data limit ls (enter board q [] b) ≡ some b'))
            ⊎ ((p : List ℕ) × ((q : Phase) × (absorb_words (b.phases board) l ≡ emits p q)
                  × (expect_data limit ls (enter board q (p ∷ []) b) ≡ some b'))))
  unfolding expect_data
  expect_cases limit board l ls b b' h =
      let o = absorb_words (b.phases board) l in
      let f = λ (q : Phase). expect_data limit ls (enter board q [] b) in
      let g = λ (p : List ℕ) (q : Phase). expect_data limit ls (enter board q (p ∷ []) b) in
      let (fits, rest) = passed_test (leb (held (b.phases board) + length l) limit) _ b' h in
      (ground arith, not_rejected o f g b' rest)

module _ ⦃lib : Ufe⦄ ⦃word : MdWord⦄ (rec : UfeRecorder lib.Container) where
  open lib use {Container, bytes, memsize, board_id}

  -- Every container holds raw data, and the times are 64-bit numbers.
  abbrev pub AllRaw : List (List ℕ) → List (Container × ℕ) → Type 0
  AllRaw devs [] = Unit {0}
  AllRaw devs ((c, now) ∷ cs) = IsRaw rec devs c × (now < 2 ^ 64) × AllRaw devs cs

  abbrev pub containers : List (Container × ℕ) → List Container
  containers [] = []
  containers ((c, now) ∷ cs) = c ∷ containers cs

  -- The workers after a container.
  abbrev scanner_after : Container → Workers rec → Scanner.State
  scanner_after c w = (Scanner.process (record w.scanner { output = c })).1

  abbrev pub after : Container → ℕ → Workers rec → Workers rec
  after c now w = record {
    scanner = scanner_after c w;
    builder = (EventBuilder.process rec now (given rec (scanner_after c w).output w.builder)).1;
  }

  feed_raw-succeeds :
      (c : Container) (now : ℕ) (cs : List (Container × ℕ)) (w : Workers rec)
      → (Scanner.process (record w.scanner { output = c })).0 ≡ ok ok_s
      → (EventBuilder.process rec now (given rec (scanner_after c w).output w.builder)).0 ≡ ok ok_s
      → feed_raw rec ((c, now) ∷ cs) w ≡ feed_raw rec cs (after c now w)
  unfolding feed_raw
  feed_raw-succeeds c now cs w scanned done = ground (arith, scanned, done)

  -- The workers have dealt with a container, as the book `between` says, and the rest is expected from
  -- there on. The container that is left is empty.
  pub record Dealt (devs : List (List ℕ)) (limit enough boards : ℕ) (k : rec.Recorder)
      (c : Container) (now : ℕ) (ls : List (ℕ × List ℕ)) (b' : Book) (w : Workers rec)
      : Type 0 where
    pub between : Book
    pub expected : expect_data limit ls between ≡ some b'
    pub goes_on :
        (cs : List (Container × ℕ))
        → feed_raw rec ((c, now) ∷ cs) w ≡ feed_raw rec cs (after c now w)
    pub tracks : Tracks rec devs limit enough boards k between (after c now w).builder
    pub bytes_eq : bytes (after c now w).builder.output ≡ []
    pub headers_eq : lib.spill_headers (after c now w).builder.output ≡ []
    pub trailers_eq : lib.spill_trailers (after c now w).builder.output ≡ []
    pub memsize_eq : memsize (after c now w).builder.output ≡ memsize c

  module _ (laws : UfeLaws)
      (writes : (w : Container) (k : rec.Recorder) → (rec.write w k).0 ≡ ok tt)
      {devs : List (List ℕ)} {limit enough boards : ℕ} (all_fit : 24 + boards * limit ≤ enough)
      {k : rec.Recorder} where
    pub one-Dealt :
        (c : Container) (now : ℕ) (ls : List (ℕ × List ℕ)) (b b' : Book) (w : Workers rec)
        → Tracks rec devs limit enough boards k b w.builder
        → IsRaw rec devs c
        → now < 2 ^ 64
        → expect_data limit ((board_id c, bytes c) ∷ ls) b ≡ some b'
        → Dealt devs limit enough boards k c now ls b' w
    one-Dealt c now ls b b' w t raw in_time h =
        let sc : Scanner.State = record w.scanner { output = c } in
        let (fits, outcome) = expect_cases limit (board_id c) (bytes c) ls b b' h in
        elim outcome [
          | inl (q, stay, rest) ↦
              dealt (enter (board_id c) q [] b) rest
                (stays-Tracks rec laws writes all_fit t sc raw fits now in_time q stay)
          | inr (p, (q, emit, rest)) ↦
              dealt (enter (board_id c) q (p ∷ []) b) rest
                (emits-Tracks rec laws writes all_fit t sc raw fits now in_time p q emit)
        ]
      where
        dealt :
            (m : Book)
            → expect_data limit ls m ≡ some b'
            → ((Scanner.process (record w.scanner { output = c })).0 ≡ ok ok_s)
              × ((EventBuilder.process rec now (given rec (scanner_after c w).output w.builder)).0
                  ≡ ok ok_s)
              × Tracks rec devs limit enough boards k m (after c now w).builder
              × ((after c now w).builder.output ≡ lib.clear (scanner_after c w).output)
              × (memsize (scanner_after c w).output ≡ memsize c)
            → Dealt devs limit enough boards k c now ls b' w
        dealt m rest (scanned, done, t', recycled, same) =
            let e = laws.clear_lem (scanner_after c w).output in
            record {
              between = m;
              expected = rest;
              goes_on = λ cs. feed_raw-succeeds c now cs w scanned done;
              tracks = t';
              bytes_eq = ap bytes recycled ∙ e.bytes_eq;
              headers_eq = ap lib.spill_headers recycled ∙ e.headers_eq;
              trailers_eq = ap lib.spill_trailers recycled ∙ e.trailers_eq;
              memsize_eq = ap memsize recycled ∙ e.memsize_eq ∙ same;
            }

    pub feed_raw-Tracks :
        (cs : List (Container × ℕ)) (b b' : Book) (w : Workers rec)
        → Tracks rec devs limit enough boards k b w.builder
        → AllRaw devs cs
        → expect limit (containers cs) b ≡ some b'
        → ((feed_raw rec cs w).0 ≡ ok ok_s)
          × Tracks rec devs limit enough boards k b' (feed_raw rec cs w).1.builder
    unfolding feed_raw expect_data
    feed_raw-Tracks [] b b' w t a h =
        (refl, subst (λ x. Tracks rec devs limit enough boards k x w.builder) (cc h) t)
    feed_raw-Tracks ((c, now) ∷ cs) b b' w t (raw, in_time, a) h =
        let d = one-Dealt c now (contents (containers cs)) b b' w t raw in_time h in
        rw (d.goes_on cs) (feed_raw-Tracks cs d.between b' (after c now w) d.tracks a d.expected)
