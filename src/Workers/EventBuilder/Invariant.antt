-- ===== src/Workers/EventBuilder/Invariant.antt =====
-- What holds of the event builder between two calls of `process`.
use bm_daq.Common.{
  ◌++◌, append_assoc, drop, Bool, true, false, ℕ, ◌%◌, ◌^◌, ◌<◌, ◌≡◌, refl, sym, ap, ◌∙◌, subst,
  Option, some, List, [], ◌∷◌, length, ◌==◌, if◌then◌else◌, arith,
}
use bm_daq.Ufe.{Ufe}
use bm_daq.DataLib.Headers.{event, n_fragments_field, event_id_field}
use bm_daq.DataLib.MemBank.{Bank, field}
use bm_daq.DataLib.MemBank.Invariant.{IsSound, SizeAgrees}
use bm_daq.DataLib.Fragment.{FragmentBuilder}
use bm_daq.DataLib.Fragment.Spec.{Phase, image}
use bm_daq.DataLib.Fragment.Refines.{Represents}
use bm_daq.Workers.EventBuilder.{Map, UfeRecorder, State, find_entry, store}

-- The fragments of spills as they stand in an event.
abbrev pub images : List (List ℕ) → List ℕ
images [] = []
images (p ∷ ps) = image p ++ images ps

pub images-append : (ps qs : List (List ℕ)) → images (ps ++ qs) ≡ images ps ++ images qs
images-append [] qs = refl
images-append (p ∷ ps) qs =
    ap (λ l. image p ++ l) (images-append ps qs) ∙ sym (append_assoc (image p) _ _)

-- The spills of events.
abbrev pub joined_all : List (List (List ℕ)) → List (List ℕ)
joined_all [] = []
joined_all (e ∷ es) = e ++ joined_all es

pub joined_all-append :
    (es fs : List (List (List ℕ))) → joined_all (es ++ fs) ≡ joined_all es ++ joined_all fs
joined_all-append [] fs = refl
joined_all-append (e ∷ es) fs =
    ap (λ l. e ++ l) (joined_all-append es fs) ∙ sym (append_assoc e _ _)

abbrev pub AllLength : ℕ → List (List (List ℕ)) → Type 0
AllLength n [] = Unit {0}
AllLength n (e ∷ es) = (length e ≡ n) × AllLength n es

pub AllLength-append :
    (n : ℕ) (es : List (List (List ℕ))) (e : List (List ℕ))
    → AllLength n es
    → length e ≡ n
    → AllLength n (es ++ e ∷ [])
AllLength-append n [] e a h = (h, tt)
AllLength-append n (f ∷ es) e (g, a) h = (g, AllLength-append n es e a h)

module _ ⦃lib : Ufe⦄ where
  open lib use {Container}

  -- A fragment builder for the board, between two spills or within one.
  pub record IsBuilder (board : ℕ) (b : FragmentBuilder Container) : Type 0 where
    pub board_eq : b.board_id ≡ board
    pub phase : Phase
    pub represents : Represents phase b.mem_bank

  abbrev pub AllBuilders : Map (FragmentBuilder Container) → Type 0
  AllBuilders [] = Unit {0}
  AllBuilders ((k, b) ∷ m) = IsBuilder k b × AllBuilders m

  choose-IsBuilder :
      (test : Bool) (k j : ℕ) (b c : FragmentBuilder Container)
      (rest : Option (FragmentBuilder Container))
      → (test ≡ true → j ≡ k)
      → IsBuilder j b
      → (rest ≡ some c → IsBuilder k c)
      → (if test then some b else rest) ≡ some c
      → IsBuilder k c
  choose-IsBuilder true k j b c rest same here later h =
      subst (λ x. IsBuilder k x) (cc h) (subst (λ i. IsBuilder i b) (same refl) here)
  choose-IsBuilder false k j b c rest same here later h = later h

  choose-AllBuilders :
      (test : Bool) (m n : Map (FragmentBuilder Container))
      → AllBuilders m
      → AllBuilders n
      → AllBuilders (if test then m else n)
  choose-AllBuilders true m n a b = a
  choose-AllBuilders false m n a b = b

  pub find_entry-IsBuilder :
      (k : ℕ) (m : Map (FragmentBuilder Container)) (b : FragmentBuilder Container)
      → AllBuilders m
      → find_entry k m ≡ some b
      → IsBuilder k b
  unfolding find_entry
  find_entry-IsBuilder k [] b a h = cc
  find_entry-IsBuilder k ((j, c) ∷ m) b (here, later) h =
      choose-IsBuilder (j == k) k j c b (find_entry k m) (λ e. ground arith) here
        (find_entry-IsBuilder k m b later) h

  pub store-AllBuilders :
      (k : ℕ) (m : Map (FragmentBuilder Container)) (b : FragmentBuilder Container)
      → AllBuilders m
      → IsBuilder k b
      → AllBuilders (store k b m)
  unfolding store
  store-AllBuilders k [] b a h = (h, tt)
  store-AllBuilders k ((j, c) ∷ m) b (here, later) h =
      choose-AllBuilders (j == k) ((k, b) ∷ m) ((j, c) ∷ store k b m) (h, later)
        (here, store-AllBuilders k m b later h)

  module _ (rec : UfeRecorder Container) where
    -- A sound event's bank whose size is right, with fewer fragments than there are boards, and a
    -- fragment builder for each board, at its number.
    pub record IsReady (s : State rec) : Type 0 where
      pub event_bank : Bank
      pub spill : s.spill_mem_bank ≡ some event_bank
      pub sound : IsSound event event_bank
      pub agrees : SizeAgrees event_bank
      pub builders : AllBuilders s.board_event_builders
      pub few_boards : length s.board_event_builders < 2 ^ 16
      pub few_fragments : field n_fragments_field event_bank < length s.board_event_builders
      pub in_event_id : s.event_id < 2 ^ 32

    -- The recorder's `write` was called for events that hold these spills, in order: each container has
    -- the spills' images behind its header, and the header has the size, the count and the number.
    pub data Written (k : rec.Recorder) : List (List (List ℕ)) → rec.Recorder → Type 0 where
      nothing : Written k [] k
      event_of :
          {events events' : List (List (List ℕ))} {k' k'' : rec.Recorder} (w : Bank)
          (spills : List (List ℕ))
          → Written k events k'
          → SizeAgrees w
          → drop 24 (lib.bytes w.container) ≡ images spills
          → field n_fragments_field w ≡ length spills
          → field event_id_field w ≡ length events % 2 ^ 32
          → events' ≡ events ++ spills ∷ []
          → k'' ≡ (rec.write w.container k').1
          → Written k events' k''

    -- After these spills, of `boards` boards: the first of them were written in events of as many spills
    -- as boards, and the rest, fewer than boards, are in the event's bank, in order.
    pub record Accounts (boards : ℕ) (spills : List (List ℕ)) (k : rec.Recorder) (s : State rec)
        : Type 0 where
      pub ready : IsReady s
      pub boards_eq : length s.board_event_builders ≡ boards
      pub events : List (List (List ℕ))
      pub waiting : List (List ℕ)
      pub spills_eq : spills ≡ joined_all events ++ waiting
      pub whole : AllLength boards events
      pub count_eq : field n_fragments_field ready.event_bank ≡ length waiting
      pub data_eq : drop 24 (lib.bytes ready.event_bank.container) ≡ images waiting
      pub event_id_eq : s.event_id ≡ length events % 2 ^ 32
      pub written : Written k events s.recorder
