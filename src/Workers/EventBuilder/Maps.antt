-- ===== src/Workers/EventBuilder/Maps.antt =====
-- The map of boards as `std::map` is used: by its entries and their number, not by their order.
use mathlib.Core.List.{Permᴰ}
use bm_daq.Ufe.{Ufe}
use bm_daq.DataLib.Fragment.{FragmentBuilder}
use bm_daq.Common.{
  ℕ, ◌+◌, ◌≡◌, refl, sym, ap, ◌∙◌, subst, Option, some, none, List, [], ◌∷◌, ◌++◌, length, ◌==◌,
  if◌then◌else◌, arith,
}
use bm_daq.Workers.EventBuilder.{Map, find_entry, store}
use bm_daq.Workers.EventBuilder.Fresh.{find_entry-store, new_builder, stored, stored_all}

module _ {V : Type 0} where
  -- The same entries, and as many.
  pub record SameMap (m m' : Map V) : Type 0 where
    pub entries : (k : ℕ) → find_entry k m ≡ find_entry k m'
    pub count : length m ≡ length m'

  abbrev missing : Option V → ℕ
  missing none = 1
  missing (some v) = 0

  -- An assignment adds an entry where there was none.
  length-store-missing :
      (k : ℕ) (v : V) (m : Map V) → length (store k v m) ≡ length m + missing (find_entry k m)
  unfolding store find_entry
  length-store-missing k v [] = refl
  length-store-missing k v ((j, w) ∷ m) = ground (arith, length-store-missing k v m)

  pub SameMap-refl : (m : Map V) → SameMap m m
  SameMap-refl m = record { entries = λ k. refl; count = refl }

  pub SameMap-trans : {m m' m'' : Map V} → SameMap m m' → SameMap m' m'' → SameMap m m''
  SameMap-trans a b = record { entries = λ k. a.entries k ∙ b.entries k; count = a.count ∙ b.count }

  pub store-SameMap :
      (k : ℕ) (v : V) {m m' : Map V} → SameMap m m' → SameMap (store k v m) (store k v m')
  store-SameMap k v {m} {m'} s = record {
    entries = λ j.
        find_entry-store j k v m
        ∙ ap (λ o. if k == j then some v else o) (s.entries j)
        ∙ sym (find_entry-store j k v m');
    count = omega (
      arith,
      length-store-missing k v m,
      length-store-missing k v m',
      s.count,
      ap missing (s.entries k),
    );
  }

  -- Assignments for different boards, or of the same value, may change places.
  pub store-SameMap_swap :
      (a b : ℕ) (f : ℕ → V) (m : Map V)
      → SameMap (store a (f a) (store b (f b) m)) (store b (f b) (store a (f a) m))
  store-SameMap_swap a b f m = record {
    entries = λ j. ground (
      arith,
      find_entry-store j a (f a) (store b (f b) m),
      find_entry-store j b (f b) m,
      find_entry-store j b (f b) (store a (f a) m),
      find_entry-store j a (f a) m,
    );
    count = ground (
      arith,
      length-store-missing a (f a) (store b (f b) m),
      length-store-missing b (f b) m,
      length-store-missing b (f b) (store a (f a) m),
      length-store-missing a (f a) m,
      find_entry-store a b (f b) m,
      find_entry-store b a (f a) m,
    );
  }

module _ ⦃lib : Ufe⦄ where
  open lib use {Container}

  stored-SameMap_both :
      (n : ℕ) (bs : List ℕ) {m m' : Map (FragmentBuilder Container)}
      → SameMap m m'
      → SameMap (stored n bs m) (stored n bs m')
  stored-SameMap_both n [] s = s
  stored-SameMap_both n (b ∷ bs) s = stored-SameMap_both n bs (store-SameMap b (new_builder n b) s)

  -- New builders for the same boards, in any order.
  stored-SameMap :
      (n : ℕ) {bs bs' : List ℕ} {m m' : Map (FragmentBuilder Container)}
      → Permᴰ bs bs'
      → SameMap m m'
      → SameMap (stored n bs m) (stored n bs' m')
  stored-SameMap n Permᴰ.nil s = s
  stored-SameMap n {m' = m'} (Permᴰ.cons {a = a} e p) s = stored-SameMap n p (
      SameMap-trans (store-SameMap a (new_builder n a) s) (
        subst (λ c. SameMap (store a (new_builder n a) m') (store c (new_builder n c) m')) e
          (SameMap-refl (store a (new_builder n a) m'))))
  stored-SameMap n {m' = m'} (Permᴰ.swap {a = a} {b = b} {l = l} e e') s =
      let one = store-SameMap b (new_builder n b) (store-SameMap a (new_builder n a) s) in
      let both = SameMap-trans one (store-SameMap_swap b a (new_builder n) m') in
      stored-SameMap_both n l (rw (← e, ← e') both)
  stored-SameMap n (Permᴰ.trans p q) s =
      SameMap-trans (stored-SameMap n p s) (stored-SameMap n q (SameMap-refl _))

  -- The boards of all devices.
  abbrev pub all_boards : List (List ℕ) → List ℕ
  all_boards [] = []
  all_boards (bs ∷ devs) = bs ++ all_boards devs

  stored-append :
      (n : ℕ) (bs cs : List ℕ) (m : Map (FragmentBuilder Container))
      → stored n (bs ++ cs) m ≡ stored n cs (stored n bs m)
  stored-append n [] cs m = refl
  stored-append n (b ∷ bs) cs m = stored-append n bs cs (store b (new_builder n b) m)

  stored_all-eq :
      (n : ℕ) (devs : List (List ℕ)) (m : Map (FragmentBuilder Container))
      → stored_all n devs m ≡ stored n (all_boards devs) m
  stored_all-eq n [] m = refl
  stored_all-eq n (bs ∷ devs) m =
      stored_all-eq n devs (stored n bs m) ∙ sym (stored-append n bs (all_boards devs) m)

  pub stored_all-SameMap :
      (n : ℕ) (devs devs' : List (List ℕ))
      → Permᴰ (all_boards devs) (all_boards devs')
      → (m : Map (FragmentBuilder Container)) → SameMap (stored_all n devs m) (stored_all n devs' m)
  stored_all-SameMap n devs devs' p m =
      rw (stored_all-eq n devs m, stored_all-eq n devs' m) (stored-SameMap n p (SameMap-refl m))
