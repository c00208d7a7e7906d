-- ===== src/Workers/EventBuilder/Fresh.antt =====
-- The fragment builders that `BMDEventBuilder::init` makes, and the map with them.
use bm_daq.Common.{
  ℕ, suc, ◌+◌, ◌≤◌, ◌<◌, ◌≡◌, refl, Bool, true, false, some, List, [], ◌∷◌, length, ◌==◌,
  if◌then◌else◌, arith,
}
use bm_daq.Ufe.{Ufe}
use bm_daq.DataLib.Headers.{fragment}
use bm_daq.DataLib.MemBank.{create_size}
use bm_daq.DataLib.Fragment.{FragmentBuilder}
use bm_daq.Workers.EventBuilder.{Map, find_entry, store}

module _ {V : Type 0} where
  pub find_entry-store :
      (k board : ℕ) (value : V) (entries : Map V)
      → find_entry k (store board value entries)
        ≡ (if board == k then some value else find_entry k entries)
  unfolding find_entry store
  find_entry-store k board value [] = refl
  find_entry-store k board value ((b, here) ∷ others) =
      ground (arith, find_entry-store k board value others)

  length-store_bounds :
      (board : ℕ) (value : V) (entries : Map V)
      → (1 ≤ length (store board value entries))
        × (length entries ≤ length (store board value entries))
        × (length (store board value entries) ≤ suc (length entries))
  unfolding store
  length-store_bounds board value [] = omega arith
  length-store_bounds board value ((b, here) ∷ others) =
      ground (arith, length-store_bounds board value others)

-- Whether a board is in the list of a device, or of any device.
abbrev pub has : ℕ → List ℕ → Bool
has k [] = false
has k (b ∷ bs) = if b == k then true else has k bs

abbrev pub has_any : ℕ → List (List ℕ) → Bool
has_any k [] = false
has_any k (bs ∷ devs) = if has k bs then true else has_any k devs

abbrev pub total_boards : List (List ℕ) → ℕ
total_boards [] = 0
total_boards (bs ∷ devs) = length bs + total_boards devs

module _ ⦃lib : Ufe⦄ where
  open lib use {Container}

  -- The fragment builder that `init` makes.
  abbrev pub new_builder : ℕ → ℕ → FragmentBuilder Container
  new_builder n b = record { board_id = b; mem_bank = (create_size fragment n).1 }

  -- The map with new builders for the boards.
  abbrev pub stored : ℕ → List ℕ → Map (FragmentBuilder Container) → Map (FragmentBuilder Container)
  stored n [] m = m
  stored n (b ∷ bs) m = stored n bs (store b (new_builder n b) m)

  abbrev pub stored_all :
      ℕ → List (List ℕ) → Map (FragmentBuilder Container) → Map (FragmentBuilder Container)
  stored_all n [] m = m
  stored_all n (bs ∷ devs) m = stored_all n devs (stored n bs m)

  find_entry-stored :
      (n k : ℕ) (bs : List ℕ) (m : Map (FragmentBuilder Container))
      → find_entry k (stored n bs m) ≡ (if has k bs then some (new_builder n k) else find_entry k m)
  find_entry-stored n k [] m = refl
  find_entry-stored n k (b ∷ bs) m = ground (
    arith,
    find_entry-stored n k bs (store b (new_builder n b) m),
    find_entry-store k b (new_builder n b) m,
  )

  pub find_entry-stored_all :
      (n k : ℕ) (devs : List (List ℕ)) (m : Map (FragmentBuilder Container))
      → find_entry k (stored_all n devs m)
        ≡ (if has_any k devs then some (new_builder n k) else find_entry k m)
  find_entry-stored_all n k [] m = refl
  find_entry-stored_all n k (bs ∷ devs) m =
      ground (arith, find_entry-stored_all n k devs (stored n bs m), find_entry-stored n k bs m)

  length-stored :
      (n : ℕ) (bs : List ℕ) (m : Map (FragmentBuilder Container))
      → (length m ≤ length (stored n bs m))
        × (length (stored n bs m) ≤ length bs + length m)
        × (0 < length bs → 0 < length (stored n bs m))
  length-stored n [] m = omega arith
  length-stored n (b ∷ bs) m = omega (
    arith,
    length-stored n bs (store b (new_builder n b) m),
    length-store_bounds b (new_builder n b) m,
  )

  pub length-stored_all :
      (n : ℕ) (devs : List (List ℕ)) (m : Map (FragmentBuilder Container))
      → (length m ≤ length (stored_all n devs m))
        × (length (stored_all n devs m) ≤ total_boards devs + length m)
        × (0 < total_boards devs → 0 < length (stored_all n devs m))
  length-stored_all n [] m = omega arith
  length-stored_all n (bs ∷ devs) m =
      grind (arith, length-stored_all n devs (stored n bs m), length-stored n bs m)

  -- What every new builder keeps holds of the map with all of them.
  module _ (n : ℕ) {P : Map (FragmentBuilder Container) → Type 0}
      (one : (b : ℕ) (m : Map (FragmentBuilder Container))
        → P m
        → P (store b (new_builder n b) m)) where
    stored-keeps : (bs : List ℕ) (m : Map (FragmentBuilder Container)) → P m → P (stored n bs m)
    stored-keeps [] m h = h
    stored-keeps (b ∷ bs) m h = stored-keeps bs (store b (new_builder n b) m) (one b m h)

    pub stored_all-keeps :
        (devs : List (List ℕ)) (m : Map (FragmentBuilder Container)) → P m → P (stored_all n devs m)
    stored_all-keeps [] m h = h
    stored_all-keeps (bs ∷ devs) m h = stored_all-keeps devs (stored n bs m) (stored-keeps bs m h)
