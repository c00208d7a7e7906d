-- ===== src/Workers/EventBuilder/Boards.antt =====
-- The map of boards.
use bm_daq.Common.{ℕ, ◌≡◌, some, [], ◌∷◌, length, arith}
use bm_daq.Workers.EventBuilder.{Map, find_entry, store}

module _ {V : Type 0} where
  -- A board that is known keeps its place.
  pub length-store :
      (board : ℕ) (value old : V) (entries : Map V)
      → find_entry board entries ≡ some old
      → length (store board value entries) ≡ length entries
  unfolding find_entry store
  length-store board value old [] h = cc
  length-store board value old ((b, here) ∷ others) h =
      ground (arith, length-store board value old others)
