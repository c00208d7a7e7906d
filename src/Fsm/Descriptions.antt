-- ===== src/Fsm/Descriptions.antt =====
-- `BMDIdle::setDeviceDescription`: the description that names the same boards, in whatever order.
use bm_daq.Common.{
  ℕ, Bool, true, false, Option, none, some, List, [], ◌∷◌, map, length, ◌==◌, leb, ◌&&◌,
  if◌then◌else◌,
}
use bm_daq.Fsm.{DeviceDescription}

-- `sort(b_ids.begin(), b_ids.end(), greater<int>())`
unfoldable pub insert_desc : ℕ → List ℕ → List ℕ
insert_desc a [] = a ∷ []
insert_desc a (x ∷ xs) = if leb x a then a ∷ x ∷ xs else x ∷ insert_desc a xs

unfoldable pub sort_desc : List ℕ → List ℕ
sort_desc [] = []
sort_desc (x ∷ xs) = insert_desc x (sort_desc xs)

-- `b_ids == dev->boards()`
unfoldable pub same_ids : List ℕ → List ℕ → Bool
same_ids [] [] = true
same_ids [] (y ∷ ys) = false
same_ids (x ∷ xs) [] = false
same_ids (x ∷ xs) (y ∷ ys) = x == y && same_ids xs ys

abbrev pub ids : DeviceDescription → List ℕ
ids d = map (λ b. b.id) d.boards

-- The loop over `bm_config_doc_["Devices"]`: the first description that fits, if there is one.
unfoldable pub find_description : List ℕ → List DeviceDescription → Option DeviceDescription
find_description boards [] = none
find_description boards (d ∷ ds) =
    if length d.boards == length boards && same_ids (sort_desc (ids d)) boards
    then some d
    else find_description boards ds
