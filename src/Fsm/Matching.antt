-- ===== src/Fsm/Matching.antt =====
-- Which description `BMDIdle::setDeviceDescription` (src/BMDStateMachine.cpp) gives to a device.
use mathlib.Core.List.{Memᴰ, Permᴰ}
use bm_daq.Common.{
  ℕ, suc, ◌≡◌, refl, sym, ap, ◌∙◌, subst, Bool, true, false, Option, some, List, [], ◌∷◌, map,
  length, ◌==◌, ◌&&◌, leb, if◌then◌else◌, ◌⊎◌, inl, inr, arith,
}
use bm_daq.Action.{ok}
use bm_daq.Fsm.{BoardDescription, DeviceDescription, Daq, DeviceUnit}
use bm_daq.Fsm.Descriptions.{insert_desc, sort_desc, same_ids, ids, find_description}
use bm_daq.Fsm.Idle.{set_device_description}

perm_refl : (xs : List ℕ) → Permᴰ xs xs
perm_refl [] = Permᴰ.nil
perm_refl (x ∷ xs) = Permᴰ.cons refl (perm_refl xs)

perm_symm : {xs ys : List ℕ} → Permᴰ xs ys → Permᴰ ys xs
perm_symm Permᴰ.nil = Permᴰ.nil
perm_symm (Permᴰ.cons e p) = Permᴰ.cons (sym e) (perm_symm p)
perm_symm (Permᴰ.swap e e') = Permᴰ.swap (sym e') (sym e)
perm_symm (Permᴰ.trans p q) = Permᴰ.trans (perm_symm q) (perm_symm p)

if-Perm :
    (b : Bool) {xs ys zs : List ℕ} → Permᴰ xs zs → Permᴰ ys zs → Permᴰ (if b then xs else ys) zs
if-Perm true p q = p
if-Perm false p q = q

insert_desc-Perm : (a : ℕ) (xs : List ℕ) → Permᴰ (insert_desc a xs) (a ∷ xs)
unfolding insert_desc
insert_desc-Perm a [] = perm_refl (a ∷ [])
insert_desc-Perm a (x ∷ xs) =
    if-Perm (leb x a) (perm_refl (a ∷ x ∷ xs))
      (Permᴰ.trans (Permᴰ.cons refl (insert_desc-Perm a xs)) (Permᴰ.swap refl refl))

sort_desc-Perm : (xs : List ℕ) → Permᴰ (sort_desc xs) xs
unfolding sort_desc
sort_desc-Perm [] = Permᴰ.nil
sort_desc-Perm (x ∷ xs) =
    Permᴰ.trans (insert_desc-Perm x (sort_desc xs)) (Permᴰ.cons refl (sort_desc-Perm xs))

insert_desc_comm :
    (a b : ℕ) (xs : List ℕ) → insert_desc a (insert_desc b xs) ≡ insert_desc b (insert_desc a xs)
unfolding insert_desc
insert_desc_comm a b [] = ground arith
insert_desc_comm a b (x ∷ xs) = ground (arith, insert_desc_comm a b xs)

-- Sorting forgets the order.
sort_desc-eq : {xs ys : List ℕ} → Permᴰ xs ys → sort_desc xs ≡ sort_desc ys
unfolding sort_desc
sort_desc-eq Permᴰ.nil = refl
sort_desc-eq (Permᴰ.cons {l₁ = l₁} {l₂ = l₂} e p) = cc (sort_desc-eq p)
sort_desc-eq (Permᴰ.swap {a = a} {b = b} {l = l} e e') = insert_desc_comm a b (sort_desc l) ∙ cc
sort_desc-eq (Permᴰ.trans p q) = sort_desc-eq p ∙ sort_desc-eq q

length-Perm : {xs ys : List ℕ} → Permᴰ xs ys → length xs ≡ length ys
length-Perm Permᴰ.nil = refl
length-Perm (Permᴰ.cons e p) = ap suc (length-Perm p)
length-Perm (Permᴰ.swap e e') = refl
length-Perm (Permᴰ.trans p q) = length-Perm p ∙ length-Perm q

length-ids : (bs : List BoardDescription) → length (map (λ b. b.id) bs) ≡ length bs
length-ids [] = refl
length-ids (b ∷ bs) = ap suc (length-ids bs)

same_ids-eq : (xs ys : List ℕ) → same_ids xs ys ≡ true → xs ≡ ys
unfolding same_ids
same_ids-eq [] [] h = refl
same_ids-eq [] (y ∷ ys) h = cc
same_ids-eq (x ∷ xs) [] h = cc
same_ids-eq (x ∷ xs) (y ∷ ys) h = ground (arith, same_ids-eq xs ys)

same_ids_refl : (xs : List ℕ) → same_ids xs xs ≡ true
unfolding same_ids
same_ids_refl [] = refl
same_ids_refl (x ∷ xs) = ground (arith, same_ids_refl xs)

-- The test of the loop.
abbrev fits : List ℕ → DeviceDescription → Bool
fits boards d = length d.boards == length boards && same_ids (sort_desc (ids d)) boards

fits-sort :
    (boards : List ℕ) (d : DeviceDescription) → fits boards d ≡ true → sort_desc (ids d) ≡ boards
fits-sort boards d h = same_ids-eq (sort_desc (ids d)) boards (ground arith)

sort-fits :
    (boards : List ℕ) (d : DeviceDescription)
    → sort_desc boards ≡ boards
    → Permᴰ (ids d) boards
    → fits boards d ≡ true
sort-fits boards d sorted p =
    rw (sort_desc-eq p ∙ sorted, same_ids_refl boards)
      (ground (arith, length-ids d.boards, length-Perm p))

if-some :
    {A : Type 0} (b : Bool) (x y : A) (rest : Option A)
    → (if b then some x else rest) ≡ some y
    → ((b ≡ true) × (x ≡ y)) ⊎ (rest ≡ some y)
if-some true x y rest h = inl (refl, cc h)
if-some false x y rest h = inr h

-- A description that is found stands in the configuration, and names the device's boards, each as often
-- as the device has it, in whatever order.
pub found-IsFitting :
    (boards : List ℕ) (ds : List DeviceDescription) (found : DeviceDescription)
    → find_description boards ds ≡ some found
    → Memᴰ found ds × Permᴰ (ids found) boards
unfolding find_description
found-IsFitting boards [] found h = cc
found-IsFitting boards (d ∷ ds) found h =
    elim (if-some (fits boards d) d found (find_description boards ds) h) [
      | inl (t, e) ↦ (
        Memᴰ.head (sym e),
        subst (λ x. Permᴰ (ids x) boards) e
            (subst (λ xs. Permᴰ (ids d) xs) (fits-sort boards d t)
              (perm_symm (sort_desc-Perm (ids d)))),
      )
      | inr r ↦ let (m, p) = found-IsFitting boards ds found r in (Memᴰ.tail m, p)
    ]

found_if :
    {A : Type 0} (b : Bool) (x : A) (rest : Option A)
    → ((y : A) × (rest ≡ some y))
    → (y : A) × ((if b then some x else rest) ≡ some y)
found_if true x rest (y, e) = (x, refl)
found_if false x rest (y, e) = (y, e)

finds :
    (boards : List ℕ) (ds : List DeviceDescription) (d : DeviceDescription)
    → sort_desc boards ≡ boards
    → Memᴰ d ds
    → Permᴰ (ids d) boards
    → (found : DeviceDescription) × (find_description boards ds ≡ some found)
unfolding find_description
finds boards [] d sorted m p = elim m [ ]
finds boards (x ∷ xs) d sorted (Memᴰ.head e) p =
    (x, rw (sort-fits boards x sorted (subst (λ y. Permᴰ (ids y) boards) e p)))
finds boards (x ∷ xs) d sorted (Memᴰ.tail m) p =
    found_if (fits boards x) x (find_description boards xs) (finds boards xs d sorted m p)

-- Where the device lists its boards in descending order, one description that names them, in any order,
-- is enough for `setDeviceDescription` to return true, with a description that names them; the device
-- itself is left as it was.
pub fitting-set :
    ⦃d : Daq⦄ (ds : List DeviceDescription) (descr : DeviceDescription) (u : DeviceUnit d.Device)
    → sort_desc (d.boards u.device) ≡ d.boards u.device
    → Memᴰ descr ds
    → Permᴰ (ids descr) (d.boards u.device)
    → (found : DeviceDescription) × (set_device_description ds u
        ≡ (ok true, record { device = u.device; description = some found }))
      × Permᴰ (ids found) (d.boards u.device)
unfolding set_device_description
fitting-set ⦃d⦄ ds descr u sorted m p =
    let (found, e) = finds (d.boards u.device) ds descr sorted m p in
    (found, rw (e, set_device_description), (found-IsFitting (d.boards u.device) ds found e).1)
