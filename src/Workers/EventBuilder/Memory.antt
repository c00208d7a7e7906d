-- ===== src/Workers/EventBuilder/Memory.antt =====
-- The memory of the fragment builders' banks, and how much a completed spill takes of it.
use bm_daq.Common.{
  ℕ, ◌+◌, ◌-◌, ◌≤◌, ◌≡◌, subst, Bool, true, false, some, List, [], ◌∷◌, ◌++◌, length, take, drop,
  slice, length-append, length-take, length-drop, ◌==◌, if◌then◌else◌, arith,
}
use bm_daq.Ufe.{Ufe, size}
use bm_daq.MdWord.{MdWord}
use bm_daq.DataLib.MemBank.{Bank}
use bm_daq.DataLib.Fragment.{FragmentBuilder}
use bm_daq.DataLib.Fragment.Spec.{Phase, idle, collecting, emits, checked, absorb}
use bm_daq.DataLib.Fragment.Refines.{Represents}
use bm_daq.Workers.EventBuilder.{Map, find_entry, store}

-- The data that were collected before.
abbrev collected : Phase → ℕ
collected idle = 0
collected (collecting p) = length p

module _ ⦃word : MdWord⦄ where
  checked-emits : (p p' : List ℕ) (q q' : Phase) → checked p q ≡ emits p' q' → p ≡ p'
  checked-emits p p' q q' h = ground arith

  absorb-emits :
      (q : Phase) (c hs ts p : List ℕ) (q' : Phase)
      → absorb q c hs ts ≡ emits p q'
      → length p ≤ collected q + length c
  unfolding absorb
  absorb-emits idle c [] [] p q' h = cc
  absorb-emits idle c [] (t ∷ []) p q' h = cc
  absorb-emits idle c (x ∷ []) [] p q' h = cc
  absorb-emits idle c (x ∷ []) (t ∷ []) p q' h =
      let cut : slice x (t + 4 - x) c ≡ p = ground arith in
      subst (λ l. length l ≤ 0 + length c) cut
        (omega (arith, length-take (t + 4 - x) (drop x c), length-drop x c))
  absorb-emits (collecting d) c [] [] p q' h = cc
  absorb-emits (collecting d) c [] (t ∷ []) p q' h =
      subst (λ l. length l ≤ length d + length c) (checked-emits (d ++ take (t + 4) c) p idle q' h)
        (omega (arith, length-append d (take (t + 4) c), length-take (t + 4) c))
  absorb-emits (collecting d) c (x ∷ []) [] p q' h = cc
  absorb-emits (collecting d) c (x ∷ []) (t ∷ []) p q' h =
      let whole : d ++ take (t + 4) c ≡ p = ground arith in
      subst (λ l. length l ≤ length d + length c) whole
        (omega (arith, length-append d (take (t + 4) c), length-take (t + 4) c))
  absorb-emits idle c (x ∷ y ∷ hs) ts p q' h = cc
  absorb-emits idle c [] (t ∷ u ∷ ts) p q' h = cc
  absorb-emits idle c (x ∷ []) (t ∷ u ∷ ts) p q' h = cc
  absorb-emits (collecting d) c (x ∷ y ∷ hs) ts p q' h = cc
  absorb-emits (collecting d) c [] (t ∷ u ∷ ts) p q' h = cc
  absorb-emits (collecting d) c (x ∷ []) (t ∷ u ∷ ts) p q' h = cc

module _ ⦃lib : Ufe⦄ where
  open lib use {Container, bytes, memsize}

  -- Every bank of a fragment builder has this memory.
  abbrev pub AllSized : ℕ → Map (FragmentBuilder Container) → Type 0
  AllSized limit [] = Unit {0}
  AllSized limit ((k, b) ∷ m) = (memsize b.mem_bank.container ≡ limit) × AllSized limit m

  choose_sized :
      (test : Bool) (limit : ℕ) (m n : Map (FragmentBuilder Container))
      → AllSized limit m
      → AllSized limit n
      → AllSized limit (if test then m else n)
  choose_sized true limit m n a b = a
  choose_sized false limit m n a b = b

  pub find_entry-sized :
      (limit k : ℕ) (m : Map (FragmentBuilder Container)) (b : FragmentBuilder Container)
      → AllSized limit m
      → find_entry k m ≡ some b
      → memsize b.mem_bank.container ≡ limit
  unfolding find_entry
  find_entry-sized limit k [] b a h = cc
  find_entry-sized limit k ((j, c) ∷ m) b (here, later) h =
      ground (arith, here, find_entry-sized limit k m b later)

  pub store-AllSized :
      (limit k : ℕ) (m : Map (FragmentBuilder Container)) (b : FragmentBuilder Container)
      → AllSized limit m
      → memsize b.mem_bank.container ≡ limit
      → AllSized limit (store k b m)
  unfolding store
  store-AllSized limit k [] b a h = (h, tt)
  store-AllSized limit k ((j, c) ∷ m) b (here, later) h =
      choose_sized (j == k) limit ((k, b) ∷ m) ((j, c) ∷ store k b m) (h, later)
        (here, store-AllSized limit k m b later h)

  -- A spill that a container completes had room in its bank, with the header.
  pub emits-fits :
      ⦃word : MdWord⦄ (q q' : Phase) (b : Bank) (c : Container) (hs ts p : List ℕ)
      → Represents q b
      → absorb q (bytes c) hs ts ≡ emits p q'
      → size b.container + size c ≤ memsize b.container
      → 8 + length p ≤ memsize b.container
  emits-fits idle q' b c hs ts p r e room =
      omega (arith, r.size_eq, room, absorb-emits idle (bytes c) hs ts p q' e)
  emits-fits (collecting d) q' b c hs ts p r e room =
      omega (arith, r.size_eq, room, absorb-emits (collecting d) (bytes c) hs ts p q' e)
