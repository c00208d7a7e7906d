-- ===== src/Workers/Scanner/Positions.antt =====
-- Where the words of a type stand in the data, and the tag of the last trigger.
use bm_daq.Common.{
  ℕ, zero, suc, ◌+◌, ◌*◌, ◌≡◌, ap, Bool, true, false, List, [], ◌∷◌, ◌++◌, if◌then◌else◌,
  Bool-cases, inl, inr, arith,
}
use mathlib.Core.Path.{ap₂}
use native.Mathlib.Nat.{suc-add}
use bm_daq.Common.Bytes.{load}
use bm_daq.MdWord.{MdWord, WordType, trig_header, spill_header, spill_trailer_2}

abbrev pub is_header : WordType → Bool
is_header spill_header = true
is_header _ = false

abbrev pub is_trailer : WordType → Bool
is_trailer spill_trailer_2 = true
is_trailer _ = false

abbrev pub is_trigger : WordType → Bool
is_trigger trig_header = true
is_trigger _ = false

module _ ⦃word : MdWord⦄ where
  -- The byte positions of the words of a type, among `n` words from word `x` on.
  abbrev pub positions : (WordType → Bool) → List ℕ → ℕ → ℕ → List ℕ
  positions test bs zero x = []
  positions test bs (suc n) x =
      if test (word.data_type (load 4 (4 * x) bs))
      then (4 * x) ∷ positions test bs n (x + 1)
      else positions test bs n (x + 1)

  -- The tag of the last trigger header among these words, or the tag before.
  abbrev pub last_tag : List ℕ → ℕ → ℕ → ℕ → ℕ
  last_tag bs zero x tag = tag
  last_tag bs (suc n) x tag = last_tag bs n (x + 1) (
      if is_trigger (word.data_type (load 4 (4 * x) bs))
      then word.trigger_tag (load 4 (4 * x) bs)
      else tag)

  pub positions-add :
      (test : WordType → Bool) (bs : List ℕ) (m n x y : ℕ)
      → y ≡ x + m
      → positions test bs (m + n) x ≡ positions test bs m x ++ positions test bs n y
  positions-add test bs zero n x y e =
      ap₂ (λ k j. positions test bs k j) (omega arith) (omega arith)
  positions-add test bs (suc m) n x y e =
      let rest = positions-add test bs m n (x + 1) y (omega arith) in
      elim (Bool-cases (test (word.data_type (load 4 (4 * x) bs)))) [
        | inl hit ↦ rw (suc-add m n, hit) (ap (λ ps. (4 * x) ∷ ps) rest)
        | inr miss ↦ rw (suc-add m n, miss) rest
      ]

  pub last_tag-add :
      (bs : List ℕ) (m n x y tag : ℕ)
      → y ≡ x + m
      → last_tag bs (m + n) x tag ≡ last_tag bs n y (last_tag bs m x tag)
  last_tag-add bs zero n x y tag e =
      let none_left : zero + n ≡ n = omega arith in
      let same : x ≡ y = omega arith in ap₂ (λ k j. last_tag bs k j tag) none_left same
  last_tag-add bs (suc m) n x y tag e =
      rw (suc-add m n) (last_tag-add bs m n (x + 1) y _ (omega arith))
