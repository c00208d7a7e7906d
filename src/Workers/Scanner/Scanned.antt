-- ===== src/Workers/Scanner/Scanned.antt =====
-- A scanned container is what the fragment builder expects.
use bm_daq.Common.{
  ℕ, zero, suc, ◌+◌, ◌*◌, ◌/◌, ◌^◌, ◌≤◌, ◌<◌, ◌≡◌, refl, ap, ◌∙◌, Bool, true, false, List, [], ◌∷◌,
  ◌++◌, length, Bool-cases, inl, inr, arith,
}
use bm_daq.Common.Bytes.{load}
use bm_daq.Ufe.{Ufe, UfeLaws, size}
use bm_daq.MdWord.{MdWord, WordType, spill_header, spill_trailer_2}
use bm_daq.DataLib.Fragment.Spec.{AllFit, NotAt, Apart, IsScanned}
use bm_daq.Workers.Scanner.{State, process}
use bm_daq.Workers.Scanner.Marks.{Passed}
use bm_daq.Workers.Scanner.Positions.{is_header, is_trailer, positions}
use bm_daq.Workers.Scanner.Passes.{process-marks}

not-trailer : (t : WordType) → is_header t ≡ true → is_trailer t ≡ false
not-trailer spill_header e = refl
not-trailer spill_trailer_2 e = cc
not-trailer _ e = refl

-- A number before all positions of a later word.
Apart-before :
    ⦃word : MdWord⦄ (test : WordType → Bool) (bs ts : List ℕ) (n x y : ℕ)
    → y < x
    → Apart (positions test bs n x) ts
    → Apart (positions test bs n x) (4 * y ∷ ts)
Apart-before test bs ts zero x y h a = tt
Apart-before ⦃word⦄ test bs ts (suc n) x y h a =
    elim (Bool-cases (test (word.data_type (load 4 (4 * x) bs)))) [
      | inl hit ↦
          let (here, later) : NotAt (4 * x) ts × Apart (positions test bs n (x + 1)) ts =
            rw hit at a in
          rw hit ((omega arith, here), Apart-before test bs ts n (x + 1) y (omega arith) later)
      | inr miss ↦
          let later : Apart (positions test bs n (x + 1)) ts = rw miss at a in
          rw miss (Apart-before test bs ts n (x + 1) y (omega arith) later)
    ]

-- Every number is less than all behind it, and so stands once.
abbrev pub AllAbove : ℕ → List ℕ → Type 0
AllAbove p [] = Unit {0}
AllAbove p (q ∷ qs) = (p < q) × AllAbove p qs

abbrev pub IsAscending : List ℕ → Type 0
IsAscending [] = Unit {0}
IsAscending (p ∷ ps) = AllAbove p ps × IsAscending ps

module _ ⦃word : MdWord⦄ (bs : List ℕ) where
  positions-AllAbove :
      (test : WordType → Bool) (n x y : ℕ) → y < x → AllAbove (4 * y) (positions test bs n x)
  positions-AllAbove test zero x y h = tt
  positions-AllAbove test (suc n) x y h =
      let rest = positions-AllAbove test n (x + 1) y (omega arith) in
      elim (Bool-cases (test (word.data_type (load 4 (4 * x) bs)))) [
        | inl hit ↦ rw hit (omega arith, rest)
        | inr miss ↦ rw miss rest
      ]

  positions-IsAscending : (test : WordType → Bool) (n x : ℕ) → IsAscending (positions test bs n x)
  positions-IsAscending test zero x = tt
  positions-IsAscending test (suc n) x =
      let rest = positions-IsAscending test n (x + 1) in
      elim (Bool-cases (test (word.data_type (load 4 (4 * x) bs)))) [
        | inl hit ↦ rw hit (positions-AllAbove test n (x + 1) x (omega arith), rest)
        | inr miss ↦ rw miss rest
      ]

  positions-AllFit :
      (test : WordType → Bool) (k n x : ℕ) → 4 * (x + n) ≤ k → AllFit k (positions test bs n x)
  positions-AllFit test k zero x h = tt
  positions-AllFit test k (suc n) x h =
      let rest = positions-AllFit test k n (x + 1) (omega arith) in
      elim (Bool-cases (test (word.data_type (load 4 (4 * x) bs)))) [
        | inl hit ↦ rw hit (omega arith, omega arith, rest)
        | inr miss ↦ rw miss rest
      ]

  positions-NotAt :
      (test : WordType → Bool) (n x y : ℕ) → y < x → NotAt (4 * y) (positions test bs n x)
  positions-NotAt test zero x y h = tt
  positions-NotAt test (suc n) x y h =
      let rest = positions-NotAt test n (x + 1) y (omega arith) in
      elim (Bool-cases (test (word.data_type (load 4 (4 * x) bs)))) [
        | inl hit ↦ rw hit (omega arith, rest)
        | inr miss ↦ rw miss rest
      ]

  positions-Apart : (n x : ℕ) → Apart (positions is_header bs n x) (positions is_trailer bs n x)
  positions-Apart zero x = tt
  positions-Apart (suc n) x =
      let rest = positions-Apart n (x + 1) in
      let t : WordType = word.data_type (load 4 (4 * x) bs) in
      elim (Bool-cases (is_header t)) [
        | inl hit ↦
            rw (hit, not-trailer t hit) (positions-NotAt is_trailer n (x + 1) x (omega arith), rest)
        | inr miss ↦ elim (Bool-cases (is_trailer t)) [
          | inl found ↦
              rw (miss, found)
                (Apart-before is_header bs (positions is_trailer bs n (x + 1)) n (x + 1) x
                  (omega arith) rest)
          | inr none_here ↦ rw (miss, none_here) rest
        ]
      ]

module _ ⦃lib : Ufe⦄ ⦃word : MdWord⦄ (laws : UfeLaws) where
  -- From a container with empty spill vectors, at least one word and less than 4 GB, the scanner
  -- makes one as the fragment builder relies on: the spill positions are those of whole words within the
  -- data, none is both a header's and a trailer's, and both lists are ascending, so that no position
  -- stands in one twice.
  pub process-IsScanned :
      (s : State)
      → lib.spill_headers s.output ≡ []
      → lib.spill_trailers s.output ≡ []
      → 4 ≤ size s.output
      → size s.output < 2 ^ 32
      → let c = (process s).1.output in
        IsScanned c × IsAscending (lib.spill_headers c) × IsAscending (lib.spill_trailers c)
  process-IsScanned s no_headers no_trailers some_words small =
      let p : Passed (size s.output / 4) 0 (record s { trigger_tag = 0 }) (process s).1 =
        ((process-marks laws s).1 some_words).1 in
      let n : ℕ = size s.output / 4 in
      let bs : List ℕ = lib.bytes s.output in
      let same_size : size (process s).1.output ≡ size s.output = ap length p.bytes_eq in
      let hs : lib.spill_headers (process s).1.output ≡ positions is_header bs n 0 =
        p.headers_eq ∙ ap (λ old. old ++ positions is_header bs n 0) no_headers in
      let ts : lib.spill_trailers (process s).1.output ≡ positions is_trailer bs n 0 =
        p.trailers_eq ∙ ap (λ old. old ++ positions is_trailer bs n 0) no_trailers in
      (
        record {
          small = omega arith;
          headers_fit =
              rw hs (positions-AllFit bs is_header (size (process s).1.output) n 0 (omega arith));
          trailers_fit =
              rw ts (positions-AllFit bs is_trailer (size (process s).1.output) n 0 (omega arith));
          apart = rw (hs, ts) (positions-Apart bs n 0);
        },
        rw hs (positions-IsAscending bs is_header n 0),
        rw ts (positions-IsAscending bs is_trailer n 0),
      )
