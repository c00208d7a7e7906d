-- ===== src/Workers/Scanner/Passes.antt =====
-- The two loops of the scanner, and what the container looks like after them.
use bm_daq.Common.{
  ℕ, zero, suc, ◌+◌, ◌-◌, ◌*◌, ◌/◌, ◌≤◌, ◌<◌, ◌≡◌, refl, sym, ap, ◌∙◌, true, false, [], ◌∷◌, ◌++◌,
  length, Bool-cases, inl, inr, ◌==◌, subst, arith,
}
use native.Mathlib.Nat.{add-zero}
use bm_daq.Action.{ok, >>=-eq}
use bm_daq.Ufe.{Ufe, UfeLaws, size}
use bm_daq.MdWord.{MdWord}
use bm_daq.Workers.Status.{ok_s, error_s}
use bm_daq.Workers.Scanner.{
  State, empty_container, read, find_tag, read_and_check, check_rest, process,
}
use bm_daq.Workers.Scanner.Marks.{
  Passed, Passed-zero, Passed-add, read-Passed, read_and_check-Passed,
}

module _ ⦃lib : Ufe⦄ ⦃word : MdWord⦄ (laws : UfeLaws) where
  open lib use {bytes, spill_headers, spill_trailers}

  find_tag-set :
      (n x : ℕ) (s : State) → (s.trigger_tag == 0) ≡ false → find_tag (suc n) x s ≡ (ok x, s)
  unfolding find_tag
  find_tag-set n x s set = ground arith

  find_tag-unset :
      (n x : ℕ) (s : State)
      → (s.trigger_tag == 0) ≡ true
      → (read x s).0 ≡ ok tt
      → find_tag (suc n) x s ≡ find_tag n (x + 1) (read x s).1
  unfolding find_tag
  find_tag-unset n x s unset done = ground arith

  check_rest-step :
      (n x : ℕ) (s : State)
      → (read_and_check x s).0 ≡ ok ok_s
      → check_rest (suc n) x s ≡ check_rest n (x + 1) (read_and_check x s).1
  unfolding check_rest
  check_rest-step n x s done = ground arith

  find_tag-Passed :
      (n x : ℕ) (s : State)
      → 4 * (x + n) ≤ size s.output
      → (m : ℕ) × (m ≤ n) × ((find_tag n x s).0 ≡ ok (x + m)) × Passed m x s (find_tag n x s).1
  unfolding find_tag
  find_tag-Passed zero x s h = (0, omega arith, ap ok (sym (add-zero x)), Passed-zero x s)
  find_tag-Passed (suc n) x s h = elim (Bool-cases (s.trigger_tag == 0)) [
    | inl unset ↦
        let (done, one) = read-Passed laws x s (omega arith) in
        let s' : State = (read x s).1 in
        let (m, le, found, rest) =
          find_tag-Passed n (x + 1) s' (omega (arith, ap length one.bytes_eq)) in
        rw (find_tag-unset n x s unset done) (
          suc m,
          omega arith,
          found ∙ ap ok (omega arith),
          subst (λ k. Passed k x s (find_tag n (x + 1) s').1) (omega arith)
              (Passed-add 1 m x (x + 1) s s' _ refl one rest),
        )
    | inr set ↦
        rw (find_tag-set n x s set) (0, omega arith, ap ok (sym (add-zero x)), Passed-zero x s)
  ]

  check_rest-Passed :
      (n x : ℕ) (s : State)
      → 4 * (x + n) ≤ size s.output
      → ((check_rest n x s).0 ≡ ok ok_s) × Passed n x s (check_rest n x s).1
  unfolding check_rest
  check_rest-Passed zero x s h = (refl, Passed-zero x s)
  check_rest-Passed (suc n) x s h =
      let (done, one) = read_and_check-Passed laws x s (omega arith) in
      let s' : State = (read_and_check x s).1 in
      let (ended, rest) = check_rest-Passed n (x + 1) s' (omega (arith, ap length one.bytes_eq)) in
      rw (check_rest-step n x s done) (
        ended,
        subst (λ k. Passed k x s (check_rest n (x + 1) s').1) (omega arith)
            (Passed-add 1 n x (x + 1) s s' _ refl one rest),
      )

  -- A container with at least one word is scanned to its end: the scan returns and reports success,
  -- the data are as they were, the positions of the spill headers and of the spill trailers are
  -- added in order, and the trigger tag is that of the last trigger header. A container with no
  -- word is reported, and nothing else is changed.
  pub process-marks :
      (s : State)
      → ((size s.output < 4)
          → process s ≡ (ok error_s, record s { printed = s.printed ++ empty_container ∷ [] }))
        × (4 ≤ size s.output
            → ((process s).0 ≡ ok ok_s)
              × Passed (size s.output / 4) 0 (record s { trigger_tag = 0 }) (process s).1)
  unfolding process
  process-marks s = (λ short. ground arith, long)
    where
      long :
          4 ≤ size s.output
          → ((process s).0 ≡ ok ok_s)
            × Passed (size s.output / 4) 0 (record s { trigger_tag = 0 }) (process s).1
      long h =
          let n : ℕ = size s.output / 4 in
          let s₀ : State = record s { trigger_tag = 0 } in
          let (m, le, found, first) = find_tag-Passed n 0 s₀ (omega arith) in
          let s₁ : State = (find_tag n 0 s₀).1 in
          let (ended, rest) =
            check_rest-Passed (n - (0 + m)) (0 + m) s₁ (omega (arith, ap length first.bytes_eq)) in
          let some_words : (n == 0) ≡ false = ground arith in
          rw (some_words, >>=-eq (find_tag n 0) (λ x. check_rest (n - x) x) s₀ (0 + m) found)
            (
              ended,
              subst (λ k. Passed k 0 s₀ (check_rest (n - (0 + m)) (0 + m) s₁).1) (omega arith)
                  (Passed-add m (n - (0 + m)) 0 (0 + m) s₀ s₁ _ refl first rest),
            )
