-- ===== src/Workers/Scanner/Loops.antt =====
-- The loops of BMDDataScanner::process as they are written, with fuel, and that they end.
use bm_daq.Common.{
  ℕ, zero, suc, ◌+◌, ◌-◌, ◌/◌, ◌≤◌, ◌<◌, ◌≡◌, refl, ap, ◌∙◌, true, false, ◌&&◌, Option, none, some,
  ◌==◌, ltb, if◌then◌else◌, arith,
}
use bm_daq.Action.{Result, ok, err, fault, ◌>>=◌}
use bm_daq.Ufe.{Ufe, size}
use bm_daq.MdWord.{MdWord}
use bm_daq.Workers.Status.{ProcStatus, ok_s, error_s, fatal_error_s}
use bm_daq.Workers.Scanner.{
  State, empty_container, print, set_tag, read, read_and_check, find_tag, check_rest, process,
}

-- A call that has not returned yet is `none`.
abbrev pub Ending : Type 0 → Type 0 → Type 0
Ending S A = Option (Result A × S)

abbrev pub and_then : {S A B : Type 0} → Ending S A → (A → S → Ending S B) → Ending S B
and_then none f = none
and_then (some (ok a, s)) f = f a s
and_then (some (err e, s)) f = some (err e, s)
and_then (some (fault, s)) f = some (fault, s)

module _ ⦃lib : Ufe⦄ ⦃word : MdWord⦄ where
  -- `while (trigger_tag_ == 0 && xDw<nDw) { this->read(data, xDw); ++xDw; }`
  unfoldable pub find_tag_while : (fuel nDw xDw : ℕ) → State → Ending State ℕ
  find_tag_while zero n x s = none
  find_tag_while (suc fuel) n x s = elim (s.trigger_tag == 0 && ltb x n) [
    | true ↦ and_then (some (read x s)) (λ _ s'. find_tag_while fuel n (x + 1) s')
    | false ↦ some (ok x, s)
  ]

  -- What the second loop does with the status of a word.
  abbrev continue_if_ok : Ending State ProcStatus → ProcStatus → State → Ending State ProcStatus
  continue_if_ok rest ok_s s = rest
  continue_if_ok rest error_s s = some (ok error_s, s)
  continue_if_ok rest fatal_error_s s = some (ok fatal_error_s, s)

  -- `while (xDw<nDw) { … if (status != OK_s) return status; ++xDw; } return OK_s;`
  unfoldable pub check_while : (fuel nDw xDw : ℕ) → State → Ending State ProcStatus
  check_while zero n x s = none
  check_while (suc fuel) n x s = elim (ltb x n) [
    | true ↦
        and_then (some (read_and_check x s))
          (λ status s'. continue_if_ok (check_while fuel n (x + 1) s') status s')
    | false ↦ some (ok ok_s, s)
  ]

  unfoldable pub process_while : (fuel : ℕ) → State → Ending State ProcStatus
  process_while fuel s =
      let n : ℕ = size s.output / 4 in
      if n == 0
      then some (ok error_s, (print empty_container s).1)
      else and_then (find_tag_while fuel n 0 (set_tag 0 s).1) (λ x s'. check_while fuel n x s')

  find_tag-while :
      (k fuel n x : ℕ) (s : State)
      → x + k ≡ n
      → k < fuel
      → find_tag_while fuel n x s ≡ some (find_tag k x s)
  unfolding find_tag_while find_tag
  find_tag-while k zero n x s e h = absurd (omega arith)
  find_tag-while zero (suc fuel) n x s e h = ground arith
  find_tag-while (suc k) (suc fuel) n x s e h =
      ground (arith, find_tag-while k fuel n (x + 1) (read x s).1)

  check_rest-while :
      (k fuel n x : ℕ) (s : State)
      → x + k ≡ n
      → k < fuel
      → check_while fuel n x s ≡ some (check_rest k x s)
  unfolding check_while check_rest
  check_rest-while k zero n x s e h = absurd (omega arith)
  check_rest-while zero (suc fuel) n x s e h = ground arith
  check_rest-while (suc k) (suc fuel) n x s e h =
      ground (arith, check_rest-while k fuel n (x + 1) (read_and_check x s).1)

  find_tag-le : (k x y : ℕ) (s : State) → (find_tag k x s).0 ≡ ok y → y ≤ x + k
  unfolding find_tag
  find_tag-le zero x y s h = ground arith
  find_tag-le (suc k) x y s h = ground (arith, find_tag-le k (x + 1) y (read x s).1)

  then_check :
      (fuel n : ℕ) (e : Result ℕ × State) (s : State)
      → n < fuel
      → ((x : ℕ) → e.0 ≡ ok x → x ≤ n)
      → and_then (some e) (λ x s'. check_while fuel n x s')
        ≡ some (((λ _. e) >>= λ x. check_rest (n - x) x) s)
  then_check fuel n (ok x, s') s h within =
      let bound = within x refl in check_rest-while (n - x) fuel n x s' (omega arith) (omega arith)
  then_check fuel n (err e, s') s h within = refl
  then_check fuel n (fault, s') s h within = refl

  -- With more fuel than the container has words both loops end by their tests, one after the other or at a
  -- status, and the call is what it is without fuel.
  pub process-ends :
      (fuel : ℕ) (s : State) → size s.output / 4 < fuel → process_while fuel s ≡ some (process s)
  unfolding process_while process
  process-ends fuel s h =
      let n : ℕ = size s.output / 4 in
      let s₀ : State = record s { trigger_tag = 0 } in
      let found = find_tag-while n fuel n 0 s₀ (omega arith) h in
      let checked =
        then_check fuel n (find_tag n 0 s₀) s h (λ x e. omega (arith, find_tag-le n 0 x s₀ e)) in
      let both = ap (λ y. and_then y (λ x s'. check_while fuel n x s')) found ∙ checked in
      ground (arith, both)
