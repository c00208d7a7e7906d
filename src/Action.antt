-- ===== src/Action.antt =====
-- The C++ code as state passing: what a call returns, throws or runs into, and the state it leaves.
use bm_daq.Common.{◌≡◌, Bool, if◌then◌else◌}

-- The levels that the code tells apart by `getSeverity` (any other level falls through).
pub data Severity : Type 0 where
  serious fatal minor : Severity

-- What a `UFEError` of this code reports; `external` stands for one thrown by a library.
pub data Reason : Type 0 where
  wrong_board_id multiple_spills inconsistent_data spill_data_mismatch external : Reason

pub record UfeError : Type 0 where
  pub reason : Reason
  pub severity : Severity

-- `fault` is undefined behaviour: a null or dangling pointer, or an index out of range.
pub data Result (A : Type 0) : Type 0 where
  ok : A → Result A
  err : UfeError → Result A
  fault : Result A

-- A method of an object: the state comes back after a throw too, with what was written before it.
abbrev pub Action : Type 0 → Type 0 → Type 0
Action S A = S → Result A × S

module _ {S A : Type 0} where
  abbrev pub pure : A → Action S A
  pure a s = (ok a, s)

  abbrev pub throw : Reason → Severity → Action S A
  throw r v s = (err (record { reason = r; severity = v }), s)

  abbrev pub crash : Action S A
  crash s = (fault, s)

  abbrev pub gets : (S → A) → Action S A
  gets f s = (ok (f s), s)

infixl 5 ◌>>=◌ ◌>>◌
abbrev pub ◌>>=◌ : {S A B : Type 0} → Action S A → (A → Action S B) → Action S B
◌>>=◌ m f s =
    let (r, s') = m s in elim r [ ok a ↦ f a s' | err e ↦ (err e, s') | fault ↦ (fault, s') ]

abbrev pub ◌>>◌ : {S B : Type 0} → Action S (Unit {0}) → Action S B → Action S B
m >> k = m >>= λ _. k

abbrev pub modify : {S : Type 0} → (S → S) → Action S (Unit {0})
modify f s = (ok tt, f s)

-- `if (b) throw …;`
abbrev pub throw_if : {S : Type 0} → Bool → Reason → Severity → Action S (Unit {0})
throw_if b r v s = (if b then err (record { reason = r; severity = v }) else ok tt, s)

-- A call on a part of the state.
abbrev pub zoom : {S T A : Type 0} → (S → T) → (T → S → S) → Action T A → Action S A
zoom get put m s = let (r, t) = m (get s) in (r, put t s)

-- A step that returns is followed by the rest, in the state that it leaves.
pub >>-eq :
    {S B : Type 0} (m : Action S (Unit {0})) (k : Action S B) (s : S)
    → (m s).0 ≡ ok tt
    → (m >> k) s ≡ k (m s).1
>>-eq m k s e = rw (e, ◌>>=◌)

pub >>=-eq :
    {S A B : Type 0} (m : Action S A) (k : A → Action S B) (s : S) (a : A)
    → (m s).0 ≡ ok a
    → (m >>= k) s ≡ k a (m s).1
>>=-eq m k s a e = rw (e, ◌>>=◌)
