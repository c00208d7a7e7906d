-- ===== src/Workers/EventBuilder/Counts.antt =====
-- How many events are written, and how many spills wait.
use native.Mathlib.Nat.{add-mul-div_right, add-mul-mod_self_right, div-eq_of_lt, mod-eq_of_lt}
use bm_daq.Common.{
  ℕ, ◌+◌, ◌*◌, ◌/◌, ◌%◌, ◌^◌, ◌<◌, ◌≡◌, sym, ap, ◌∙◌, some, List, [], ◌∷◌, ◌++◌, length,
  length-append, arith,
}
use bm_daq.Action.{ok}
use bm_daq.Ufe.{Ufe, UfeLaws}
use bm_daq.MdWord.{MdWord}
use bm_daq.DataLib.Headers.{n_fragments_field}
use bm_daq.DataLib.MemBank.{Bank, field}
use bm_daq.Workers.EventBuilder.{UfeRecorder, State}
use bm_daq.Workers.EventBuilder.Invariant.{Accounts, AllLength, joined_all}
use bm_daq.Workers.EventBuilder.Runs.{Run, Run-Accounts}

length-joined_all :
    (n : ℕ) (events : List (List (List ℕ)))
    → AllLength n events
    → length (joined_all events) ≡ length events * n
length-joined_all n [] a = omega arith
length-joined_all n (e ∷ es) (h, a) =
    omega (arith, h, length-append e (joined_all es), length-joined_all n es a)

-- Quotient and remainder.
quotient : (w q b : ℕ) → w < b → ((w + q * b) / b ≡ q) × ((w + q * b) % b ≡ w)
quotient w q b h = (
  add-mul-div_right w q (omega arith) ∙ omega (arith, div-eq_of_lt h),
  add-mul-mod_self_right w q b ∙ mod-eq_of_lt h,
)

module _ ⦃lib : Ufe⦄ ⦃word : MdWord⦄ (rec : UfeRecorder lib.Container) where
  open lib use {Container}

  Accounts-counts :
      {boards : ℕ} {ps : List (List ℕ)} {k : rec.Recorder} {s : State rec}
      → Accounts rec boards ps k s
      → (s.event_id ≡ length ps / boards % 2 ^ 32)
        × ((o : Bank) × (s.spill_mem_bank ≡ some o)
            × (field n_fragments_field o ≡ length ps % boards))
  Accounts-counts {boards} {ps} a =
      let w : ℕ = length a.waiting in
      let (q, r) =
        quotient w (length a.events) boards
          (omega (arith, a.count_eq, a.ready.few_fragments, a.boards_eq)) in
      let all : length ps ≡ w + length a.events * boards = omega (
        arith,
        ap length a.spills_eq,
        length-append (joined_all a.events) a.waiting,
        length-joined_all boards a.events a.whole,
      ) in
      (
        a.event_id_eq ∙ ap (λ n. n % 2 ^ 32) (sym (ap (λ n. n / boards) all ∙ q)),
        (a.ready.event_bank, a.ready.spill, a.count_eq ∙ sym (ap (λ n. n % boards) all ∙ r)),
      )

  -- With a recorder that does not throw, from an event builder that accounts for the spills `ps`: after a
  -- run in which the spills `qs` are completed, the number of the next event is the number of all these
  -- spills divided by that of the boards (modulo 2^32), and the event's bank counts the remainder.
  pub Run-counts :
      (laws : UfeLaws)
      → ((w : Container) (k : rec.Recorder) → (rec.write w k).0 ≡ ok tt)
      → {boards : ℕ} {ps : List (List ℕ)} {k : rec.Recorder} {s : State rec} {qs : List (List ℕ)}
        {s' : State rec}
      → Accounts rec boards ps k s
      → Run rec s qs s'
      → (s'.event_id ≡ length (ps ++ qs) / boards % 2 ^ 32)
        × ((o : Bank) × (s'.spill_mem_bank ≡ some o)
            × (field n_fragments_field o ≡ length (ps ++ qs) % boards))
  Run-counts laws writes a run = Accounts-counts (Run-Accounts rec laws writes a run)
