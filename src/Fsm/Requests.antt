-- ===== src/Fsm/Requests.antt =====
-- What the actions of the states (src/BMDStateMachine.cpp) ask of the state machine.
use bm_daq.Common.{◌≡◌, refl, List, [], ◌∷◌, ◌++◌, ◌⊎◌, inl, arith}
use bm_daq.Action.{Action}
use bm_daq.Fsm.{FsmState, idle_s, failure_s, fatal_error_s, Daq, System}
use bm_daq.Fsm.Idle as Idle
use bm_daq.Fsm.Active as Active
use bm_daq.Fsm.Faults as Faults
use bm_daq.Fsm.Standby as Standby
use bm_daq.Fsm.Handlers.{
  Handler, idle_entering, idle_leaving, idle_same, standby_entering, standby_leaving, standby_same,
  active_entering, active_leaving, active_same, failure_leaving, fatal_error_entering, run,
}

-- No request, or one for the failure or the fatal error.
abbrev pub AtMostOne : List FsmState → List FsmState → Type 0
AtMostOne before after =
    (after ≡ before) ⊎ (after ≡ before ++ failure_s ∷ []) ⊎ (after ≡ before ++ fatal_error_s ∷ [])

abbrev pub AsksOnce : {W D A : Type 0} → Action (System W D) A → Type 0
AsksOnce {W} {D} m = (s : System W D) → AtMostOne s.requested (m s).1.requested

module _ ⦃d : Daq⦄ where
  idle_entering-AsksOnce : (st : FsmState) → AsksOnce (Idle.when_entering st)
  unfolding Idle.when_entering
  idle_entering-AsksOnce st s = ground arith

  idle_same-AsksOnce : AsksOnce Idle.when_same
  unfolding Idle.when_same
  idle_same-AsksOnce s = ground arith

  idle_leaving-AsksOnce : (st : FsmState) → AsksOnce (Idle.when_leaving st)
  unfolding Idle.when_leaving
  idle_leaving-AsksOnce st s = ground arith

  standby_entering-AsksOnce : (st : FsmState) → AsksOnce (Standby.when_entering st)
  unfolding Standby.when_entering Standby.enter Standby.hire Standby.provide
  standby_entering-AsksOnce st s = ground arith

  standby_others-AsksOnce :
      (st : FsmState) → AsksOnce Standby.when_same × AsksOnce (Standby.when_leaving st)
  unfolding Standby.when_same Standby.when_leaving
  standby_others-AsksOnce st = (λ s. ground arith, λ s. ground arith)

  active_entering-AsksOnce : (st : FsmState) → AsksOnce (Active.when_entering st)
  unfolding Active.when_entering
  active_entering-AsksOnce st s = ground arith

  active_leaving-AsksOnce : (st : FsmState) → AsksOnce (Active.when_leaving st)
  unfolding Active.when_leaving
  active_leaving-AsksOnce st s = ground arith

  faults-AsksOnce :
      (st : FsmState) → AsksOnce (Faults.when_leaving st) × AsksOnce (Faults.when_entering st)
  unfolding Faults.when_leaving Faults.when_entering
  faults-AsksOnce st = (λ s. inl refl, λ s. inl refl)

  -- Whatever the libraries do, each action that the states declare asks the state machine for no change
  -- of state, for exactly one change to the failure, or for exactly one to the fatal error.
  pub handlers-AskOnce : (h : Handler) → AsksOnce (run h)
  unfolding run
  handlers-AskOnce (idle_entering st) = idle_entering-AsksOnce st
  handlers-AskOnce idle_same = idle_same-AsksOnce
  handlers-AskOnce (idle_leaving st) = idle_leaving-AsksOnce st
  handlers-AskOnce (standby_entering st) = standby_entering-AsksOnce st
  handlers-AskOnce standby_same = (standby_others-AsksOnce idle_s).0
  handlers-AskOnce (standby_leaving st) = (standby_others-AsksOnce st).1
  handlers-AskOnce (active_entering st) = active_entering-AsksOnce st
  handlers-AskOnce active_same = λ s. inl refl
  handlers-AskOnce (active_leaving st) = active_leaving-AsksOnce st
  handlers-AskOnce (failure_leaving st) = (faults-AsksOnce st).0
  handlers-AskOnce (fatal_error_entering st) = (faults-AsksOnce st).1
