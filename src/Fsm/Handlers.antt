-- ===== src/Fsm/Handlers.antt =====
-- The actions that the states declare (src/BMDStateMachine.h). Which ones run, and when, is decided by
-- mic11api's state machine.
use bm_daq.Common.{false, none, []}
use bm_daq.Fsm.{FsmState, Daq}
use bm_daq.Fsm.Idle as Idle
use bm_daq.Fsm.Active as Active
use bm_daq.Fsm.Faults as Faults
use bm_daq.Fsm.Standby as Standby

-- The overrides, with the old or new state that they are called with.
pub data Handler : Type 0 where
  idle_entering idle_leaving : FsmState → Handler
  standby_entering standby_leaving : FsmState → Handler
  active_entering active_leaving : FsmState → Handler
  failure_leaving fatal_error_entering : FsmState → Handler
  idle_same standby_same active_same : Handler

module _ ⦃d : Daq⦄ where
  -- The state at the start of the program: the static members as they are initialised, and no device.
  abbrev pub initial : d.World → Idle.Machine
  initial w = record {
    world = w;
    devs = [];
    requested = [];
    workers = [];
    nodes = [];
    recycled = 0;
    limits = [];
    recorder = none;
    stats = false;
    data_size = 0;
    t0 = 0;
    run_duration = 0;
    shown = [];
  }

  unfoldable pub run : Handler → Idle.Do
  run (idle_entering st) = Idle.when_entering st
  run idle_same = Idle.when_same
  run (idle_leaving st) = Idle.when_leaving st
  run (standby_entering st) = Standby.when_entering st
  run standby_same = Standby.when_same
  run (standby_leaving st) = Standby.when_leaving st
  run (active_entering st) = Active.when_entering st
  run active_same = Idle.done
  run (active_leaving st) = Active.when_leaving st
  run (failure_leaving st) = Faults.when_leaving st
  run (fatal_error_entering st) = Faults.when_entering st
