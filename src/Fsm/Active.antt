-- ===== src/Fsm/Active.antt =====
-- `BMDActive` (src/BMDStateMachine.cpp), with the clock as a parameter.
use bm_daq.Common.{ℕ, Bool, true, ◌++◌, map, ltb, if◌then◌else◌}
use bm_daq.Action.{Action, pure, modify, ◌>>=◌, ◌>>◌}
use bm_daq.Fsm.{
  FsmState, Daq, DeviceUnit, stats_of, on_error, try_catch, in_world, each_device, on_device,
}
use bm_daq.Fsm.Idle.{Do, done}

module _ ⦃d : Daq⦄ where
  abbrev pub command : Action d.Device (Unit {0}) → ℕ → Action (DeviceUnit d.Device) Bool
  command m n = on_device m >>= λ _. pure true

  unfoldable pub when_entering : FsmState → Do
  when_entering old_state = do
    modify (λ s. record s { t0 = d.get_time s.world })
    try_catch (each_device (command d.device_start))
        (λ v. on_error v done (in_world (d.active_entering old_state)))
        (λ _. in_world (d.active_entering old_state))

  -- The duration of the run, and the statistics of all workers where they are asked for.
  abbrev pub finish_run : Do
  finish_run = modify (λ s. record s {
    run_duration = d.get_duration s.t0 s.world;
    shown =
        if ltb 1 (d.config s.world).verbose_level
        then s.shown ++ map stats_of s.workers
        else s.shown;
  })

  unfoldable pub when_leaving : FsmState → Do
  when_leaving new_state =
      in_world (d.active_leaving new_state)
      >> try_catch (each_device (command d.device_stop)) (λ v. on_error v done finish_run)
          (λ _. finish_run)
