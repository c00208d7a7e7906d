-- ===== src/Fsm/Faults.antt =====
-- `BMDFailure` and `BMDFatalError` (src/BMDStateMachine.cpp).
use bm_daq.Common.{none, []}
use bm_daq.Action.{modify, ◌>>=◌, ◌>>◌}
use bm_daq.Fsm.{FsmState, led_off, Daq, tell}
use bm_daq.Fsm.Idle.{Do, close_devices, turn_leds}

module _ ⦃d : Daq⦄ where
  -- `dismissWorkers(); dismissNodes();`
  abbrev pub dismiss : Do
  dismiss = modify (λ s. record s { workers = []; nodes = []; recorder = none })

  unfoldable pub when_leaving : FsmState → Do
  when_leaving new_state = dismiss

  unfoldable pub when_entering : FsmState → Do
  when_entering new_state = do
    close_devices
    status ← turn_leds led_off
    tell d.free_device_list
    tell d.ufe_exit
    tell d.update_config
