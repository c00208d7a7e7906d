-- ===== src/Fsm/Closing.antt =====
-- How a session ends (src/BMDStateMachine.cpp): `BMDFatalError::whenEnteringStateDo` and
-- `BMDIdle::whenLeavingStateDo`.
use bm_daq.Common.{◌≡◌, refl, Bool, true, false, List, [], ◌∷◌, ◌++◌, map, arith}
use bm_daq.Action.{ok}
use bm_daq.Fsm.{FsmState, undefined_s, fatal_error_s, Daq, DeviceUnit, System, led_off, led_on}
use bm_daq.Fsm.Idle as Idle
use bm_daq.Fsm.Faults as Faults

module _ ⦃d : Daq⦄ where
  abbrev pub open_flags : List (DeviceUnit d.Device) → List Bool
  open_flags us = map (λ u. d.is_open u.device) us

  -- All flags down, one for each device.
  abbrev pub closed_flags : List (DeviceUnit d.Device) → List Bool
  closed_flags us = map (λ _. false) us

  module _ (closes : (v : d.Device) → d.is_open (d.device_close v) ≡ false) where
    open_flags-close_all :
        (us : List (DeviceUnit d.Device)) → open_flags (Idle.close_all us) ≡ closed_flags us
    unfolding Idle.close_all
    open_flags-close_all [] = refl
    open_flags-close_all (u ∷ us) = ground (arith, open_flags-close_all us, closes u.device)

    -- Where closing a device leaves it closed: on a fatal error every device of the list is closed, none
    -- is lost, and then, in this order, the LEDs are turned off, the list of devices is freed, the session
    -- is ended and the configuration saved, whatever the LEDs' status was; no change of state is asked.
    pub fatal_error-closes :
        (st : FsmState) (s : System d.World d.Device)
        → let (r, s') = Faults.when_entering st s in
          (r ≡ ok tt)
          × (open_flags s'.devs ≡ closed_flags s.devs)
          × (s'.world
              ≡ d.update_config
                  (d.ufe_exit (d.free_device_list (d.on_all_boards led_off s.world).1)))
          × (s'.requested ≡ s.requested)
    unfolding Faults.when_entering
    fatal_error-closes st s = (refl, open_flags-close_all s.devs, refl, refl)

    -- Where closing a device leaves it closed: when the program ends in the idle state every device is
    -- closed, and the session is ended and the configuration saved just when the LEDs could be turned on;
    -- otherwise only the LEDs' command was sent, and the fatal error is asked for.
    pub shutdown-closes :
        (s : System d.World d.Device)
        → let (r, s') = Idle.when_leaving undefined_s s in
          let (status, w) = d.on_all_boards led_on s.world in
          (r ≡ ok tt)
          × (open_flags s'.devs ≡ closed_flags s.devs)
          × (Idle.is_zero status ≡ true
              → (s'.world ≡ d.update_config_file (d.ufe_exit (d.free_device_list w)))
                × (s'.requested ≡ s.requested))
          × (Idle.is_zero status ≡ false
              → (s'.world ≡ w) × (s'.requested ≡ s.requested ++ fatal_error_s ∷ []))
    unfolding Idle.when_leaving
    shutdown-closes s = ground (arith, open_flags-close_all s.devs)
