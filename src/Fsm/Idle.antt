-- ===== src/Fsm/Idle.antt =====
-- `BMDIdle` (src/BMDStateMachine.cpp).
use bm_daq.Common.{
  ℕ, zero, suc, Bool, true, false, not, none, some, List, [], ◌∷◌, length, ◌==◌, if◌then◌else◌,
}
use bm_daq.Action.{Action, ok, err, fault, pure, gets, modify, ◌>>=◌, ◌>>◌}
use bm_daq.Fsm.{
  FsmState, undefined_s, fatal_error_s, Sign, negative, zero_sign, Led, led_on, led_off,
  DeviceDescription, Daq, DeviceUnit, System, on_error, try_catch, in_world, calls, tell,
  each_device, unless, same_state,
}
use bm_daq.Fsm.Descriptions.{find_description}

-- `status < 0` and `status == 0`
abbrev pub non_negative : Sign → Bool
non_negative negative = false
non_negative _ = true

abbrev pub is_zero : Sign → Bool
is_zero zero_sign = true
is_zero _ = false

module _ ⦃d : Daq⦄ where
  abbrev pub Machine : Type 0
  Machine = System d.World d.Device

  abbrev pub Do : Type 0
  Do = Action Machine (Unit {0})

  abbrev pub done : Do
  done = pure tt

  -- `BMDIdle::setDeviceDescription`, for the devices that the configuration describes
  unfoldable pub set_device_description : List DeviceDescription → Action (DeviceUnit d.Device) Bool
  set_device_description ds u = elim (find_description (d.boards u.device) ds) [
    | some found ↦ (ok true, record u { description = some found })
    | none ↦ (ok false, u)
  ]

  -- What the loop of `whenEnteringStateDo` does with a device.
  abbrev pub set_up : List DeviceDescription → ℕ → Action (DeviceUnit d.Device) Bool
  set_up ds n u =
      let (r, device') = d.device_init (d.set_device n u.device) in
      elim r [
        | ok _ ↦ set_device_description ds (record u { device = device' })
        | err e ↦ (err e, record u { device = device' })
        | fault ↦ (fault, record u { device = device' })
      ]

  -- `devs_.resize(n)`: devices are cut off or new ones added at the end.
  unfoldable pub resize_devs : ℕ → List (DeviceUnit d.Device) → List (DeviceUnit d.Device)
  resize_devs zero us = []
  resize_devs (suc n) [] = record { device = d.new_device; description = none } ∷ resize_devs n []
  resize_devs (suc n) (u ∷ us) = u ∷ resize_devs n us

  abbrev pub ufe_init : Action Machine Sign
  ufe_init = calls d.ufe_init

  abbrev pub load_config : Do
  load_config = in_world d.load_config

  abbrev pub described : Machine → List DeviceDescription
  described s = (d.config s.world).devices

  abbrev pub turn_leds : Led → Action Machine Sign
  turn_leds l = calls (d.on_all_boards l)

  abbrev pub turn_leds_off : Do
  turn_leds_off = turn_leds led_off >>= λ status. unless (is_zero status) fatal_error_s done

  abbrev pub set_up_all : Do
  set_up_all s =
      try_catch (each_device (set_up (described s))) (λ v. on_error v done turn_leds_off)
        (λ good. unless good fatal_error_s turn_leds_off) s

  -- from `ufe_init` on
  abbrev pub open_session : Do
  open_session = do
    status ← ufe_init
    unless (non_negative status) fatal_error_s (do
      n ← calls d.device_list
      unless (not (n == 0)) fatal_error_s (do
        ds ← gets described
        unless (n == length ds) fatal_error_s
            (modify (λ s. record s { devs = resize_devs n s.devs }) >> set_up_all)))

  unfoldable pub when_entering : FsmState → Do
  when_entering old_state =
      if same_state old_state undefined_s
      then try_catch load_config (λ v. on_error v (ufe_init >>= λ _. done) open_session)
          (λ _. open_session)
      else done

  abbrev pub describe_all : Action Machine Bool
  describe_all s = each_device (λ _. set_device_description (described s)) s

  unfoldable pub when_same : Do
  when_same =
      try_catch (load_config >> describe_all) (λ v. on_error v (ufe_init >>= λ _. done) done)
        (λ good. unless good fatal_error_s done)

  -- `if (d.isOpen()) d.close();` for every device
  unfoldable pub close_all : List (DeviceUnit d.Device) → List (DeviceUnit d.Device)
  close_all [] = []
  close_all (u ∷ us) =
      (if d.is_open u.device then record u { device = d.device_close u.device } else u)
      ∷ close_all us

  abbrev pub close_devices : Do
  close_devices = modify (λ s. record s { devs = close_all s.devs })

  unfoldable pub when_leaving : FsmState → Do
  when_leaving new_state =
      if same_state new_state undefined_s
      then (do
        close_devices
        status ← turn_leds led_on
        unless (is_zero status) fatal_error_s
            (tell d.free_device_list >> tell d.ufe_exit >> tell d.update_config_file))
      else done
