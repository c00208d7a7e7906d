-- ===== src/Fsm/Starting.antt =====
-- A run of the readout, and devices that cannot be started or stopped (`BMDActive`, src/BMDStateMachine.cpp).
use bm_daq.Common.{ℕ, suc, ◌≡◌, ◌≢◌, refl, ap, ◌∙◌, true, List, [], ◌∷◌, ◌++◌, map, arith}
use bm_daq.Action.{Action, ok, err, UfeError, Severity, serious, fatal, minor}
use bm_daq.Fsm.{FsmState, failure_s, fatal_error_s, Daq, DeviceUnit, for_devices}
use bm_daq.Fsm.Idle.{Machine}
use bm_daq.Fsm.Active as Active
use bm_daq.Fsm.Active.{command}

module _ ⦃d : Daq⦄ where
  module _ (m : Action d.Device (Unit {0})) where
    -- A device after the command.
    abbrev pub commanded : DeviceUnit d.Device → DeviceUnit d.Device
    commanded u = record u { device = (m u.device).1 }

    abbrev pub AllObey : List (DeviceUnit d.Device) → Type 0
    AllObey [] = Unit {0}
    AllObey (u ∷ us) = ((m u.device).0 ≡ ok tt) × AllObey us

    pub for_devices-all :
        (n : ℕ) (us : List (DeviceUnit d.Device))
        → AllObey us
        → for_devices (command m) n us ≡ (ok true, map commanded us)
    unfolding for_devices
    for_devices-all n [] a = refl
    for_devices-all n (u ∷ us) (h, a) = ground (arith, h, for_devices-all (suc n) us a)

    pub for_devices-throws :
        (n : ℕ) (us ws : List (DeviceUnit d.Device)) (v : DeviceUnit d.Device) (e : UfeError)
        → AllObey us
        → (m v.device).0 ≡ err e
        → for_devices (command m) n (us ++ v ∷ ws) ≡ (err e, map commanded us ++ commanded v ∷ ws)
    unfolding for_devices
    for_devices-throws n [] ws v e a h = ground arith
    for_devices-throws n (u ∷ us) ws v e (g, a) h =
        ground (arith, g, for_devices-throws (suc n) us ws v e a h)

  -- How an error of a device shows in the requests, by its severity.
  abbrev pub asked : Severity → List FsmState → List FsmState
  asked serious sts = sts ++ failure_s ∷ []
  asked fatal sts = sts ++ fatal_error_s ∷ []
  asked minor sts = sts

  -- Where some device throws when it is started, those before it in the list have been started, and those
  -- behind it have not been called; a serious or fatal error asks for the failure or the fatal error, and
  -- the workers are not started; an error of another severity asks for nothing, and the workers are
  -- started all the same.
  pub start-throws :
      (st : FsmState) (s : Machine) (us ws : List (DeviceUnit d.Device)) (v : DeviceUnit d.Device)
      (e : UfeError)
      → s.devs ≡ us ++ v ∷ ws
      → AllObey d.device_start us
      → (d.device_start v.device).0 ≡ err e
      → let t = (Active.when_entering st s).1 in
        (t.devs ≡ map (commanded d.device_start) us ++ commanded d.device_start v ∷ ws)
        × (t.requested ≡ asked e.severity s.requested)
        × ((e.severity ≡ minor) → t.world ≡ (d.active_entering st s.world).1)
        × ((e.severity ≢ minor) → t.world ≡ s.world)
  unfolding Active.when_entering
  start-throws st s us ws v e split a h =
      let loop =
        ap (for_devices (command d.device_start) 0) split
        ∙ for_devices-throws d.device_start 0 us ws v e a h in
      ground (arith, loop)

  -- Where the workers stop, and some device throws when it is stopped, those before it in the list have
  -- been stopped, and those behind it have not been called; a serious or fatal error asks for the failure
  -- or the fatal error, and the duration is the one of an earlier run; after an error of another severity
  -- it is the one since the start of this run.
  pub stop-throws :
      (st : FsmState) (s : Machine) (us ws : List (DeviceUnit d.Device)) (v : DeviceUnit d.Device)
      (e : UfeError)
      → (d.active_leaving st s.world).0 ≡ ok tt
      → s.devs ≡ us ++ v ∷ ws
      → AllObey d.device_stop us
      → (d.device_stop v.device).0 ≡ err e
      → let t = (Active.when_leaving st s).1 in
        (t.devs ≡ map (commanded d.device_stop) us ++ commanded d.device_stop v ∷ ws)
        × (t.requested ≡ asked e.severity s.requested)
        × ((e.severity ≡ minor)
            → t.run_duration ≡ d.get_duration s.t0 (d.active_leaving st s.world).1)
        × ((e.severity ≢ minor) → t.run_duration ≡ s.run_duration)
  unfolding Active.when_leaving
  stop-throws st s us ws v e stopped split a h =
      let loop =
        ap (for_devices (command d.device_stop) 0) split
        ∙ for_devices-throws d.device_stop 0 us ws v e a h in
      ground (arith, stopped, loop)

  -- Where the workers start and stop, and every device obeys: from entering the active state to leaving
  -- it, whatever became of the world meanwhile, every device has been started and then stopped, nothing
  -- was asked for, the workers are the same, and the duration is measured from the time of entering.
  pub run-measured :
      (st st' : FsmState) (s : Machine) (w : d.World)
      → AllObey d.device_start s.devs
      → AllObey d.device_stop (map (commanded d.device_start) s.devs)
      → (d.active_entering st s.world).0 ≡ ok tt
      → (d.active_leaving st' w).0 ≡ ok tt
      → let (r, t) = Active.when_entering st s in
        let (r', u) = Active.when_leaving st' (record t { world = w }) in
        (r ≡ ok tt)
        × (r' ≡ ok tt)
        × (u.devs ≡ map (commanded d.device_stop) (map (commanded d.device_start) s.devs))
        × (u.requested ≡ s.requested)
        × (u.workers ≡ s.workers)
        × (u.run_duration ≡ d.get_duration (d.get_time s.world) (d.active_leaving st' w).1)
  unfolding Active.when_entering Active.when_leaving
  run-measured st st' s w start stop entered left =
      let first = for_devices-all d.device_start 0 s.devs start in
      let second = for_devices-all d.device_stop 0 (map (commanded d.device_start) s.devs) stop in
      ground (arith, entered, left, first, second)
