-- ===== src/Fsm/Hiring.antt =====
-- What entering standby does (`BMDStandby::whenEnteringStateDo`, src/BMDStateMachine.cpp).
use bm_daq.Common.{
  ℕ, suc, ◌+◌, ◌≡◌, refl, ap, Bool, true, false, none, some, List, [], ◌∷◌, length, length-append,
  arith,
}
use bm_daq.Action.{Action, ok, fault}
use bm_daq.Fsm.{
  Worker, data_scanner, event_builder, raw_containers, scanned_containers, recycled_containers,
  FsmState, idle_s, Daq, DeviceUnit, System, for_devices, each_device, same_state,
}
use bm_daq.Fsm.Standby as Standby

module _ ⦃d : Daq⦄ where
  length-readouts :
      (n : ℕ) (us : List (DeviceUnit d.Device)) → length (Standby.readouts n us) ≡ length us
  unfolding Standby.readouts
  length-readouts n [] = refl
  length-readouts n (u ∷ us) = ap suc (length-readouts (n + 1) us)

  pub length-for_devices :
      {D : Type 0} (f : ℕ → Action (DeviceUnit D) Bool) (n : ℕ) (us : List (DeviceUnit D))
      → length (for_devices f n us).1 ≡ length us
  unfolding for_devices
  length-for_devices f n [] = refl
  length-for_devices f n (u ∷ us) = ground (arith, length-for_devices f (suc n) us)

  module _ (s : System d.World d.Device) where
    -- Entering standby from the idle state, where every board could be configured and the base class
    -- does not throw: two workers more than there are devices are hired, 50 containers are provided, the
    -- recorder has the settings of the configuration, and no change of state is asked.
    pub standby-hires :
        (each_device Standby.configure_device s).0 ≡ ok true
        → (d.standby_entering idle_s s.world).0 ≡ ok tt
        → let (r, s') = Standby.when_entering idle_s s in
          let c = d.config s.world in
          (r ≡ ok tt)
          × (length s'.workers ≡ length s.workers + 2 + length s.devs)
          × (s'.recycled ≡ s.recycled + 50)
          × (s'.recorder ≡ some (c.data_path, c.run_number, c.file_limit))
          × (s'.requested ≡ s.requested)
    unfolding Standby.when_entering Standby.enter Standby.hire Standby.provide
    standby-hires configured entered =
        let devs' = (for_devices Standby.configure_device 0 s.devs).1 in
        let hired : List Worker =
          data_scanner raw_containers scanned_containers
          ∷ event_builder scanned_containers recycled_containers
          ∷ Standby.readouts 0 devs' in
        ground (
          arith,
          configured,
          entered,
          length-append s.workers hired,
          length-readouts 0 devs',
          length-for_devices Standby.configure_device 0 s.devs,
        )

    -- Entering standby from another state needs the recorder of an earlier time in standby: where no
    -- workers were hired, or they were dismissed, the code follows a null or dangling pointer.
    standby-needs_recorder :
        (st : FsmState)
        → same_state st idle_s ≡ false
        → s.recorder ≡ none
        → (Standby.when_entering st s).0 ≡ fault
    unfolding Standby.when_entering Standby.enter Standby.provide
    standby-needs_recorder st other nobody = ground arith
