-- ===== src/Fsm/Joining.antt =====
-- How the FIFOs join the workers that standby hires (src/BMDStateMachine.cpp).
use bm_daq.Common.{
  ℕ, ◌+◌, ◌≡◌, refl, Bool, true, false, List, [], ◌∷◌, ◌++◌, length, if◌then◌else◌, arith, ltb,
  ◌==◌, ◌≤◌, ◌<◌, le_or_lt, ap, ◌∙◌, inl, inr,
}
use bm_daq.Action.{ok}
use bm_daq.Fsm.{
  Fifo, raw_containers, scanned_containers, recycled_containers, Worker, data_scanner,
  event_builder, readout, idle_s, Daq, DeviceUnit, System, for_devices, each_device,
}
use bm_daq.Fsm.Standby as Standby
use bm_daq.Fsm.Hiring.{length-for_devices}

abbrev same_fifo : Fifo → Fifo → Bool
same_fifo raw_containers raw_containers = true
same_fifo scanned_containers scanned_containers = true
same_fifo recycled_containers recycled_containers = true
same_fifo _ _ = false

abbrev input : Worker → Fifo
input (data_scanner i o) = i
input (event_builder i o) = i
input (readout n i o) = i

abbrev output : Worker → Fifo
output (data_scanner i o) = o
output (event_builder i o) = o
output (readout n i o) = o

-- How many of the workers read a FIFO, and how many write it.
unfoldable pub readers : Fifo → List Worker → ℕ
readers f [] = 0
readers f (w ∷ ws) = (if same_fifo (input w) f then 1 else 0) + readers f ws

unfoldable pub writers : Fifo → List Worker → ℕ
writers f [] = 0
writers f (w ∷ ws) = (if same_fifo (output w) f then 1 else 0) + writers f ws

-- Every device's worker takes an empty container and gives a full one.
abbrev pub AreReadouts : ℕ → List Worker → Type 0
AreReadouts n ws =
    ((readers recycled_containers ws ≡ n) × (writers raw_containers ws ≡ n))
    × ((readers raw_containers ws ≡ 0) × (readers scanned_containers ws ≡ 0))
    × ((writers scanned_containers ws ≡ 0) × (writers recycled_containers ws ≡ 0))

-- The scanner reads raw data and writes scanned data, the event builder reads these and gives the container
-- back, and a readout takes an empty container and gives a full one.
abbrev pub IsJoined : Worker → Type 0
IsJoined (data_scanner i o) = (i ≡ raw_containers) × (o ≡ scanned_containers)
IsJoined (event_builder i o) = (i ≡ scanned_containers) × (o ≡ recycled_containers)
IsJoined (readout n i o) = (i ≡ recycled_containers) × (o ≡ raw_containers)

abbrev pub AllJoined : List Worker → Type 0
AllJoined [] = Unit {0}
AllJoined (w ∷ ws) = IsJoined w × AllJoined ws

abbrev reads_device : ℕ → Worker → Bool
reads_device k (data_scanner i o) = false
reads_device k (event_builder i o) = false
reads_device k (readout n i o) = n == k

-- How many of the workers read out the device with this place in the list.
unfoldable pub serving : ℕ → List Worker → ℕ
serving k [] = 0
serving k (w ∷ ws) = (if reads_device k w then 1 else 0) + serving k ws

module _ ⦃d : Daq⦄ where
  readouts-AllJoined : (n : ℕ) (us : List (DeviceUnit d.Device)) → AllJoined (Standby.readouts n us)
  unfolding Standby.readouts
  readouts-AllJoined n [] = tt
  readouts-AllJoined n (u ∷ us) = ((refl, refl), readouts-AllJoined (n + 1) us)

  serving-readouts_before :
      (k n : ℕ) (us : List (DeviceUnit d.Device)) → k < n → serving k (Standby.readouts n us) ≡ 0
  unfolding serving Standby.readouts
  serving-readouts_before k n [] h = refl
  serving-readouts_before k n (u ∷ us) h =
      ground (arith, serving-readouts_before k (n + 1) us (omega arith))

  serving-readouts :
      (k n : ℕ) (us : List (DeviceUnit d.Device))
      → n ≤ k
      → serving k (Standby.readouts n us) ≡ (if ltb k (n + length us) then 1 else 0)
  unfolding serving Standby.readouts
  serving-readouts k n [] h = ground arith
  serving-readouts k n (u ∷ us) h = elim (le_or_lt (n + 1) k) [
    | inl later ↦ ground (arith, serving-readouts k (n + 1) us later)
    | inr here ↦ ground (arith, serving-readouts_before k (n + 1) us here)
  ]

  readouts-AreReadouts :
      (n : ℕ) (us : List (DeviceUnit d.Device)) → AreReadouts (length us) (Standby.readouts n us)
  unfolding readers writers Standby.readouts
  readouts-AreReadouts n [] = ((refl, refl), (refl, refl), (refl, refl))
  readouts-AreReadouts n (u ∷ us) = omega (arith, readouts-AreReadouts (n + 1) us)

  standby_workers :
      (s : System d.World d.Device)
      → s.workers ≡ []
      → (each_device Standby.configure_device s).0 ≡ ok true
      → (d.standby_entering idle_s s.world).0 ≡ ok tt
      → let s' = (Standby.when_entering idle_s s).1 in
        (s'.workers
          ≡ data_scanner raw_containers scanned_containers
            ∷ event_builder scanned_containers recycled_containers
            ∷ Standby.readouts 0 (for_devices Standby.configure_device 0 s.devs).1)
        × (s'.nodes ≡ s.nodes ++ recycled_containers ∷ scanned_containers ∷ raw_containers ∷ [])
  unfolding Standby.when_entering Standby.enter Standby.hire Standby.provide
  standby_workers s nobody configured entered = ground (arith, nobody, configured, entered)

  -- Entering standby from the idle state without workers, where every board could be configured and the
  -- base class does not throw: every worker is joined to the FIFOs of its kind, the scanner from the raw
  -- to the scanned data, the event builder from these to the empty containers, and the readouts from those
  -- to the raw data; raw and scanned data have one reader each, scanned data and empty containers one
  -- writer each; every device has exactly one readout, and no other place in the list has one. The state
  -- machine gets these three FIFOs.
  pub standby-joins :
      (s : System d.World d.Device)
      → s.workers ≡ []
      → (each_device Standby.configure_device s).0 ≡ ok true
      → (d.standby_entering idle_s s.world).0 ≡ ok tt
      → let s' = (Standby.when_entering idle_s s).1 in
        ((readers raw_containers s'.workers ≡ 1)
          × (writers raw_containers s'.workers ≡ length s.devs))
        × ((readers scanned_containers s'.workers ≡ 1)
            × (writers scanned_containers s'.workers ≡ 1))
        × ((readers recycled_containers s'.workers ≡ length s.devs)
            × (writers recycled_containers s'.workers ≡ 1))
        × AllJoined s'.workers
        × ((k : ℕ) → serving k s'.workers ≡ (if ltb k (length s.devs) then 1 else 0))
        × (s'.nodes ≡ s.nodes ++ recycled_containers ∷ scanned_containers ∷ raw_containers ∷ [])
  unfolding readers writers serving
  standby-joins s nobody configured entered =
      let devs' = (for_devices Standby.configure_device 0 s.devs).1 in
      let (w, n) = standby_workers s nobody configured entered in
      let same : length devs' ≡ length s.devs =
        length-for_devices Standby.configure_device 0 s.devs in
      let ((r₁, w₁), (r₂, r₃), (w₂, w₃)) = readouts-AreReadouts 0 devs' in
      rw w (
        (omega (arith, r₂), omega (arith, w₁, same)),
        (omega (arith, r₃), omega (arith, w₂)),
        (omega (arith, r₁, same), omega (arith, w₃)),
        ((refl, refl), ((refl, refl), readouts-AllJoined 0 devs')),
        (λ k.
            (omega arith)
            ∙ serving-readouts k 0 devs' (omega arith)
            ∙ ap (λ m. if ltb k m then 1 else 0) (omega (arith, same))),
        n,
      )
