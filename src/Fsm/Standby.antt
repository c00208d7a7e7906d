-- ===== src/Fsm/Standby.antt =====
-- `BMDStandby` (src/BMDStateMachine.cpp).
use Prim.Native.String.{String}
use text.Mathlib.Text.{◌==◌}
use bm_daq.Common.{
  ℕ, ◌+◌, Bool, true, false, Option, none, some, List, [], ◌∷◌, ◌++◌, ltb, if◌then◌else◌,
}
use bm_daq.Action.{Action, ok, fault, pure, modify, ◌>>=◌, ◌>>◌}
use bm_daq.Fsm.{
  next_run, seconds, minutes, data_recorded, FsmState, idle_s, failure_s, BoardDescription,
  DeviceDescription, Daq, DeviceUnit, Worker, data_scanner, event_builder, readout, raw_containers,
  scanned_containers, recycled_containers, change_state, on_error, try_catch, in_world, each_device,
  same_state,
}
use bm_daq.Fsm.Idle.{Machine, Do, done}
use bm_daq.Fsm.Faults.{dismiss}

-- `board.isMember(…) && board[…].asString() != ""`
abbrev pub member : Option String → Option String
member none = none
member (some f) = if f == "" then none else some f

abbrev pub max_size : ℕ
max_size = 50

module _ ⦃d : Daq⦄ where
  abbrev pub open_if_closed : Action d.Device (Unit {0})
  open_if_closed v = if d.is_open v then (ok tt, v) else d.device_init v

  -- The body of the loop over a device's boards; `false` where no file is named.
  unfoldable pub configure_board : BoardDescription → Action d.Device Bool
  configure_board b = do
    open_if_closed
    elim (member b.configuration_binary) [
      | some file ↦ do
        d.config_from_binary b.id (d.config_file file)
        d.set_direct_params b.id 0x8280
        pure true
      | none ↦ elim (member b.configuration_josn) [
        | some file ↦ d.config_from_json b.id (d.config_file file) >> pure true
        | none ↦ pure false
      ]
    ]

  unfoldable pub configure_boards : List BoardDescription → Action d.Device Bool
  configure_boards [] = pure true
  configure_boards (b ∷ bs) =
      configure_board b >>= λ go_on. elim go_on [ true ↦ configure_boards bs | false ↦ pure false ]

  -- A device without a description has no boards to configure.
  abbrev pub boards_of : Option DeviceDescription → List BoardDescription
  boards_of none = []
  boards_of (some found) = found.boards

  abbrev pub configure_device : ℕ → Action (DeviceUnit d.Device) Bool
  configure_device n u =
      let (r, v) = configure_boards (boards_of u.description) u.device in
      (r, record u { device = v })

  -- One readout worker for each device.
  unfoldable pub readouts : ℕ → List (DeviceUnit d.Device) → List Worker
  readouts n [] = []
  readouts n (u ∷ us) = readout n recycled_containers raw_containers ∷ readouts (n + 1) us

  -- Workers, FIFOs and the recorder's settings.
  unfoldable pub hire : Do
  hire = modify (λ s.
      let c = d.config s.world in
      record s {
        workers =
            s.workers
            ++ data_scanner raw_containers scanned_containers
              ∷ event_builder scanned_containers recycled_containers
              ∷ readouts 0 s.devs;
        nodes = s.nodes ++ recycled_containers ∷ scanned_containers ∷ raw_containers ∷ [];
        limits =
            (raw_containers, max_size)
            ∷ (scanned_containers, max_size)
            ∷ (recycled_containers, max_size)
            ∷ [];
        recorder = some (c.data_path, c.run_number, c.file_limit);
        stats = ltb 1 c.verbose_level;
      })

  -- The containers for the workers, and the size of the last run's data; `rec_proc_ptr_` is followed.
  unfoldable pub provide : Do
  provide s = elim s.recorder [
    | none ↦ (fault, record s { recycled = s.recycled + max_size })
    | some _ ↦
        (ok tt, record s { recycled = s.recycled + max_size; data_size = d.recorded_size s.world })
  ]

  -- What follows the devices' configuration, inside the `try`.
  abbrev pub initialise : FsmState → Do
  initialise old_state = provide >> in_world (d.standby_entering old_state)

  -- The whole `try` block; `false` where it returns for a board without a file.
  unfoldable pub enter : FsmState → Action Machine Bool
  enter old_state =
      if same_state old_state idle_s
      then (each_device configure_device >>= λ good.
          (if good then hire >> initialise old_state >> pure true else pure false))
      else (initialise old_state >> pure true)

  unfoldable pub when_entering : FsmState → Do
  when_entering old_state =
      try_catch (enter old_state) (λ v. on_error v done done)
        (λ good. if good then done else change_state failure_s)

  -- The last run: `rec_proc_ptr_` is followed first.
  unfoldable pub when_same : Do
  when_same s = elim s.recorder [
    | none ↦ (fault, s)
    | some _ ↦ (
      ok tt,
      record s {
        shown =
            s.shown
            ++ next_run (d.run_number s.world)
              ∷ (if ltb s.run_duration 100 then seconds s.run_duration else minutes s.run_duration)
              ∷ data_recorded s.data_size
              ∷ [];
      },
    )
  ]

  unfoldable pub when_leaving : FsmState → Do
  when_leaving new_state = if same_state new_state idle_s then dismiss else done
