-- ===== src/Tests/States.antt =====
-- The theorems on the state machine's actions, and on the devices' descriptions, at concrete inputs.
use mathlib.Core.List.{Memᴰ, Permᴰ}
use bm_daq.Common.{
  ℕ, ltb, if◌then◌else◌, none, length, map, ◌≡◌, ◌≢◌, refl, true, false, some, [], ◌∷◌, ◌++◌,
}
use bm_daq.Action.{ok, minor}
use bm_daq.Fsm.{
  standby_s, System, for_devices, undefined_s, fatal_error_s, idle_s, led_on, led_off,
  DeviceDescription,
}
use bm_daq.Fsm.Descriptions.{insert_desc, sort_desc, same_ids, ids, find_description}
use bm_daq.Fsm.Idle as Idle
use bm_daq.Fsm.Idle.{set_device_description}
use bm_daq.Fsm.Active as Active
use bm_daq.Fsm.Standby as Standby
use bm_daq.Fsm.Faults as Faults
use bm_daq.Fsm.Handlers.{run, standby_entering}
use bm_daq.Fsm.Requests.{AsksOnce, handlers-AskOnce}
use bm_daq.Fsm.Starting.{commanded, asked, start-throws, stop-throws, run-measured}
use bm_daq.Fsm.Closing.{open_flags, closed_flags, fatal_error-closes, shutdown-closes}
use bm_daq.Fsm.Joining.{AllJoined, serving, readers, writers, standby-joins}
use bm_daq.Fsm.{raw_containers, scanned_containers, recycled_containers}
use bm_daq.Fsm.Hiring.{standby-hires}
use bm_daq.Fsm.Matching.{found-IsFitting, fitting-set}
use bm_daq.Tests.Machine.{
  Board, Session, toy_daq, board_pair, open_unit, closed_unit, no_board, machine, document,
}

handlers-AskOnce_example : AsksOnce (run (standby_entering idle_s))
handlers-AskOnce_example = handlers-AskOnce (standby_entering idle_s)

fatal_error-closes_example :
    let (r, s') = Faults.when_entering idle_s machine in
    (r ≡ ok tt)
    × (open_flags s'.devs ≡ closed_flags machine.devs)
    × (s'.world
        ≡ toy_daq.update_config (
            toy_daq.ufe_exit
              (toy_daq.free_device_list (toy_daq.on_all_boards led_off machine.world).1)))
    × (s'.requested ≡ machine.requested)
fatal_error-closes_example = fatal_error-closes (λ v. refl) idle_s machine

found-IsFitting_example : Memᴰ board_pair (document.devices) × Permᴰ (ids board_pair) (7 ∷ 3 ∷ [])
unfolding find_description sort_desc insert_desc same_ids
found-IsFitting_example = found-IsFitting (7 ∷ 3 ∷ []) (document.devices) board_pair refl

shutdown-closes_example :
    let (r, s') = Idle.when_leaving undefined_s machine in
    let (status, w) = toy_daq.on_all_boards led_on machine.world in
    (r ≡ ok tt)
    × (open_flags s'.devs ≡ closed_flags machine.devs)
    × (Idle.is_zero status ≡ true
        → (s'.world ≡ toy_daq.update_config_file (toy_daq.ufe_exit (toy_daq.free_device_list w)))
          × (s'.requested ≡ machine.requested))
    × (Idle.is_zero status ≡ false
        → (s'.world ≡ w) × (s'.requested ≡ machine.requested ++ fatal_error_s ∷ []))
shutdown-closes_example = shutdown-closes (λ v. refl) machine

fitting-set_example :
    (found : DeviceDescription) × (set_device_description (document.devices) open_unit
      ≡ (ok true, record { device = open_unit.device; description = some found }))
    × Permᴰ (ids found) (7 ∷ 3 ∷ [])
unfolding sort_desc insert_desc
fitting-set_example =
    fitting-set (document.devices) board_pair open_unit refl (Memᴰ.head refl) (Permᴰ.swap refl refl)

-- A device with a board that is configured from a JSON file.
abbrev ready : System Session Board
ready = record machine {
  devs =
      record {
        device = record { opened = true; numbers = 3 ∷ [] };
        description = some (record {
          boards =
              record { id = 3; configuration_binary = none; configuration_josn = some "b3.json" }
              ∷ [];
        });
      }
      ∷ [];
}

standby-hires_example :
    let (r, s') = Standby.when_entering idle_s ready in
    (r ≡ ok tt)
    × (length s'.workers ≡ 3)
    × (s'.recycled ≡ 50)
    × (s'.recorder ≡ some ("/data", 4, 100))
    × (s'.requested ≡ [])
unfolding for_devices Standby.configure_boards Standby.configure_board
standby-hires_example = standby-hires ready refl refl

-- The second of three devices cannot be started.
abbrev broken : System Session Board
broken = record machine { devs = open_unit ∷ closed_unit ∷ open_unit ∷ [] }

start-throws_example :
    let t = (Active.when_entering standby_s broken).1 in
    (t.devs
      ≡ map (commanded toy_daq.device_start) (open_unit ∷ [])
        ++ commanded toy_daq.device_start closed_unit ∷ open_unit ∷ [])
    × (t.requested ≡ asked no_board.severity broken.requested)
    × ((no_board.severity ≡ minor) → t.world ≡ (toy_daq.active_entering standby_s broken.world).1)
    × ((no_board.severity ≢ minor) → t.world ≡ broken.world)
start-throws_example =
    start-throws standby_s broken (open_unit ∷ []) (open_unit ∷ []) closed_unit no_board refl
      (refl, tt) refl

stop-throws_example :
    let t = (Active.when_leaving standby_s broken).1 in
    (t.devs
      ≡ map (commanded toy_daq.device_stop) (open_unit ∷ [])
        ++ commanded toy_daq.device_stop closed_unit ∷ open_unit ∷ [])
    × (t.requested ≡ asked no_board.severity broken.requested)
    × ((no_board.severity ≡ minor)
        → t.run_duration
          ≡ toy_daq.get_duration broken.t0 (toy_daq.active_leaving standby_s broken.world).1)
    × ((no_board.severity ≢ minor) → t.run_duration ≡ broken.run_duration)
stop-throws_example =
    stop-throws standby_s broken (open_unit ∷ []) (open_unit ∷ []) closed_unit no_board refl refl
      (refl, tt) refl

run-measured_example :
    let (r, t) = Active.when_entering standby_s machine in
    let (r', u) = Active.when_leaving standby_s (record t { world = machine.world }) in
    (r ≡ ok tt)
    × (r' ≡ ok tt)
    × (u.devs
        ≡ map (commanded toy_daq.device_stop) (map (commanded toy_daq.device_start) machine.devs))
    × (u.requested ≡ machine.requested)
    × (u.workers ≡ machine.workers)
    × (u.run_duration
        ≡ toy_daq.get_duration
            (toy_daq.get_time machine.world)
            (toy_daq.active_leaving standby_s machine.world).1)
run-measured_example =
    run-measured standby_s standby_s machine (machine.world) (refl, (refl, tt)) (refl, (refl, tt))
      refl refl

standby-joins_example :
    let s' = (Standby.when_entering idle_s ready).1 in
    ((readers raw_containers s'.workers ≡ 1)
      × (writers raw_containers s'.workers ≡ length ready.devs))
    × ((readers scanned_containers s'.workers ≡ 1) × (writers scanned_containers s'.workers ≡ 1))
    × ((readers recycled_containers s'.workers ≡ length ready.devs)
        × (writers recycled_containers s'.workers ≡ 1))
    × AllJoined s'.workers
    × ((k : ℕ) → serving k s'.workers ≡ (if ltb k 1 then 1 else 0))
    × (s'.nodes ≡ ready.nodes ++ recycled_containers ∷ scanned_containers ∷ raw_containers ∷ [])
unfolding for_devices Standby.configure_boards Standby.configure_board
standby-joins_example = standby-joins ready refl refl refl
