-- ===== src/Fsm.antt =====
-- The states of the data acquisition's state machine (src/BMDStateMachine.h,
-- src/BMDStateMachine.cpp), and the libraries that their actions call.
use Prim.Native.String.{String}
use bm_daq.Common.{
  ℕ, suc, Bool, true, false, Option, none, some, List, [], ◌∷◌, ◌++◌, if◌then◌else◌,
}
use bm_daq.Action.{
  Action, Result, ok, err, fault, UfeError, Severity, serious, fatal, minor, pure, modify, ◌>>=◌,
  ◌>>◌,
}
pub mod Descriptions
pub mod Idle
pub mod Faults
pub mod Active
pub mod Standby
pub mod Handlers
pub mod Requests
pub mod Starting
pub mod Hiring
pub mod Joining
pub mod Closing
pub mod Matching

-- mic11api's `fsm_state_t`.
pub data FsmState : Type 0 where
  undefined_s idle_s standby_s active_s failure_s fatal_error_s : FsmState

-- What an `int` status is compared with 0 for.
pub data Sign : Type 0 where
  negative zero_sign positive : Sign

pub data Led : Type 0 where
  led_on led_off : Led

-- What the code reads of the configuration document (conf/babyMIND-config.json). The two file names
-- of a board are `none` where the member is missing.
pub record BoardDescription : Type 0 where
  pub id : ℕ
  pub configuration_binary : Option String
  pub configuration_josn : Option String

pub record DeviceDescription : Type 0 where
  pub boards : List BoardDescription

pub record Config : Type 0 where
  pub devices : List DeviceDescription
  pub data_path : String
  pub run_number : ℕ
  pub file_limit : ℕ
  pub verbose_level : ℕ

-- libufec, libufecpp and mic11api, as far as the actions use them. `World` is what lies behind them:
-- the USB session, the configuration file, the workers' threads.
pub record Daq : Type 1 where
  pub World : Type 0
  pub Device : Type 0
  -- UFEContext and ufec
  -- the configuration document of the context, which `loadBMConfig` reads from its file
  pub config : World → Config
  pub load_config : Action World (Unit {0})
  -- `updateBMConfig`, with the path of the file and without one
  pub update_config_file : World → World
  pub update_config : World → World
  pub ufe_init : World → Sign × World
  pub device_list : World → ℕ × World
  pub on_all_boards : Led → World → Sign × World
  pub free_device_list : World → World
  pub ufe_exit : World → World
  -- UFEDevice; a new one, for the board at a place in the list of boards
  pub new_device : Device
  pub set_device : ℕ → Device → Device
  pub boards : Device → List ℕ
  pub is_open : Device → Bool
  pub device_init : Action Device (Unit {0})
  pub device_close : Device → Device
  pub device_start : Action Device (Unit {0})
  pub device_stop : Action Device (Unit {0})
  -- a file of the directory UFEAPI_DIR/conf, which the build sets
  pub config_file : String → String
  pub config_from_binary : ℕ → String → Action Device (Unit {0})
  pub set_direct_params : ℕ → ℕ → Action Device (Unit {0})
  pub config_from_json : ℕ → String → Action Device (Unit {0})
  -- the macros GET_TIME and GET_DURATION; a duration in whole seconds
  pub get_time : World → ℕ
  pub get_duration : ℕ → World → ℕ
  -- the recorder's number of the next run
  pub run_number : World → ℕ
  -- the recorder's size of the data of the last run
  pub recorded_size : World → ℕ
  -- the base classes Standby and Active, which initialise, start and stop the workers
  pub standby_entering : FsmState → Action World (Unit {0})
  pub active_entering : FsmState → Action World (Unit {0})
  pub active_leaving : FsmState → Action World (Unit {0})

-- A device with the description that it was given (`device_descr_`).
pub record DeviceUnit (D : Type 0) : Type 0 where
  pub device : D
  pub description : Option DeviceDescription

-- The workers hired: what they do, and the FIFOs that they read and write.
pub data Fifo : Type 0 where
  raw_containers scanned_containers recycled_containers : Fifo

pub data Worker : Type 0 where
  data_scanner : Fifo → Fifo → Worker
  event_builder : Fifo → Fifo → Worker
  readout : ℕ → Fifo → Fifo → Worker

-- What the states print: the number of the next run, of which one less is shown, the duration, as
-- seconds or, from 100 seconds on, as minutes, the data's size, and the statistics of a worker.
pub data Shown : Type 0 where
  next_run : ℕ → Shown
  seconds minutes : ℕ → Shown
  data_recorded : ℕ → Shown
  stats_of : Worker → Shown

pub record System (W D : Type 0) : Type 0 where
  pub world : W
  pub devs : List (DeviceUnit D)
  -- the calls of `changeState`, in order
  pub requested : List FsmState
  pub workers : List Worker
  pub nodes : List Fifo
  -- empty containers that were pushed into the FIFO of recycled containers
  pub recycled : ℕ
  -- the sizes that the FIFOs were limited to
  pub limits : List (Fifo × ℕ)
  -- what `rec_proc_ptr_` points to, with its data path, run number and largest file; `none` where the
  -- pointer is null or the worker was dismissed
  pub recorder : Option (String × ℕ × ℕ)
  pub stats : Bool
  pub data_size : ℕ
  -- `t0_` and `run_duration_` of BMDActive
  pub t0 : ℕ
  pub run_duration : ℕ
  -- what was printed about the last run, and the workers' statistics
  pub shown : List Shown

module _ {W D : Type 0} where
  -- `sm->changeState(st)`
  abbrev pub change_state : FsmState → Action (System W D) (Unit {0})
  change_state st = modify (λ s. record s { requested = s.requested ++ st ∷ [] })

  -- The two `else if`s that follow a `catch`, with what runs before the request for a fatal error,
  -- and what follows where neither level is met.
  abbrev pub on_error :
      Severity
      → Action (System W D) (Unit {0})
      → Action (System W D) (Unit {0})
      → Action (System W D) (Unit {0})
  on_error serious prepare rest = change_state failure_s
  on_error fatal prepare rest = prepare >> change_state fatal_error_s
  on_error minor prepare rest = rest

  -- `try { m } catch (UFEError &e) { … }` and the code behind it.
  abbrev pub try_catch :
      {A : Type 0}
      → Action (System W D) A
      → (Severity → Action (System W D) (Unit {0}))
      → (A → Action (System W D) (Unit {0}))
      → Action (System W D) (Unit {0})
  try_catch m handler rest s =
      let (r, s') = m s in
      elim r [ ok a ↦ rest a s' | err e ↦ handler e.severity s' | fault ↦ (fault, s') ]

  abbrev pub in_world : {A : Type 0} → Action W A → Action (System W D) A
  in_world m s = let (r, w) = m s.world in (r, record s { world = w })

  abbrev pub calls : {A : Type 0} → (W → A × W) → Action (System W D) A
  calls f s = let (a, w) = f s.world in (ok a, record s { world = w })

  abbrev pub tell : (W → W) → Action (System W D) (Unit {0})
  tell f = modify (λ s. record s { world = f s.world })

-- A loop over the devices, which a throw ends, and a body that returns `false` (from the function
-- that the loop stands in).
module _ {D : Type 0} where
  unfoldable pub for_devices :
      (ℕ → Action (DeviceUnit D) Bool) → ℕ → List (DeviceUnit D) → Result Bool × List (DeviceUnit D)
  for_devices f n [] = (ok true, [])
  for_devices f n (d ∷ ds) =
      let (r, d') = f n d in
      let (r', ds') = for_devices f (suc n) ds in
      elim r [
        | ok go_on ↦ if go_on then (r', d' ∷ ds') else (ok false, d' ∷ ds)
        | err e ↦ (err e, d' ∷ ds)
        | fault ↦ (fault, d' ∷ ds)
      ]

  abbrev pub on_device : {A : Type 0} → Action D A → Action (DeviceUnit D) A
  on_device m u = let (r, d) = m u.device in (r, record u { device = d })

abbrev pub each_device :
    {W D : Type 0} → (ℕ → Action (DeviceUnit D) Bool) → Action (System W D) Bool
each_device f s = let (r, ds) = for_devices f 0 s.devs in (r, record s { devs = ds })

-- `changeState(st); return;`
abbrev pub unless :
    {W D : Type 0}
    → Bool
    → FsmState
    → Action (System W D) (Unit {0})
    → Action (System W D) (Unit {0})
unless b st rest = if b then rest else change_state st

abbrev pub same_state : FsmState → FsmState → Bool
same_state undefined_s undefined_s = true
same_state idle_s idle_s = true
same_state standby_s standby_s = true
same_state active_s active_s = true
same_state failure_s failure_s = true
same_state fatal_error_s fatal_error_s = true
same_state _ _ = false
