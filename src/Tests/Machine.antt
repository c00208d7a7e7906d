-- ===== src/Tests/Machine.antt =====
-- Concrete libraries for the state machine's actions and for the event builder.
use bm_daq.Common.{ℕ, ◌+◌, Bool, true, false, if◌then◌else◌, none, List, [], ◌∷◌, ◌++◌}
use bm_daq.Action.{ok, err, UfeError, external, serious}
use bm_daq.Fsm.{zero_sign, Led, led_on, Config, DeviceDescription, Daq, DeviceUnit, System}
use bm_daq.Workers.EventBuilder.{UfeRecorder}
use bm_daq.Workers.Readout.{ReadoutDevice}
use bm_daq.Tests.Toy.{Box}

-- The recorder's file.
abbrev pub file_recorder : UfeRecorder Box
file_recorder = record {
  Recorder = List Box;
  init = λ r. (ok tt, []);
  write = λ c r. (ok tt, r ++ c ∷ []);
  close = λ r. r;
}

-- A device that gives its number as the size that it read.
abbrev pub toy_usb : ReadoutDevice Box
toy_usb = record {
  Device = ℕ;
  is_open = λ n. true;
  init = λ n. (ok tt, n);
  status = λ n. 0;
  get_data = λ c n. record { container = c; read_size = n; device = n };
}

pub record Board : Type 0 where
  pub opened : Bool
  pub numbers : List ℕ

abbrev pub no_board : UfeError
no_board = record { reason = external; severity = serious }

pub record Session : Type 0 where
  pub document : Config
  pub led : Led
  pub ended : Bool
  pub saved : ℕ

abbrev pub board_pair : DeviceDescription
board_pair = record {
  boards =
      record { id = 3; configuration_binary = none; configuration_josn = none }
      ∷ record { id = 7; configuration_binary = none; configuration_josn = none }
      ∷ [];
}

abbrev pub document : Config
document = record {
  devices = board_pair ∷ [];
  data_path = "/data";
  run_number = 4;
  file_limit = 100;
  verbose_level = 2;
}

instance abbrev pub toy_daq : Daq
toy_daq = record {
  World = Session;
  Device = Board;
  config = λ w. w.document;
  load_config = λ w. (ok tt, w);
  update_config_file = λ w. record w { saved = w.saved + 1 };
  update_config = λ w. record w { saved = w.saved + 1 };
  ufe_init = λ w. (zero_sign, w);
  device_list = λ w. (1, w);
  on_all_boards = λ l w. (zero_sign, record w { led = l });
  free_device_list = λ w. w;
  ufe_exit = λ w. record w { ended = true };
  new_device = record { opened = false; numbers = 7 ∷ 3 ∷ [] };
  set_device = λ n v. v;
  boards = λ v. v.numbers;
  is_open = λ v. v.opened;
  device_init = λ v. (ok tt, record v { opened = true });
  device_close = λ v. record v { opened = false };
  device_start = λ v. (if v.opened then ok tt else err no_board, v);
  device_stop = λ v. (if v.opened then ok tt else err no_board, v);
  config_file = λ f. f;
  config_from_binary = λ b f v. (ok tt, v);
  set_direct_params = λ b p v. (ok tt, v);
  config_from_json = λ b f v. (ok tt, v);
  get_time = λ w. 0;
  get_duration = λ t w. 7;
  run_number = λ w. w.document.run_number;
  recorded_size = λ w. 0;
  standby_entering = λ st w. (ok tt, w);
  active_entering = λ st w. (ok tt, w);
  active_leaving = λ st w. (ok tt, w);
}

abbrev pub open_unit : DeviceUnit Board
open_unit = record { device = record { opened = true; numbers = 7 ∷ 3 ∷ [] }; description = none }

abbrev pub closed_unit : DeviceUnit Board
closed_unit = record { device = record { opened = false; numbers = 3 ∷ [] }; description = none }

abbrev pub machine : System Session Board
machine = record {
  world = record { document = document; led = led_on; ended = false; saved = 0 };
  devs = open_unit ∷ open_unit ∷ [];
  requested = [];
  workers = [];
  nodes = [];
  recycled = 0;
  limits = [];
  recorder = none;
  stats = false;
  data_size = 0;
  t0 = 0;
  run_duration = 0;
  shown = [];
}
