-- ===== src/Control/Gui.antt =====
-- MainWindow (src/BMDGui.h, src/BMDGui.cpp): four buttons that send commands, as far as it is not Qt's.
use Prim.Native.String.{String}
use bm_daq.Common.{
  ℕ, ◌+◌, Bool, false, Option, none, some, List, [], ◌∷◌, ◌++◌, ◌==◌, if◌then◌else◌,
}
use bm_daq.Common.Bytes.{bytes_of}

-- The buttons, and the event that the window is closed.
pub data Input : Type 0 where
  on_button off_button start_button stop_button close_window : Input

-- ZeroMQ's publisher socket: `bound` is a new one after `zmq_bind`, whose result the code drops; `zmq_send` gives the number of bytes sent, or `none` for -1.
pub record Publisher : Type 1 where
  pub Socket : Type 0
  pub bound : String → Socket
  pub send : List ℕ → Socket → Option ℕ × Socket

module _ (zmq : Publisher) where
  -- `queued` holds the messages that `zmq_send` took, `sent` what the comparison with its result said at
  -- each call, and `close_calls` counts the calls of `QWidget::close` that the code makes.
  pub record MainWindow : Type 0 where
    pub publisher_socket : zmq.Socket
    pub queued : List (List ℕ)
    pub sent : List Bool
    pub close_calls : ℕ

  -- The window as the constructor leaves it, apart from the widgets.
  abbrev pub new_window : MainWindow
  new_window = record {
    publisher_socket = zmq.bound "tcp://*:6120";
    queued = [];
    sent = [];
    close_calls = 0;
  }

  -- `rc != sizeof(command)`
  abbrev pub is_sent : Option ℕ → Bool
  is_sent none = false
  is_sent (some n) = n == 4

  -- The call of `zmq_send`, and what the comparison says; an `int` is sent as its four bytes, lowest first.
  unfoldable pub try_send : ℕ → MainWindow → Bool × MainWindow
  try_send command w =
      let (rc, socket) = zmq.send (bytes_of 4 command) w.publisher_socket in
      (
        is_sent rc,
        record {
          publisher_socket = socket;
          queued = if is_sent rc then w.queued ++ bytes_of 4 command ∷ [] else w.queued;
          sent = w.sent ++ is_sent rc ∷ [];
          close_calls = w.close_calls;
        },
      )

  abbrev pub count_close : MainWindow → MainWindow
  count_close w = record w { close_calls = w.close_calls + 1 }

  -- `sendCommand` while Qt closes the window: there `close` returns at once.
  unfoldable pub send_closing : ℕ → MainWindow → MainWindow
  send_closing command w =
      let (good, w') = try_send command w in if good then w' else count_close w'

  -- `closeEvent`, which Qt calls while it closes the window.
  unfoldable pub close_event : MainWindow → MainWindow
  close_event = send_closing 5

  -- `sendCommand` otherwise: `close` calls `closeEvent` before it returns.
  unfoldable pub send_command : ℕ → MainWindow → MainWindow
  send_command command w =
      let (good, w') = try_send command w in
      let closed = close_event (count_close w') in if good then w' else closed

  unfoldable pub handle_on : MainWindow → MainWindow
  handle_on = send_command 1

  unfoldable pub hendle_off : MainWindow → MainWindow
  hendle_off = send_command 4

  unfoldable pub handle_start : MainWindow → MainWindow
  handle_start = send_command 2

  unfoldable pub hendle_stop : MainWindow → MainWindow
  hendle_stop = send_command 3

  -- The connections that the constructor makes.
  unfoldable pub handle : Input → MainWindow → MainWindow
  handle on_button = handle_on
  handle off_button = hendle_off
  handle start_button = handle_start
  handle stop_button = hendle_stop
  handle close_window = close_event

  -- Inputs in order.
  unfoldable pub handle_all : List Input → MainWindow → MainWindow
  handle_all [] w = w
  handle_all (i ∷ is) w = handle_all is (handle i w)
