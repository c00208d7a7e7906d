-- ===== src/Tests/Controls.antt =====
-- The theorems on the control programs, at concrete inputs.
use Prim.Native.String.{String}
use bm_daq.Common.{
  ℕ, ◌≡◌, ◌≢◌, ◌⊎◌, refl, none, some, List, [], ◌∷◌, ◌++◌, length, map, ◌==◌, if◌then◌else◌, arith,
}
use bm_daq.Control.Gui.{
  Input, on_button, off_button, start_button, stop_button, close_window, Publisher, MainWindow,
  new_window, try_send, send_closing, send_command, handle_on, hendle_off, handle_start,
  hendle_stop, close_event, handle, handle_all,
}
use bm_daq.Control.Remote.{Subscriber, choices}
use bm_daq.Control.Commands.{published, meaning, Delivers, choices-handle_all}
use bm_daq.Control.Launch.{Host, end_point, main, local_main, main-status}
use bm_daq.Control.BackTrace.Frames.{
  Frame, known, unknown, AllFrames, message, lines, print_back_trace-lines,
}
use bm_daq.Control.BackTrace.{print_back_trace, Demangle}

-- A publisher whose second call fails, and a subscriber that gets the messages.
abbrev mailbox : Publisher
mailbox = record {
  Socket = List (List ℕ);
  bound = λ e. [];
  send = λ m s. (if length s == 1 then none else some (length m), s ++ m ∷ []);
}

abbrev postman : Subscriber
postman = record {
  Socket = List (List ℕ);
  recv = λ s. elim s [ [] ↦ (none, []) | m ∷ ms ↦ (some m, ms) ];
}

abbrev window : MainWindow mailbox
window = new_window mailbox

abbrev inputs : List Input
inputs = on_button ∷ start_button ∷ stop_button ∷ off_button ∷ close_window ∷ []

abbrev clicked : MainWindow mailbox
clicked = handle_all mailbox inputs window

delivered : Delivers postman (handle_all mailbox inputs window).queued clicked.queued
unfolding handle_all handle close_event send_closing send_command try_send hendle_off hendle_stop
    handle_start handle_on
delivered = (refl, (refl, (refl, (refl, (refl, tt)))))

choices-handle_all_example :
    (choices postman (length clicked.queued) clicked.queued).0
    ≡ map meaning (published inputs clicked.sent)
choices-handle_all_example =
    choices-handle_all mailbox postman inputs window clicked.queued refl refl delivered

-- The command to start is lost, and the window is closed instead.
asked :
    published inputs clicked.sent
    ≡ on_button ∷ close_window ∷ stop_button ∷ off_button ∷ close_window ∷ []
unfolding handle_all handle close_event send_closing send_command try_send hendle_off hendle_stop
    handle_start handle_on
asked = refl

abbrev desk : Host
desk = record {
  World = List String;
  get_arg_val = λ o. 2;
  argv = λ i. "6120";
  sigaction = λ w. (0, w);
  connect = λ e w. (0, e ∷ w);
  subscribe_all = λ w. (0, w);
  run = λ w. "run" ∷ w;
  run_local = λ w. "run" ∷ w;
}

main-status_example :
    let (status, w') = main desk [] in
    let (rc₁, w₁) = desk.sigaction [] in
    let (rc₂, w₂) = desk.connect (end_point desk) w₁ in
    let (rc₃, w₃) = desk.subscribe_all w₂ in
    let ip = desk.get_arg_val "ip-address" in
    let port = desk.get_arg_val "port" in
    (((status ≡ 0) × (w' ≡ desk.run w₃) × (rc₁ ≡ 0) × (ip ≢ 0) × (port ≢ 0) × (rc₂ ≡ 0) × (rc₃ ≡ 0))
      ⊎ ((status ≡ 1)
          × (((w' ≡ w₁) × ((rc₁ ≢ 0) ⊎ (ip ≡ 0) ⊎ (port ≡ 0)))
              ⊎ ((w' ≡ w₂) × (rc₁ ≡ 0) × (rc₂ ≢ 0))
              ⊎ ((w' ≡ w₃) × (rc₁ ≡ 0) × (rc₂ ≡ 0) × (rc₃ ≢ 0)))))
    × (let (status, w') = local_main desk [] in
        ((status ≡ 0) × (w' ≡ desk.run_local w₁) × (rc₁ ≡ 0))
        ⊎ ((status ≡ 1) × (w' ≡ w₁) × (rc₁ ≢ 0)))
main-status_example = main-status desk []

-- Nothing but the letter 'f' is demangled, to 'F'.
abbrev upper : Demangle
upper name = elim name [ [] ↦ none | c ∷ cs ↦ if c == 102 then some (70 ∷ []) else none ]

-- `a(f+1) 9`, and `[7]`
abbrev two_frames : List Frame
two_frames = known (97 ∷ []) (102 ∷ []) (49 ∷ []) (32 ∷ 57 ∷ []) ∷ unknown (91 ∷ 55 ∷ 93 ∷ []) ∷ []

two_frames_fit : AllFrames two_frames
two_frames_fit = (
  (
    (ground arith, ground arith),
    (ground arith, ground arith),
    (ground arith, ground arith),
    ground arith,
  ),
  (ground arith, tt),
)

print_back_trace-lines_example :
    print_back_trace upper (some ((104 ∷ []) ∷ map message two_frames)) ≡ lines upper 1 two_frames
print_back_trace-lines_example = print_back_trace-lines upper (104 ∷ []) two_frames two_frames_fit
