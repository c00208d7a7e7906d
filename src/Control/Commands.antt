-- ===== src/Control/Commands.antt =====
-- What the user asks for at the window arrives at the state machine.
use bm_daq.Common.{
  ℕ, suc, Bool, true, false, Bool-cases, inl, inr, drop, if◌then◌else◌, ◌≡◌, refl, sym, subst, ap,
  ◌∙◌, some, List, [], ◌∷◌, ◌++◌, append-nil, append_assoc, map, length,
}
use mathlib.Core.List.{map-append}
use bm_daq.Common.Bytes.{bytes_of}
use bm_daq.Control.Gui.{
  Input, on_button, off_button, start_button, stop_button, close_window, Publisher, MainWindow,
  try_send, count_close, send_closing, send_command, handle_on, hendle_off, handle_start,
  hendle_stop, close_event, handle, handle_all,
}
use bm_daq.Control.Remote.{Subscriber, choice_of, remote_input, choices}

-- The choices as the local control program announces them: 1 On, 2 Start, 3 Stop, 4 Off, 5 Exit.
abbrev pub meaning : Input → ℕ
meaning on_button = 1
meaning start_button = 2
meaning stop_button = 3
meaning off_button = 4
meaning close_window = 5

-- The messages are delivered in order by the subscriber's socket `s`.
abbrev pub Delivers : (zmq : Subscriber) → List (List ℕ) → zmq.Socket → Type 0
Delivers zmq [] s = Unit {0}
Delivers zmq (m ∷ ms) s = ((zmq.recv s).0 ≡ some m) × Delivers zmq ms (zmq.recv s).1

abbrev pub is_exit : Input → Bool
is_exit close_window = true
is_exit _ = false

-- Closing the window after a command was lost, if that is sent.
abbrev pub exit_if : List Bool → List Input
exit_if [] = []
exit_if (good ∷ fates) = if good then close_window ∷ [] else []

-- What is asked of the state machine, by what the user does, where `fates` says of every message in order
-- whether it could be sent: a command that could not be sent closes the window instead.
abbrev pub published : List Input → List Bool → List Input
published [] fates = []
published (i ∷ is) [] = []
published (i ∷ is) (good ∷ fates) =
    let after = published is fates in
    let after_two = published is (drop 1 fates) in
    if good then i ∷ after else (if is_exit i then after else exit_if fates ++ after_two)

abbrev message : Input → List ℕ
message i = bytes_of 4 (meaning i)

length-messages : (is : List Input) → length (map message is) ≡ length is
length-messages [] = refl
length-messages (i ∷ is) = ap suc (length-messages is)

module _ (pub_zmq : Publisher) where
  -- What one input adds.
  record Adds (i : Input) (w w' : MainWindow pub_zmq) : Type 0 where
    fates : List Bool
    asked : List Input
    sent_eq : w'.sent ≡ w.sent ++ fates
    queued_eq : w'.queued ≡ w.queued ++ map message asked
    published_eq :
        (is : List Input) (more : List Bool)
        → published (i ∷ is) (fates ++ more) ≡ asked ++ published is more

  try_send-sent :
      (i : Input) (w : MainWindow pub_zmq)
      → (try_send pub_zmq (meaning i) w).0 ≡ true
      → ((try_send pub_zmq (meaning i) w).1.sent ≡ w.sent ++ true ∷ [])
        × ((try_send pub_zmq (meaning i) w).1.queued ≡ w.queued ++ message i ∷ [])
  unfolding try_send
  try_send-sent i w good = (rw good refl, rw good refl)

  try_send-lost :
      (i : Input) (w : MainWindow pub_zmq)
      → (try_send pub_zmq (meaning i) w).0 ≡ false
      → ((try_send pub_zmq (meaning i) w).1.sent ≡ w.sent ++ false ∷ [])
        × ((try_send pub_zmq (meaning i) w).1.queued ≡ w.queued)
  unfolding try_send
  try_send-lost i w bad = (rw bad refl, rw bad refl)

  close_event-Adds : (w : MainWindow pub_zmq) → Adds close_window w (close_event pub_zmq w)
  unfolding close_event send_closing
  close_event-Adds w = elim (Bool-cases (try_send pub_zmq 5 w).0) [
    | inl good ↦
        let (s, q) = try_send-sent close_window w good in
        rw good (record {
          fates = true ∷ [];
          asked = close_window ∷ [];
          sent_eq = s;
          queued_eq = q;
          published_eq = λ is more. refl;
        })
    | inr bad ↦
        let (s, q) = try_send-lost close_window w bad in
        rw bad (record {
          fates = false ∷ [];
          asked = [];
          sent_eq = s;
          queued_eq = q ∙ sym (append-nil w.queued);
          published_eq = λ is more. refl;
        })
  ]

  send_command-Adds :
      (i : Input) (w : MainWindow pub_zmq)
      → is_exit i ≡ false
      → Adds i w (send_command pub_zmq (meaning i) w)
  unfolding send_command close_event send_closing
  send_command-Adds i w other = elim (Bool-cases (try_send pub_zmq (meaning i) w).0) [
    | inl good ↦
        let (s, q) = try_send-sent i w good in
        rw good (record {
          fates = true ∷ [];
          asked = i ∷ [];
          sent_eq = s;
          queued_eq = q;
          published_eq = λ is more. refl;
        })
    | inr bad ↦
        let (s, q) = try_send-lost i w bad in
        let w₁ = count_close pub_zmq (try_send pub_zmq (meaning i) w).1 in
        elim (Bool-cases (try_send pub_zmq 5 w₁).0) [
          | inl good ↦
              let (s', q') = try_send-sent close_window w₁ good in
              rw (bad, good)
                (record {
                  fates = false ∷ true ∷ [];
                  asked = close_window ∷ [];
                  sent_eq = s' ∙ ap (λ l. l ++ true ∷ []) s ∙ append_assoc w.sent _ _;
                  queued_eq = q' ∙ ap (λ l. l ++ message close_window ∷ []) q;
                  published_eq = λ is more. rw other refl;
                })
          | inr worse ↦
              let (s', q') = try_send-lost close_window w₁ worse in
              rw (bad, worse)
                (record {
                  fates = false ∷ false ∷ [];
                  asked = [];
                  sent_eq = s' ∙ ap (λ l. l ++ false ∷ []) s ∙ append_assoc w.sent _ _;
                  queued_eq = q' ∙ q ∙ sym (append-nil w.queued);
                  published_eq = λ is more. rw other refl;
                })
        ]
  ]

  handle-Adds : (i : Input) (w : MainWindow pub_zmq) → Adds i w (handle pub_zmq i w)
  unfolding handle handle_on hendle_off handle_start hendle_stop
  handle-Adds on_button w = send_command-Adds on_button w refl
  handle-Adds off_button w = send_command-Adds off_button w refl
  handle-Adds start_button w = send_command-Adds start_button w refl
  handle-Adds stop_button w = send_command-Adds stop_button w refl
  handle-Adds close_window w = close_event-Adds w

  handle_all-published :
      (is : List Input) (w : MainWindow pub_zmq)
      → let w' = handle_all pub_zmq is w in
        (fates : List Bool) × (w'.sent ≡ w.sent ++ fates)
        × (w'.queued ≡ w.queued ++ map message (published is fates))
  unfolding handle_all
  handle_all-published [] w = ([], sym (append-nil w.sent), sym (append-nil w.queued))
  handle_all-published (i ∷ is) w =
      let a = handle-Adds i w in
      let (more, s, q) = handle_all-published is (handle pub_zmq i w) in
      (
        a.fates ++ more,
        s ∙ ap (λ l. l ++ more) a.sent_eq ∙ append_assoc w.sent _ _,
        q
            ∙ ap (λ l. l ++ map message (published is more)) a.queued_eq
            ∙ append_assoc w.queued _ _
            ∙ ap (λ l. w.queued ++ l) (sym (map-append message a.asked (published is more)))
            ∙ ap (λ l. w.queued ++ map message l) (sym (a.published_eq is more)),
      )

choice_of-meaning : (i : Input) → choice_of (some (bytes_of 4 (meaning i))) ≡ meaning i
unfolding choice_of
choice_of-meaning on_button = refl
choice_of-meaning off_button = refl
choice_of-meaning start_button = refl
choice_of-meaning stop_button = refl
choice_of-meaning close_window = refl

choices-meaning :
    (zmq : Subscriber) (is : List Input) (s : zmq.Socket)
    → Delivers zmq (map (λ i. bytes_of 4 (meaning i)) is) s
    → (choices zmq (length is) s).0 ≡ map meaning is
unfolding choices remote_input
choices-meaning zmq [] s h = refl
choices-meaning zmq (i ∷ is) s (now, later) =
    rw (now, choice_of-meaning i)
      (ap (λ cs. meaning i ∷ cs) (choices-meaning zmq is (zmq.recv s).1 later))

-- Where the subscriber delivers the messages that a new window's publisher took, in order: the choices that
-- the state machine gets are what the user's inputs mean, for every sequence of them and whichever messages
-- could be sent. A command that could not be sent closes the window, which asks for the exit if that can be
-- sent.
pub choices-handle_all :
    (out_zmq : Publisher) (in_zmq : Subscriber) (is : List Input) (w : MainWindow out_zmq)
    (s : in_zmq.Socket)
    → w.queued ≡ []
    → w.sent ≡ []
    → Delivers in_zmq (handle_all out_zmq is w).queued s
    → let w' = handle_all out_zmq is w in
      (choices in_zmq (length w'.queued) s).0 ≡ map meaning (published is w'.sent)
choices-handle_all out_zmq in_zmq is w s none_queued none_sent delivered =
    let (fates, logged, queued) = handle_all-published out_zmq is w in
    let fates_eq : (handle_all out_zmq is w).sent ≡ fates =
      logged ∙ ap (λ l. l ++ fates) none_sent in
    let queued_eq : (handle_all out_zmq is w).queued ≡ map message (published is fates) =
      queued ∙ ap (λ l. l ++ map message (published is fates)) none_queued in
    rw (fates_eq, queued_eq, length-messages (published is fates))
      (choices-meaning in_zmq (published is fates) s
        (subst (λ ms. Delivers in_zmq ms s) queued_eq delivered))
