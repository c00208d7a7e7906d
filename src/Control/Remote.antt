-- ===== src/Control/Remote.antt =====
-- `remoteInput` (tools/bm_daq_remote_ctrl.cpp): the next choice of the state machine, from a message.
use bm_daq.Common.{ℕ, zero, suc, Option, none, some, List, [], ◌∷◌, length, ◌==◌, if◌then◌else◌}
use bm_daq.Common.Bytes.{value_of}

-- ZeroMQ's subscriber socket: `zmq_recv` gives a message, whose length is its result, or `none` for -1.
pub record Subscriber : Type 1 where
  pub Socket : Type 0
  pub recv : Socket → Option (List ℕ) × Socket

-- What follows `zmq_recv`; the choice is the `int` in the four bytes, as a 32-bit pattern.
unfoldable pub choice_of : Option (List ℕ) → ℕ
choice_of none = 5
choice_of (some message) = if length message == 4 then value_of 4 message else 5

unfoldable pub remote_input : (zmq : Subscriber) → zmq.Socket → ℕ × zmq.Socket
remote_input zmq s = let (message, s') = zmq.recv s in (choice_of message, s')

-- The choices that so many calls make.
unfoldable pub choices : (zmq : Subscriber) → ℕ → zmq.Socket → List ℕ × zmq.Socket
choices zmq zero s = ([], s)
choices zmq (suc n) s =
    let (c, s') = remote_input zmq s in let (cs, s'') = choices zmq n s' in (c ∷ cs, s'')
