-- ===== src/Tunnel/Calls.antt =====
-- internal/tunnel: what a stream asks of its session. A handler's step returns the stream after it and
-- the calls that it makes on the session, in order; Tunnel/Session carries them out.
use tuzy.Shared.{ℕ, ◌+◌, List, [], ◌∷◌}
use tuzy.Protocol.{Bytes}

-- The codes of RESET that the agent sends (internal/protocol/messages.go). Its message is a text for people and is left out.
pub data ResetCode : Type 0 where
  protocol_error flow_control credit_timeout local_error : ResetCode

-- `WSCloseMsg`. A code below 0 is not told from 0: both are no code that may be sent.
pub record CloseMsg : Type 0 where
  pub code : ℕ
  pub reason : Bytes

-- Frames for the queue `ctrl`, by the call that encodes them.
pub data CtrlFrame : Type 0 where
  window_frame : ℕ → ℕ → CtrlFrame
  ack_frame : ℕ → ℕ → CtrlFrame
  reset_frame : ℕ → ResetCode → CtrlFrame
  drain_frame : CtrlFrame

-- Frames for the queue `data` that a WebSocket stream sends.
pub data DataFrame : Type 0 where
  text_frame binary_frame : ℕ → Bytes → DataFrame
  close_frame : ℕ → CloseMsg → DataFrame

pub data Call : Type 0 where
  grants : ℕ → Call
  flushes : Call
  sends_ctrl : CtrlFrame → Call
  sends_data : DataFrame → Call

-- The receive credit that a list of calls returns to the connection.
abbrev pub returned : List Call → ℕ
returned [] = 0
returned (grants n ∷ cs) = n + returned cs
returned (_ ∷ cs) = returned cs
