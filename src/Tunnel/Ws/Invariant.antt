-- ===== src/Tunnel/Ws/Invariant.antt =====
-- What holds of a WebSocket stream after any history.
use tuzy.Shared.{
  ℕ, ◌+◌, ◌≤◌, ◌≡◌, inl, inr, refl, Bool, true, false, Option, Option-cases, List, [], ◌∷◌, length,
  length-append, arith,
}
use tuzy.Protocol.{
  Bytes, FrameType, Frame, ws_msg_tolerance, ws_msg_credit, ws_text, ws_binary, ws_close, window,
  ack,
}
use tuzy.Tunnel.Flow.{add, try_take, ack_messages}
use tuzy.Tunnel.Calls.{CloseMsg}
use tuzy.Tunnel.Ws.{
  send_close, WsMsg, WsStream, EdgePump, looking, stopped, holding, writing, LocalPump, reading,
  ended, relaying, on_message, ws_on_frame,
}
use tuzy.Tunnel.Ws.Pumps.{
  edge_look, edge_step, LocalRead, local_step, WsEvent, frame_in, edge_goes, local_goes, closes,
  cancels, or_same, ws_step, ws_run,
}

-- The messages that `pumpEdge` has taken from the inbox and not given to the local app.
abbrev pub in_hand : EdgePump → List WsMsg
in_hand (holding m) = m ∷ []
in_hand (writing m) = m ∷ []
in_hand _ = []

-- At most 16 messages from the edge are unacknowledged, those that wait or are written among them, and at
-- most 8 to the edge.
pub record IsBounded (w : WsStream) : Type 0 where
  pub room : length w.inbox + length (in_hand w.edge_pump) ≤ w.unacked
  pub tolerated : w.unacked ≤ ws_msg_tolerance
  pub credited : w.credit.outstanding ≤ ws_msg_credit

on_message-IsBounded : (w : WsStream) (m : WsMsg) → IsBounded w → IsBounded (on_message w m)
unfolding on_message
on_message-IsBounded w m b = ground (arith, length-append w.inbox (m ∷ []))

pub ws_on_frame-IsBounded :
    (u : Bytes → Option CloseMsg) (id : ℕ) (w : WsStream) (f : Frame) (t : FrameType)
    → f.type ≡ t
    → IsBounded w
    → IsBounded (or_same w (ws_on_frame u id w f)).0
unfolding ws_on_frame or_same ack_messages
ws_on_frame-IsBounded u id w f ws_text t b =
    ground (arith, on_message-IsBounded w (record { is_text = true; content = f.payload }) b)
ws_on_frame-IsBounded u id w f ws_binary t b =
    ground (arith, on_message-IsBounded w (record { is_text = false; content = f.payload }) b)
ws_on_frame-IsBounded u id w f ws_close t b = ground arith
ws_on_frame-IsBounded u id w f window t b = elim (Option-cases (add w.send_credit f.value)) [
  | inl e ↦ ground (arith, e)
  | inr (c, e) ↦ ground (arith, e)
]
ws_on_frame-IsBounded u id w f ack t b = ground arith
ws_on_frame-IsBounded u id w f _ t b = ground arith

edge_look-IsBounded :
    (id : ℕ) (w : WsStream) (q : List WsMsg)
    → w.inbox ≡ q
    → w.edge_pump ≡ looking
    → IsBounded w
    → IsBounded (edge_look id w q).0
unfolding edge_look send_close
edge_look-IsBounded id w [] q p b = ground arith
edge_look-IsBounded id w (m ∷ rest) q p b = ground arith

pub edge_step-IsBounded :
    (id : ℕ) (w : WsStream) (written : Bool) (p : EdgePump)
    → w.edge_pump ≡ p
    → IsBounded w
    → IsBounded (edge_step id w written).0
unfolding edge_step
edge_step-IsBounded id w written looking p b =
    ground (arith, edge_look-IsBounded id w w.inbox refl p b)
edge_step-IsBounded id w written stopped p b = ground arith
edge_step-IsBounded id w written (holding m) p b = ground arith
edge_step-IsBounded id w written (writing m) p b = ground arith

pub local_step-IsBounded :
    (id : ℕ) (w : WsStream) (r : LocalRead) (p : LocalPump)
    → w.local_pump ≡ p
    → IsBounded w
    → IsBounded (local_step id w r).0
unfolding local_step try_take send_close
local_step-IsBounded id w r reading p b = ground arith
local_step-IsBounded id w r (relaying m) p b = ground arith
local_step-IsBounded id w r ended p b = ground arith

pub ws_step-IsBounded :
    (u : Bytes → Option CloseMsg) (id : ℕ) (w : WsStream) (e : WsEvent)
    → IsBounded w
    → IsBounded (ws_step u id w e).0
ws_step-IsBounded u id w (frame_in f) b =
    unfold ws_step in ws_on_frame-IsBounded u id w f f.type refl b
ws_step-IsBounded u id w (edge_goes written) b =
    unfold ws_step in edge_step-IsBounded id w written w.edge_pump refl b
ws_step-IsBounded u id w (local_goes r) b =
    unfold ws_step in local_step-IsBounded id w r w.local_pump refl b
ws_step-IsBounded u id w (closes c) b = unfold ws_step in ground arith
ws_step-IsBounded u id w cancels b = unfold ws_step in ground arith

-- After any history of a stream, at most 16 messages from the edge are unacknowledged and those that wait
-- or are written are among them, and at most 8 messages to the edge are unacknowledged by it.
pub ws_run-IsBounded :
    (u : Bytes → Option CloseMsg) (id : ℕ) (w : WsStream) (es : List WsEvent)
    → IsBounded w
    → IsBounded (ws_run u id w es).0
unfolding ws_run
ws_run-IsBounded u id w [] b = b
ws_run-IsBounded u id w (e ∷ es) b =
    ws_run-IsBounded u id (ws_step u id w e).0 es (ws_step-IsBounded u id w e b)
