-- ===== src/Tunnel/Ws.antt =====
-- internal/tunnel/ws_stream.go: `wsStream` after the local socket is open. `onFrame` runs on the
-- session's reader, `pumpEdge` (edge to local) and `pumpLocal` (local to edge) on goroutines of their
-- own; each of their critical sections is a step, so that frames may come in between.
pub mod Pumps
pub mod Invariant
pub mod Closing
pub mod Delivery
pub mod Drop
mod Tests
use tuzy.Shared.{
  ℕ, ◌+◌, ◌-◌, Bool, true, false, Option, none, some, List, [], ◌∷◌, ◌++◌, leb, if◌then◌else◌,
  length, ◌||◌,
}
use tuzy.Protocol.{
  Bytes, FrameType, Frame, ws_msg_tolerance, stream_window, req_body, ws_text, ws_binary, ws_close,
  window, reset, ack,
}
use tuzy.Tunnel.Flow.{Credit, new_credit, add, MsgCredit, new_msg_credit, try_take, ack_messages}
use tuzy.Tunnel.Calls.{
  Call, grants, sends_ctrl, sends_data, reset_frame, ack_frame, protocol_error, CloseMsg,
  text_frame, binary_frame, close_frame,
}
use tuzy.Tunnel.CloseReason.{
  ascii_bytes, sendable_code, truncate_reason, LocalError, local_close_status,
}

-- `wsMsg`
pub record WsMsg : Type 0 where
  pub is_text : Bool
  pub content : Bytes

-- Where `pumpEdge` stands: before the lock of its loop; with a message, before the lock of
-- `writeLocal`; writing it; returned.
pub data EdgePump : Type 0 where
  looking stopped : EdgePump
  holding writing : WsMsg → EdgePump

-- Where `pumpLocal` stands: reading; waiting in `take` with a message; returned.
pub data LocalPump : Type 0 where
  reading ended : LocalPump
  relaying : WsMsg → LocalPump

-- `wsStream`, with the messages that the local app was given.
pub record WsStream : Type 0 where
  pub cancelled : Bool
  pub credit : MsgCredit
  pub send_credit : Credit
  pub unacked : ℕ
  pub inbox : List WsMsg
  pub remote_close : Option CloseMsg
  pub local_req : Option CloseMsg
  pub close_sent : Bool
  pub edge_pump : EdgePump
  pub local_pump : LocalPump
  pub delivered : List WsMsg

-- `newWSStream`
unfoldable pub new_ws_stream : WsStream
unfolding new_msg_credit new_credit
new_ws_stream = record {
  cancelled = false;
  credit = new_msg_credit;
  send_credit = new_credit stream_window;
  unacked = 0;
  inbox = [];
  remote_close = none;
  local_req = none;
  close_sent = false;
  edge_pump = looking;
  local_pump = reading;
  delivered = [];
}

-- `localClose`: the first request stands.
unfoldable pub local_close : WsStream → CloseMsg → WsStream
local_close w c = elim w.local_req [ none ↦ record w { local_req = some c } | some _ ↦ w ]

-- `sendClose`: only the first call sends.
unfoldable pub send_close : ℕ → WsStream → CloseMsg → WsStream × List Call
send_close id w c = if w.close_sent then (w, []) else (
  record w { close_sent = true },
  sends_data
        (close_frame id (record { code = sendable_code c.code; reason = truncate_reason c.reason }))
      ∷ [],
)

-- `onFrame` on a message.
unfoldable pub on_message : WsStream → WsMsg → WsStream
unfolding local_close
on_message w m =
    if leb ws_msg_tolerance w.unacked
    then local_close w
        (record { code = 1008; reason = ascii_bytes "edge exceeded websocket message credit" })
    else record w { unacked = w.unacked + 1; inbox = w.inbox ++ m ∷ [] }

-- `onFrame` on WS_CLOSE; none is a payload that does not unmarshal.
unfoldable pub on_close : ℕ → WsStream → Option CloseMsg → WsStream × List Call
on_close id w none =
    (record w { cancelled = true }, sends_ctrl (reset_frame id protocol_error) ∷ [])
on_close id w (some c) = (record w { remote_close = some c }, [])

on_window : WsStream → Option Credit → Option (WsStream × List Call)
on_window w none = none
on_window w (some c) = some (record w { send_credit = c }, [])

-- `onFrame`, over `json.Unmarshal` of a WS_CLOSE payload. None is a connection error.
unfoldable pub ws_on_frame :
    (Bytes → Option CloseMsg) → ℕ → WsStream → Frame → Option (WsStream × List Call)
unfolding on_window on_close local_close
ws_on_frame unmarshal id w f = elim f.type [
  | ws_text ↦ some (on_message w (record { is_text = true; content = f.payload }), [])
  | ws_binary ↦ some (on_message w (record { is_text = false; content = f.payload }), [])
  | ws_close ↦ some (on_close id w (unmarshal f.payload))
  | ack ↦ some (record w { credit = ack_messages w.credit f.value }, [])
  | window ↦ on_window w (add w.send_credit f.value)
  | reset ↦
      some (local_close w (record { code = 1001; reason = ascii_bytes "tunnel stream reset" }), [])
  | req_body ↦ some (w, grants (length f.payload) ∷ [])
  | _ ↦ some (w, [])
]
