-- ===== src/Tunnel/Ws/Pumps.antt =====
-- internal/tunnel/ws_stream.go: `pumpEdge` with `writeLocal`, `pumpLocal`, and the stream's histories.
use tuzy.Shared.{
  ℕ, ◌-◌, Bool, true, false, Option, none, some, List, [], ◌∷◌, ◌++◌, if◌then◌else◌, ◌||◌,
}
use tuzy.Protocol.{Bytes, Frame}
use tuzy.Tunnel.Flow.{MsgCredit, try_take}
use tuzy.Tunnel.Calls.{Call, sends_ctrl, sends_data, ack_frame, CloseMsg, text_frame, binary_frame}
use tuzy.Tunnel.CloseReason.{ascii_bytes, LocalError, local_close_status}
use tuzy.Tunnel.Ws.{
  WsMsg, WsStream, looking, stopped, holding, writing, LocalPump, reading, ended, relaying,
  local_close, send_close, ws_on_frame,
}

-- `remoteClose != nil || localReq != nil`
unfoldable pub close_pending : WsStream → Bool
close_pending w = elim w.remote_close [
  | some _ ↦ true
  | none ↦ elim w.local_req [ some _ ↦ true | none ↦ false ]
]

is_ended : LocalPump → Bool
is_ended ended = true
is_ended _ = false

-- `pumpEdge` returning, and the `cancel` after it in `run`.
stop : WsStream × List Call → WsStream × List Call
stop (w, cs) = (record w { edge_pump = stopped; cancelled = true }, cs)

-- The lock at the head of the loop of `pumpEdge`, and the close that it comes to when no message
-- waits.
unfoldable pub edge_look : ℕ → WsStream → List WsMsg → WsStream × List Call
unfolding stop is_ended
edge_look id w (m ∷ rest) = (record w { inbox = rest; edge_pump = holding m }, [])
edge_look id w [] = elim w.remote_close [
  | some c ↦ stop (send_close id w c)
  | none ↦ elim w.local_req [
    | some c ↦ stop (send_close id w c)
    | none ↦ if is_ended w.local_pump || w.cancelled then stop (w, []) else (w, [])
  ]
]

-- After `writeLocal` failed.
unfoldable pub edge_failed : WsStream → WsStream × List Call
unfolding stop local_close
edge_failed w = if w.cancelled then stop (w, []) else (
  record (local_close w
      (record { code = 1011; reason = ascii_bytes "local app stopped reading" })) {
        edge_pump = looking;
      },
  [],
)

-- After it succeeded.
unfoldable pub edge_delivered : ℕ → WsStream → WsMsg → WsStream × List Call
edge_delivered id w m = (
  record w { unacked = w.unacked - 1; delivered = w.delivered ++ m ∷ []; edge_pump = looking },
  sends_ctrl (ack_frame id 1) ∷ [],
)

-- One step of `pumpEdge`. The argument says whether the write to the local socket succeeds.
unfoldable pub edge_step : ℕ → WsStream → Bool → WsStream × List Call
unfolding edge_failed edge_delivered close_pending
edge_step id w written = elim w.edge_pump [
  | looking ↦ edge_look id w w.inbox
  | holding m ↦ if close_pending w then edge_failed w else (record w { edge_pump = writing m }, [])
  | writing m ↦ if written then edge_delivered id w m else edge_failed w
  | stopped ↦ (w, [])
]

-- What a read from the local socket gives.
pub data LocalRead : Type 0 where
  message : WsMsg → LocalRead
  failure : LocalError → LocalRead

-- The end of a read in `pumpLocal`: a requested close reports its own code.
unfoldable pub local_read : ℕ → WsStream → LocalRead → WsStream × List Call
unfolding close_pending
local_read id w (message m) = (record w { local_pump = relaying m }, [])
local_read id w (failure e) =
    if w.cancelled || close_pending w
    then (record w { local_pump = ended }, [])
    else send_close id (record w { local_pump = ended }) (local_close_status e)

-- `take`, and the frame that it allows. With no credit it waits, or returns when the stream is
-- cancelled.
unfoldable pub relay : ℕ → WsStream → WsMsg → Option MsgCredit → WsStream × List Call
relay id w m none = (if w.cancelled then record w { local_pump = ended } else w, [])
relay id w m (some c) = (
  record w { credit = c; local_pump = reading },
  sends_data (if m.is_text then text_frame id m.content else binary_frame id m.content) ∷ [],
)

-- One step of `pumpLocal`. The argument is what a read gives, if this is one.
unfoldable pub local_step : ℕ → WsStream → LocalRead → WsStream × List Call
unfolding local_read relay
local_step id w r = elim w.local_pump [
  | reading ↦ local_read id w r
  | relaying m ↦ relay id w m (try_take w.credit)
  | ended ↦ (w, [])
]

pub data WsEvent : Type 0 where
  frame_in : Frame → WsEvent
  edge_goes : Bool → WsEvent
  local_goes : LocalRead → WsEvent
  closes : CloseMsg → WsEvent
  cancels : WsEvent

unfoldable pub or_same : WsStream → Option (WsStream × List Call) → WsStream × List Call
or_same w none = (w, [])
or_same w (some r) = r

-- One event of the stream: a frame, a step of a pump, `localClose` by the session for a frame that
-- did not decode, the end of its context.
unfoldable pub ws_step : (Bytes → Option CloseMsg) → ℕ → WsStream → WsEvent → WsStream × List Call
unfolding ws_on_frame edge_step local_step or_same local_close
ws_step unmarshal id w (frame_in f) = or_same w (ws_on_frame unmarshal id w f)
ws_step unmarshal id w (edge_goes written) = edge_step id w written
ws_step unmarshal id w (local_goes r) = local_step id w r
ws_step unmarshal id w (closes c) = (local_close w c, [])
ws_step unmarshal id w cancels = (record w { cancelled = true }, [])

unfoldable pub ws_run :
    (Bytes → Option CloseMsg) → ℕ → WsStream → List WsEvent → WsStream × List Call
ws_run unmarshal id w [] = (w, [])
ws_run unmarshal id w (e ∷ es) =
    let after = ws_step unmarshal id w e in
    let rest = ws_run unmarshal id after.0 es in (rest.0, after.1 ++ rest.1)
