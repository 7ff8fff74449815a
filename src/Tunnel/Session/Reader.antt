-- ===== src/Tunnel/Session/Reader.antt =====
-- internal/tunnel/session.go: `readLoop`, `dispatch`, `openStream`, `streamError`, and the session's
-- histories.
use tuzy.Shared.{
  same_bytes, ℕ, Bool, true, false, ◌&&◌, ◌||◌, not, Option, none, some, List, [], ◌∷◌, leb, ◌==◌,
  if◌then◌else◌, length,
}
use text.Mathlib.Text.{◌==◌ as str_eq}
use tuzy.Protocol.{
  Bytes, FrameType, Frame, Result, ok, err, malformed, stream_error, Violation, message_too_big,
  invalid_utf8, req_head, req_body, req_end, window, goaway, reset, ws_text, ws_binary, ws_close,
  ack,
}
use tuzy.Protocol.Decode.{decode}
use tuzy.Tunnel.Flow.{Credit, add}
use tuzy.Tunnel.Calls.{Call, reset_frame, protocol_error, CloseMsg}
use tuzy.Tunnel.CloseReason.{ascii_bytes}
use tuzy.Tunnel.Http.{new_http_stream, http_on_frame}
use tuzy.Tunnel.Ws.{new_ws_stream, ws_on_frame, local_close}
use tuzy.Tunnel.Session.{
  ReqHead, Goaway, Json, Stream, http, ws, Cause, read_failed, unexpected_text, bad_frame, stale_id,
  window_overflow, bad_goaway, unexpected_frame, Session, send_ctrl, grant_conn, find_stream,
  put_object, after_step,
}

-- The end of a handler of the reader: it goes on, or the session ends with a cause.
pub data Handled : Type 0 where
  goes_on : Session → Handled
  fails : Cause → Session → Handled

-- `head.Method == "" || (head.Kind != "http" && head.Kind != "ws")`
abbrev pub bad_head : ReqHead → Bool
bad_head head =
    str_eq head.method "" || not (str_eq head.kind "http") && not (str_eq head.kind "ws")

new_stream : ReqHead → Stream
new_stream head = if str_eq head.kind "ws" then ws new_ws_stream else http new_http_stream

refuse_head : ℕ → Session → Session
refuse_head id s = send_ctrl (reset_frame id protocol_error) s

start_stream : ℕ → ReqHead → Session → Session
start_stream id head s = record s {
  handlers = record { id = id; listed = true; stream = new_stream head } ∷ s.handlers;
}

-- `openStream` on the id of a new stream.
unfoldable pub open_fresh : ℕ → Option ReqHead → Session → Handled
unfolding new_stream refuse_head start_stream
open_fresh id none s = goes_on (refuse_head id s)
open_fresh id (some head) s =
    if bad_head head then goes_on (refuse_head id s) else goes_on (start_stream id head s)

-- `openStream`
unfoldable pub open_stream : Json → Frame → Session → Handled
open_stream js f s =
    if leb f.stream_id s.max_seen
    then fails stale_id s
    else open_fresh f.stream_id (js.req_head_of f.payload) (record s { max_seen = f.stream_id })

-- `h.onFrame(f)` of either kind of handler.
unfoldable pub stream_on_frame : Json → ℕ → Stream → Frame → Option (Stream × List Call)
stream_on_frame js id (http h) f = elim (http_on_frame id h f) [
  | none ↦ none
  | some (h', cs) ↦ some (http h', cs)
]
stream_on_frame js id (ws w) f = elim (ws_on_frame js.close_of id w f) [
  | none ↦ none
  | some (w', cs) ↦ some (ws w', cs)
]

abbrev pub handled_frame : ℕ → Session → Option (Stream × List Call) → Handled
handled_frame id s none = fails window_overflow s
handled_frame id s (some r) = goes_on (after_step id r s)

abbrev pub is_req_body : FrameType → Bool
is_req_body req_body = true
is_req_body _ = false

-- The end of `dispatch`: the frame goes to its stream; without one it is dropped, and the credit of a
-- body is returned.
abbrev pub deliver_to : Json → Frame → Session → Option Stream → Handled
deliver_to js f s none = goes_on (if is_req_body f.type then grant_conn (length f.payload) s else s)
deliver_to js f s (some st) = handled_frame f.stream_id s (stream_on_frame js f.stream_id st f)

unfoldable pub deliver : Json → Frame → Session → Handled
deliver js f s = deliver_to js f s (find_stream f.stream_id s.handlers)

-- `s.connCredit.add`
abbrev pub add_conn : Session → Option Credit → Handled
add_conn s none = fails window_overflow s
add_conn s (some c) = goes_on (record s { conn_credit = c })

abbrev pub set_goaway : Session → Option Goaway → Handled
set_goaway s none = fails bad_goaway s
set_goaway s (some g) = goes_on (record s { goaway_msg = some g })

-- The switch of `dispatch`.
abbrev pub dispatch_as : FrameType → Json → Frame → Session → Handled
dispatch_as req_head js f s = open_stream js f s
dispatch_as window js f s =
    if f.stream_id == 0 then add_conn s (add s.conn_credit f.value) else deliver js f s
dispatch_as goaway js f s = set_goaway s (js.goaway_of f.payload)
dispatch_as req_body js f s = deliver js f s
dispatch_as req_end js f s = deliver js f s
dispatch_as reset js f s = deliver js f s
dispatch_as ws_text js f s = deliver js f s
dispatch_as ws_binary js f s = deliver js f s
dispatch_as ws_close js f s = deliver js f s
dispatch_as ack js f s = deliver js f s
dispatch_as t js f s = fails (unexpected_frame t) s

-- `dispatch`
unfoldable pub dispatch : Json → Frame → Session → Handled
dispatch js f s = dispatch_as f.type js f s

-- `s.cancel`: the first cause stands.
abbrev pub first_cause : Option Cause → Cause → Session → Session
first_cause none c s = record s { cause = some c }
first_cause (some _) c s = s

unfoldable pub cancel : Cause → Session → Session
cancel c s = first_cause s.cause c s

-- The message of a stream error.
abbrev pub error_text : Violation → Bytes
error_text message_too_big = ascii_bytes "ws message too big"
error_text invalid_utf8 = ascii_bytes "ws text is not valid UTF-8"
error_text _ = []

-- `streamError`, with the handler in the map.
abbrev pub stream_error_on : ℕ → ℕ → Violation → Session → Option Stream → Session
stream_error_on id close_code v s (some (ws w)) =
    let c : CloseMsg = record { code = close_code; reason = error_text v } in
    record s { handlers = put_object id (ws (local_close w c)) s.handlers }
stream_error_on id close_code v s _ = s

unfoldable pub on_stream_error : ℕ → ℕ → Violation → Session → Session
on_stream_error id close_code v s = stream_error_on id close_code v s (find_stream id s.handlers)

-- What `s.conn.Read` gives.
pub data Message : Type 0 where
  text_message binary_message : Bytes → Message
  broken : Message

abbrev pub settled : Handled → Session
settled (goes_on s) = s
settled (fails c s) = cancel c s

-- What `readLoop` does with a frame, or with an error of `Decode`.
unfoldable pub on_decoded : Json → Result Frame → Session → Session
on_decoded js (ok f) s = settled (dispatch js f s)
on_decoded js (err (stream_error id close_code v)) s = on_stream_error id close_code v s
on_decoded js (err (malformed v)) s = cancel (bad_frame v) s

-- One round of `readLoop`.
unfoldable pub read_message : Json → Message → Session → Session
read_message js broken s = cancel read_failed s
read_message js (text_message b) s =
    if same_bytes b (ascii_bytes "tuzy-pong") then s else cancel unexpected_text s
read_message js (binary_message b) s = on_decoded js (decode js.codecs b) s
