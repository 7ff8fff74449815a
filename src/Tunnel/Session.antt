-- ===== src/Tunnel/Session.antt =====
-- internal/tunnel/session.go: the agent's side of one connection: what its reader does with each
-- message, the streams, and the receive credit of the connection.
-- The streams are objects: a handler stays reachable by its goroutines after `removeStream` takes it
-- from the map `s.streams`, so each has a mark that says if it is in the map.
pub mod Reader
pub mod Steps
pub mod Calls
pub mod Objects
pub mod Streams
pub mod Balance
pub mod Frames
pub mod Dispatch
pub mod Reads
pub mod Conservation
pub mod Flushed
pub mod Idle
mod Tests
use tuzy.Shared.{
  ℕ, ◌+◌, ◌/◌, ◌%◌, ◌^◌, Bool, true, false, ◌&&◌, ◌||◌, not, Option, none, some, List, [], ◌∷◌,
  ◌++◌, ltb, leb, ◌==◌, if◌then◌else◌, length,
}
use Prim.Native.String.{String}
use text.Mathlib.Text.{◌==◌ as str_eq}
use tuzy.Protocol.{
  Bytes, FrameType, Frame, Codecs, Result, ok, err, malformed, stream_error, Violation, conn_window,
  req_head, req_body, req_end, window, goaway, reset, ws_text, ws_binary, ws_close, ack,
}
use tuzy.Protocol.Decode.{decode}
use tuzy.Tunnel.Flow.{Credit, new_credit, add}
use tuzy.Tunnel.Calls.{
  Call, grants, flushes, sends_ctrl, sends_data, CtrlFrame, window_frame, reset_frame,
  protocol_error, DataFrame, CloseMsg,
}
use tuzy.Tunnel.CloseReason.{ascii_bytes}
use tuzy.Tunnel.Http.{HttpStream, new_http_stream, http_on_frame, HttpEvent, http_step}
use tuzy.Tunnel.Ws.{WsStream, new_ws_stream, ws_on_frame, local_close}
use tuzy.Tunnel.Ws.Pumps.{WsEvent, ws_step}

-- `ReqHeadMsg`
pub record ReqHead : Type 0 where
  pub method : String
  pub path : String
  pub headers : List (String × String)
  pub remote_ip : String
  pub kind : String

-- `GoawayMsg`
pub record Goaway : Type 0 where
  pub reason : String
  pub new_name : String
  pub text : String

-- What the session uses of the Go library: the codec's, and `json.Unmarshal` into three messages.
pub record Json : Type 0 where
  pub codecs : Codecs
  pub req_head_of : Bytes → Option ReqHead
  pub goaway_of : Bytes → Option Goaway
  pub close_of : Bytes → Option CloseMsg

-- `streamHandler`
pub data Stream : Type 0 where
  http : HttpStream → Stream
  ws : WsStream → Stream

pub record Handler : Type 0 where
  pub id : ℕ
  pub listed : Bool
  pub stream : Stream

-- Why `readLoop` ends the session.
pub data Cause : Type 0 where
  read_failed unexpected_text heartbeat : Cause
  bad_frame : Violation → Cause
  stale_id window_overflow bad_goaway : Cause
  unexpected_frame : FrameType → Cause

-- `session`: the state under its lock, the connection's send credit, the frames given to its two
-- queues in their order, and the cause that `cancel` keeps.
pub record Session : Type 0 where
  pub handlers : List Handler
  pub max_seen : ℕ
  pub conn_ungranted : ℕ
  pub flushing : ℕ
  pub goaway_msg : Option Goaway
  pub conn_credit : Credit
  pub ctrl : List CtrlFrame
  pub data_frames : List DataFrame
  pub cause : Option Cause

-- `newSession`
unfoldable pub new_session : Session
unfolding new_credit
new_session = record {
  handlers = [];
  max_seen = 0;
  conn_ungranted = 0;
  flushing = 0;
  goaway_msg = none;
  conn_credit = new_credit conn_window;
  ctrl = [];
  data_frames = [];
  cause = none;
}

-- `len(s.streams)`
unfoldable pub live : List Handler → ℕ
live [] = 0
live (h ∷ hs) = (if h.listed then 1 else 0) + live hs

-- `sendCtrl`, while the session is not over: after that a frame may be given up.
unfoldable pub send_ctrl : CtrlFrame → Session → Session
send_ctrl f s = record s { ctrl = s.ctrl ++ f ∷ [] }

-- The grant of `grantConn` and `flushConn`, once the lock is released.
unfoldable pub send_grant : ℕ → Session → Session
unfolding send_ctrl
send_grant n s = if ltb 0 n then send_ctrl (window_frame 0 (n % 2 ^ 32)) s else s

-- `grantConn`
unfoldable pub grant_conn : ℕ → Session → Session
unfolding send_grant
grant_conn n s =
    let total : ℕ = s.conn_ungranted + n in
    if leb (conn_window / 4) total || live s.handlers == 0
    then send_grant total (record s { conn_ungranted = 0 })
    else record s { conn_ungranted = total }

-- `flushConn`
unfoldable pub flush_conn : Session → Session
unfolding send_grant
flush_conn s = send_grant s.conn_ungranted (record s { conn_ungranted = 0 })

-- The calls of a stream.
unfoldable pub perform : List Call → Session → Session
unfolding send_ctrl
perform [] s = s
perform (grants n ∷ cs) s = perform cs (grant_conn n s)
perform (flushes ∷ cs) s = perform cs (flush_conn s)
perform (sends_ctrl f ∷ cs) s = perform cs (send_ctrl f s)
perform (sends_data f ∷ cs) s = perform cs (record s { data_frames = s.data_frames ++ f ∷ [] })

-- The handler of an id in the map `s.streams`.
unfoldable pub find_stream : ℕ → List Handler → Option Stream
find_stream id [] = none
find_stream id (h ∷ hs) = if h.id == id && h.listed then some h.stream else find_stream id hs

-- The handler of an id, in the map or not.
unfoldable pub find_object : ℕ → List Handler → Option Stream
find_object id [] = none
find_object id (h ∷ hs) = if h.id == id then some h.stream else find_object id hs

unfoldable pub put_object : ℕ → Stream → List Handler → List Handler
put_object id st [] = []
put_object id st (h ∷ hs) =
    if h.id == id then record h { stream = st } ∷ hs else h ∷ put_object id st hs

unfoldable pub unlist : ℕ → List Handler → List Handler
unlist id [] = []
unlist id (h ∷ hs) = if h.id == id then record h { listed = false } ∷ hs else h ∷ unlist id hs

-- A stream after a step of it, and its calls on the session.
unfoldable pub after_step : ℕ → Stream × List Call → Session → Session
after_step id (st, cs) s = perform cs (record s { handlers = put_object id st s.handlers })
