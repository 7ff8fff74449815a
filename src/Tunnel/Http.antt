-- ===== src/Tunnel/Http.antt =====
-- internal/tunnel/http_stream.go: the request side of `httpStream`. `onFrame` runs on the session's
-- reader, `feed` on a goroutine of its own; each critical section of `feed` is a step of it, so that
-- frames may come in between.
pub mod Accounts
pub mod Delivery
pub mod Drain
pub mod Window
mod Tests
use tuzy.Shared.{
  ℕ, ◌+◌, ◌-◌, ◌/◌, ◌%◌, ◌^◌, Bool, true, false, Option, none, some, List, [], ◌∷◌, ◌++◌, ltb, leb,
  ◌==◌, if◌then◌else◌, length, take, ◌&&◌, ◌||◌, not,
}
use tuzy.Protocol.{Bytes, FrameType, Frame, stream_window, req_body, req_end, window, reset}
use tuzy.Tunnel.Flow.{Credit, new_credit, add}
use tuzy.Tunnel.Calls.{Call, grants, flushes, sends_ctrl, window_frame, reset_frame, flow_control}

-- Where `feed` stands: before the lock of its loop; with a chunk to write to the pipe; with a chunk to
-- return credit for; on its way out; returned.
pub data Feeder : Type 0 where
  looking leaving finished : Feeder
  writing granting : Bytes → Feeder

-- `httpStream`, the local variables `discard` and `ungranted` of `feed`, and what the local app has
-- read from the pipe.
pub record HttpStream : Type 0 where
  pub cancelled : Bool
  pub send_credit : Credit
  pub queue : List Bytes
  pub queued : ℕ
  pub req_ended : Bool
  pub fed : Bool
  pub feeder : Feeder
  pub discard : Bool
  pub ungranted : ℕ
  pub written : Bytes
  pub pipe_ended : Bool

-- `newHTTPStream`, with `feed` started by `run`.
unfoldable pub new_http_stream : HttpStream
unfolding new_credit
new_http_stream = record {
  cancelled = false;
  send_credit = new_credit stream_window;
  queue = [];
  queued = 0;
  req_ended = false;
  fed = false;
  feeder = looking;
  discard = false;
  ungranted = 0;
  written = [];
  pipe_ended = false;
}

-- `onFrame` on REQ_BODY.
unfoldable pub on_req_body : ℕ → HttpStream → Bytes → HttpStream × List Call
on_req_body id h payload =
    if h.fed
    then (h, grants (length payload) ∷ [])
    else if ltb stream_window (h.queued + length payload)
    then (
      record h { cancelled = true },
      grants (length payload) ∷ sends_ctrl (reset_frame id flow_control) ∷ [],
    )
    else (record h { queue = h.queue ++ payload ∷ []; queued = h.queued + length payload }, [])

-- `onFrame` on WINDOW; none is a connection error.
on_window : HttpStream → Option Credit → Option (HttpStream × List Call)
on_window h none = none
on_window h (some c) = some (record h { send_credit = c }, [])

-- `onFrame`
unfoldable pub http_on_frame : ℕ → HttpStream → Frame → Option (HttpStream × List Call)
unfolding on_window
http_on_frame id h f = elim f.type [
  | req_body ↦ some (on_req_body id h f.payload)
  | req_end ↦ some (record h { req_ended = true }, [])
  | window ↦ on_window h (add h.send_credit f.value)
  | reset ↦ some (record h { cancelled = true }, [])
  | _ ↦ some (h, [])
]

-- The end of a write to the pipe: taken whole by the local app, or the pipe was closed after some
-- bytes.
pub data Written : Type 0 where
  whole : Written
  closed_after : ℕ → Written

-- The lock at the head of the loop of `feed`: take a chunk, leave, or wait.
unfoldable pub look : HttpStream → List Bytes → HttpStream
look h (chunk ∷ rest) = record h { queue = rest; feeder = writing chunk }
look h [] =
    if h.req_ended
    then record h { feeder = leaving; pipe_ended = true }
    else if h.cancelled
    then record h { feeder = leaving }
    else h

-- `pw.Write`, unless the body is discarded, and the second lock.
unfoldable pub write_chunk : HttpStream → Bytes → Written → HttpStream
write_chunk h chunk w =
    let h' : HttpStream = record h { queued = h.queued - length chunk; feeder = granting chunk } in
    if h.discard then h' else elim w [
      | whole ↦ record h' { written = h.written ++ chunk }
      | closed_after n ↦ record h' { written = h.written ++ take n chunk; discard = true }
    ]

-- The credit for a chunk: at once to the connection, by quarters of a window to the stream.
unfoldable pub grant_chunk : ℕ → HttpStream → Bytes → HttpStream × List Call
grant_chunk id h chunk =
    let n : ℕ = h.ungranted + length chunk in
    if leb (stream_window / 4) n
    then (
      record h { ungranted = 0; feeder = looking },
      grants (length chunk) ∷ sends_ctrl (window_frame id (n % 2 ^ 32)) ∷ [],
    )
    else (record h { ungranted = n; feeder = looking }, grants (length chunk) ∷ [])

-- The deferred function of `feed`: what is left in the queue is dropped and its credit returned.
unfoldable pub leave : HttpStream → HttpStream × List Call
leave h =
    let h' : HttpStream = record h { queue = []; queued = 0; fed = true; feeder = finished } in
    if ltb 0 h.queued then (h', grants h.queued ∷ flushes ∷ []) else (h', flushes ∷ [])

-- One step of `feed`. The argument says how the write ends, if this is one.
unfoldable pub feed_step : ℕ → HttpStream → Written → HttpStream × List Call
unfolding write_chunk grant_chunk leave
feed_step id h w = elim h.feeder [
  | looking ↦ (look h h.queue, [])
  | writing chunk ↦ (write_chunk h chunk w, [])
  | granting chunk ↦ grant_chunk id h chunk
  | leaving ↦ leave h
  | finished ↦ (h, [])
]

-- What can happen to the stream: a frame from the edge, a step of `feed`, the end of its context
-- (`abort`, or `run` returning).
pub data HttpEvent : Type 0 where
  frame_in : Frame → HttpEvent
  feeds : Written → HttpEvent
  cancels : HttpEvent

-- A frame that `onFrame` answers with an error changes nothing here; the session ends.
unfoldable pub or_same : HttpStream → Option (HttpStream × List Call) → HttpStream × List Call
or_same h none = (h, [])
or_same h (some r) = r

unfoldable pub http_step : ℕ → HttpStream → HttpEvent → HttpStream × List Call
unfolding http_on_frame feed_step or_same
http_step id h (frame_in f) = or_same h (http_on_frame id h f)
http_step id h (feeds w) = feed_step id h w
http_step id h cancels = (record h { cancelled = true }, [])

-- A history of the stream, with all the calls on the session.
unfoldable pub http_run : ℕ → HttpStream → List HttpEvent → HttpStream × List Call
http_run id h [] = (h, [])
http_run id h (e ∷ es) =
    let after = http_step id h e in let rest = http_run id after.0 es in (rest.0, after.1 ++ rest.1)
