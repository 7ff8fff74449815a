-- ===== src/Tunnel/Session/Steps.antt =====
-- internal/tunnel/session.go: `removeStream`, the end of `run`, and the session's histories: messages
-- read and steps of the streams' goroutines, in any order.
use tuzy.Shared.{
  ◌+◌, ◌-◌, ℕ, Bool, true, false, Option, none, some, List, [], ◌∷◌, ◌==◌, if◌then◌else◌,
}
use tuzy.Tunnel.Calls.{Call}
use tuzy.Tunnel.Http.{Written, feed_step}
use tuzy.Tunnel.Ws.Pumps.{LocalRead, edge_step, local_step}
use tuzy.Tunnel.Session.{
  Json, Stream, http, ws, Handler, Cause, Session, live, flush_conn, find_object, put_object,
  unlist, after_step,
}
use tuzy.Tunnel.Session.Reader.{Message, read_message}

-- `removeStream` under the lock of the map. `flushing` counts the goroutines that found the map empty and are to
-- flush, once they have left that lock.
unfoldable pub remove_stream : ℕ → Session → Session
remove_stream id s =
    let s' : Session = record s { handlers = unlist id s.handlers } in
    if live s'.handlers == 0 then record s' { flushing = s'.flushing + 1 } else s'

-- The `flushConn` of such a goroutine.
unfoldable pub flush_idle : Session → Session
flush_idle s = if s.flushing == 0 then s else flush_conn (record s { flushing = s.flushing - 1 })

-- The `cancel` of a stream.
unfoldable pub cancel_stream : Stream → Stream
cancel_stream (http h) = http (record h { cancelled = true })
cancel_stream (ws w) = ws (record w { cancelled = true })

-- The deferred calls when the stream's `run` returns.
abbrev pub end_object : ℕ → Session → Option Stream → Session
end_object id s none = s
end_object id s (some st) =
    remove_stream id (record s { handlers = put_object id (cancel_stream st) s.handlers })

unfoldable pub end_stream : ℕ → Session → Session
end_stream id s = end_object id s (find_object id s.handlers)

-- The end of the session's `run`: the map is emptied and every handler aborted.
unfoldable pub abort_all : List Handler → List Handler
abort_all [] = []
abort_all (h ∷ hs) =
    (if h.listed then record h { listed = false; stream = cancel_stream h.stream } else h)
    ∷ abort_all hs

-- What a goroutine of a stream does next.
pub data Go : Type 0 where
  feeds : Written → Go
  pumps_edge : Bool → Go
  pumps_local : LocalRead → Go

-- A stream has the goroutines of its kind.
unfoldable pub stream_goes : ℕ → Stream → Go → Stream × List Call
stream_goes id (http h) (feeds w) = let (h', cs) = feed_step id h w in (http h', cs)
stream_goes id (ws w) (pumps_edge written) = let (w', cs) = edge_step id w written in (ws w', cs)
stream_goes id (ws w) (pumps_local r) = let (w', cs) = local_step id w r in (ws w', cs)
stream_goes id st _ = (st, [])

pub data Event : Type 0 where
  reads : Message → Event
  goes : ℕ → Go → Event
  ends : ℕ → Event
  flushes_idle aborts : Event

abbrev pub goes_object : ℕ → Go → Session → Option Stream → Session
goes_object id g s none = s
goes_object id g s (some st) = after_step id (stream_goes id st g) s

-- `readLoop` stands still once it has ended the session.
abbrev pub while_live {ℓ} : {A : Type ℓ} → Option Cause → A → A → A
while_live none stopped live' = live'
while_live (some _) stopped live' = stopped

unfoldable pub step : Json → Session → Event → Session
step js s (reads m) = while_live s.cause s (read_message js m s)
step js s (goes id g) = goes_object id g s (find_object id s.handlers)
step js s (ends id) = end_stream id s
step js s flushes_idle = flush_idle s
step js s aborts = record s { handlers = abort_all s.handlers }

unfoldable pub run : Json → Session → List Event → Session
run js s [] = s
run js s (e ∷ es) = run js (step js s e) es
