-- ===== src/Tunnel/Session/Conservation.antt =====
-- The receive credit of a connection over a history of its session.
use tuzy.Shared.{if_both, ◌-◌, ℕ, ◌+◌, ◌≡◌, refl, Option, none, some, List, [], ◌∷◌, arith, ◌==◌}
use tuzy.Tunnel.Session.{
  Session, Stream, Json, find_object, put_object, unlist, live, flush_conn, Cause, new_session,
}
use tuzy.Tunnel.Session.Reader.{Message, read_message}
use tuzy.Tunnel.Session.Steps.{
  while_live, flushes_idle, flush_idle, remove_stream, cancel_stream, end_object, end_stream,
  abort_all, Go, stream_goes, Event, reads, goes, ends, aborts, goes_object, step, run,
}
use tuzy.Tunnel.Session.Calls.{IsCoalesced, granted, flush_conn-Credits}
use tuzy.Tunnel.Session.Objects.{
  owed_all, find_object-IsSound, unlist-AreSound, owed-unlist, cancel_stream-IsSound,
  abort_all-AreSound,
}
use tuzy.Tunnel.Session.Streams.{stream_goes-Steps}
use tuzy.Tunnel.Session.Balance.{
  IsValid, Takes, Takes-refl, Takes-trans, Credits-Takes, same_owed-Takes, after_step-Takes,
}
use tuzy.Tunnel.Session.Reads.{body_read, put_same-Takes, read_message-Takes}

-- The bytes of request body that an event brings in: a message counts if it is read.
abbrev pub arrived : Json → Session → Event → ℕ
arrived js s (reads m) = while_live s.cause 0 (body_read js m)
arrived js s _ = 0

-- The bytes of request body in a history.
abbrev pub arrivals : Json → Session → List Event → ℕ
arrivals js s [] = 0
arrivals js s (e ∷ es) = arrived js s e + arrivals js (step js s e) es

remove_stream-Takes : (id : ℕ) (s : Session) → IsValid s → Takes 0 s (remove_stream id s)
unfolding remove_stream
remove_stream-Takes id s v =
    let s' : Session = record s { handlers = unlist id s.handlers } in
    let streams = unlist-AreSound id (s.max_seen + 1) s.handlers v.streams in
    if_both (Takes 0 s) (live s'.handlers == 0) (record s' { flushing = s.flushing + 1 }) s'
      (same_owed-Takes s (record s' { flushing = s.flushing + 1 }) v streams
        (owed-unlist id s.handlers) refl refl)
      (same_owed-Takes s s' v streams (owed-unlist id s.handlers) refl refl)

flush_idle-Takes : (s : Session) → IsValid s → Takes 0 s (flush_idle s)
unfolding flush_idle
flush_idle-Takes s v =
    let s' : Session = record s { flushing = s.flushing - 1 } in
    let k = same_owed-Takes s s' v v.streams refl refl refl in
    if_both (Takes 0 s) (s.flushing == 0) s (flush_conn s') (Takes-refl s v) (
      Takes-trans 0 0 s s' (flush_conn s') k
        (Credits-Takes 0 s' (flush_conn s') k.valid (flush_conn-Credits s' v.waiting)))

-- The end of a stream's goroutines, and of the session's.
end_object-Takes :
    (id : ℕ) (s : Session) (o : Option Stream)
    → find_object id s.handlers ≡ o
    → IsValid s
    → Takes 0 s (end_object id s o)
end_object-Takes id s none e v = Takes-refl s v
end_object-Takes id s (some st) e v =
    let (p, d) = find_object-IsSound id (s.max_seen + 1) s.handlers st v.streams e in
    let (d', o) = cancel_stream-IsSound st d in
    let k = put_same-Takes id st (cancel_stream st) s v e d' o in
    let s' : Session = record s { handlers = put_object id (cancel_stream st) s.handlers } in
    Takes-trans 0 0 s s' (remove_stream id s') k (remove_stream-Takes id s' k.valid)

aborts-Takes : (s : Session) → IsValid s → Takes 0 s (record s { handlers = abort_all s.handlers })
aborts-Takes s v =
    let (a, o) = abort_all-AreSound (s.max_seen + 1) s.handlers v.streams in
    same_owed-Takes s (record s { handlers = abort_all s.handlers }) v a o refl refl

goes_object-Takes :
    (id : ℕ) (g : Go) (s : Session) (o : Option Stream)
    → find_object id s.handlers ≡ o
    → IsValid s
    → Takes 0 s (goes_object id g s o)
goes_object-Takes id g s none e v = Takes-refl s v
goes_object-Takes id g s (some st) e v =
    let (p, d) = find_object-IsSound id (s.max_seen + 1) s.handlers st v.streams e in
    after_step-Takes id 0 st (stream_goes id st g) s v e (stream_goes-Steps id st g p d)

while_live-Takes :
    (js : Json) (m : Message) (s : Session) (o : Option Cause)
    → IsValid s
    → Takes (while_live o 0 (body_read js m)) s (while_live o s (read_message js m s))
while_live-Takes js m s none v = read_message-Takes js m s v
while_live-Takes js m s (some c) v = Takes-refl s v

step-Takes :
    (js : Json) (s : Session) (e : Event) → IsValid s → Takes (arrived js s e) s (step js s e)
unfolding step end_stream
step-Takes js s (reads m) v = while_live-Takes js m s s.cause v
step-Takes js s (goes id g) v = goes_object-Takes id g s (find_object id s.handlers) refl v
step-Takes js s (ends id) v = end_object-Takes id s (find_object id s.handlers) refl v
step-Takes js s flushes_idle v = flush_idle-Takes s v
step-Takes js s aborts v = aborts-Takes s v

-- From any valid state and over any history the session stays valid, and the connection's credit
-- balances.
pub run-Takes :
    (js : Json) (s : Session) (es : List Event)
    → IsValid s
    → Takes (arrivals js s es) s (run js s es)
unfolding run
run-Takes js s [] v = Takes-refl s v
run-Takes js s (e ∷ es) v =
    let a = step-Takes js s e v in
    Takes-trans (arrived js s e) (arrivals js (step js s e) es) s (step js s e)
      (run js (step js s e) es) a (run-Takes js (step js s e) es a.valid)

new-IsValid : IsValid new_session
unfolding new_session
new-IsValid = record { streams = tt; waiting = omega arith }

-- Whatever messages come and in whatever order the goroutines run: the ids of the streams strictly fall
-- from the newest, which is at most the highest id seen, to the oldest, so no two streams have one id;
-- the counters of each HTTP stream are consistent, with at most a window queued; each WebSocket
-- stream keeps within its message credits; and less than a quarter of the connection's window waits
-- to be granted.
pub run-IsValid : (js : Json) (es : List Event) → IsValid (run js new_session es)
run-IsValid js es = (run-Takes js new_session es new-IsValid).valid

-- Over the life of a session, whatever messages come and in whatever order its goroutines run, the
-- connection credit that was granted to the edge, that is gathered and not yet granted, and that the
-- streams owe for bytes that they hold, is just the number of bytes of request body that were read.
-- Less than a quarter of the connection's window is ever gathered.
pub run_conserves :
    (js : Json) (es : List Event)
    → let s = run js new_session es in
      (granted s.ctrl + s.conn_ungranted + owed_all s.handlers ≡ arrivals js new_session es)
      × IsCoalesced s
run_conserves js es =
    let k = run-Takes js new_session es new-IsValid in
    (unfold new_session in omega (arith, k.balance), k.valid.waiting)
