-- ===== src/Tunnel/Session/Idle.antt =====
-- The connection's receive credit while no stream is open.
use tuzy.Shared.{◌-◌, ◌==◌, if_both, ℕ, ◌+◌, ◌≡◌, Option, none, some, List, [], ◌∷◌, arith}
use tuzy.Tunnel.Session.{Session, Stream, Json, live, find_object, Cause, new_session}
use tuzy.Tunnel.Session.Reader.{Message, read_message}
use tuzy.Tunnel.Session.Steps.{
  remove_stream, end_object, end_stream, Go, stream_goes, goes_object, while_live, Event, reads,
  goes, ends, aborts, flushes_idle, flush_idle, step, run,
}
use tuzy.Tunnel.Session.Calls.{granted}
use tuzy.Tunnel.Session.Objects.{owed_all}
use tuzy.Tunnel.Session.Conservation.{arrivals, run_conserves}
use tuzy.Tunnel.Session.Flushed.{
  IsFlushed, flush_conn-IsFlushed, after_step-IsFlushed, read_message-IsFlushed,
}

remove_stream-IsFlushed : (id : ℕ) (s : Session) → IsFlushed (remove_stream id s)
unfolding remove_stream
remove_stream-IsFlushed id s = ground arith

flush_idle-IsFlushed : (s : Session) → IsFlushed s → IsFlushed (flush_idle s)
unfolding flush_idle
flush_idle-IsFlushed s q =
    if_both IsFlushed (s.flushing == 0) s _ q
      (flush_conn-IsFlushed (record s { flushing = s.flushing - 1 }))

end_object-IsFlushed :
    (id : ℕ) (s : Session) (o : Option Stream) → IsFlushed s → IsFlushed (end_object id s o)
end_object-IsFlushed id s none q = q
end_object-IsFlushed id s (some st) q = remove_stream-IsFlushed id _

goes_object-IsFlushed :
    (id : ℕ) (g : Go) (s : Session) (o : Option Stream)
    → IsFlushed s
    → IsFlushed (goes_object id g s o)
goes_object-IsFlushed id g s none q = q
goes_object-IsFlushed id g s (some st) q = after_step-IsFlushed id (stream_goes id st g) s q

while_live-IsFlushed :
    (js : Json) (m : Message) (s : Session) (o : Option Cause)
    → IsFlushed s
    → IsFlushed (while_live o s (read_message js m s))
while_live-IsFlushed js m s none q = read_message-IsFlushed js m s q
while_live-IsFlushed js m s (some c) q = q

-- A history in which the session is not at its end.
abbrev pub IsRunning : List Event → Type 0
IsRunning [] = Unit {0}
IsRunning (aborts ∷ es) = ⊥
IsRunning (_ ∷ es) = IsRunning es

run-IsFlushed :
    (js : Json) (s : Session) (es : List Event)
    → IsRunning es
    → IsFlushed s
    → IsFlushed (run js s es)
unfolding run step end_stream
run-IsFlushed js s [] n q = q
run-IsFlushed js s (reads m ∷ es) n q =
    run-IsFlushed js (step js s (reads m)) es n (while_live-IsFlushed js m s s.cause q)
run-IsFlushed js s (goes id g ∷ es) n q =
    run-IsFlushed js (step js s (goes id g)) es n
      (goes_object-IsFlushed id g s (find_object id s.handlers) q)
run-IsFlushed js s (ends id ∷ es) n q =
    run-IsFlushed js (step js s (ends id)) es n
      (end_object-IsFlushed id s (find_object id s.handlers) q)
run-IsFlushed js s (flushes_idle ∷ es) n q =
    run-IsFlushed js (flush_idle s) es n (flush_idle-IsFlushed s q)
run-IsFlushed js s (aborts ∷ es) n q = absurd n

-- While the session is not at its end, whenever no stream is in the map and each goroutine that found it empty has
-- flushed: the connection credit granted
-- to the edge is all that it spent on request bodies, except for the bytes that goroutines of ended
-- streams still hold. None is gathered to be granted later.
pub run_idle :
    (js : Json) (es : List Event)
    → IsRunning es
    → live (run js new_session es).handlers ≡ 0
    → (run js new_session es).flushing ≡ 0
    → (granted (run js new_session es).ctrl + owed_all (run js new_session es).handlers
        ≡ arrivals js new_session es)
      × ((run js new_session es).conn_ungranted ≡ 0)
run_idle js es n l f =
    let q = run-IsFlushed js new_session es n (unfold new_session in ground arith) in
    let (b, _) = run_conserves js es in
    let z : (run js new_session es).conn_ungranted ≡ 0 = ground (arith, q, l, f) in
    (omega (arith, b, z), z)
