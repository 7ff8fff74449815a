-- ===== src/Tunnel/Flow/Bounds.antt =====
-- Flow control (protocol/PROTOCOL.md §4.1): what is sent is covered by credit, whatever the rest of
-- the agent does meanwhile.
use tuzy.Shared.{◌++◌, ℕ, ◌+◌, ◌≤◌, ◌≡◌, refl, List, [], ◌∷◌, length, take, arith, length-take}
use tuzy.Protocol.{Bytes}
use tuzy.Tunnel.Flow.{
  and_then, send_piece, queued_frame, add, Change, grant_stream, grant_conn, take_conn, Event,
  woken, timer, done, session_over, Sender, change, changes, Outcome, gives, fails, waits, stuck,
  acquire, send_data,
}

-- The bytes that the edge grants in a schedule, on the stream and on the connection.
abbrev pub stream_granted : List Change → ℕ
stream_granted [] = 0
stream_granted (grant_stream n ∷ cs) = n + stream_granted cs
stream_granted (_ ∷ cs) = stream_granted cs

abbrev pub conn_granted : List Change → ℕ
conn_granted [] = 0
conn_granted (grant_conn n ∷ cs) = n + conn_granted cs
conn_granted (_ ∷ cs) = conn_granted cs

abbrev pub stream_grants : List Event → ℕ
stream_grants [] = 0
stream_grants (woken cs ∷ es) = stream_granted cs + stream_grants es
stream_grants (_ ∷ es) = stream_grants es

abbrev pub conn_grants : List Event → ℕ
conn_grants [] = 0
conn_grants (woken cs ∷ es) = conn_granted cs + conn_grants es
conn_grants (_ ∷ es) = conn_grants es

-- From one state to a later one: the bytes taken or sent, with the credit that is left, are at most
-- the credit that there was with the grants between.
abbrev pub Spends : ℕ → Sender → List Event → Sender → List Event → Type 0
Spends k s es s' es' =
    (s'.total + k + s'.stream.avail + stream_grants es'
      ≤ s.total + s.stream.avail + stream_grants es)
    × (s'.total + k + s'.conn.avail + conn_grants es' ≤ s.total + s.conn.avail + conn_grants es)

pub changes-Spends :
    (s : Sender) (cs : List Change)
    → ((changes s cs).total ≡ s.total)
      × ((changes s cs).frames ≡ s.frames)
      × ((changes s cs).stream.avail ≤ s.stream.avail + stream_granted cs)
      × ((changes s cs).conn.avail ≤ s.conn.avail + conn_granted cs)
unfolding changes add
changes-Spends s [] = (refl, refl, omega arith, omega arith)
changes-Spends s (grant_stream n ∷ cs) =
    ground (arith, changes-Spends (change s (grant_stream n)) cs)
changes-Spends s (grant_conn n ∷ cs) = ground (arith, changes-Spends (change s (grant_conn n)) cs)
changes-Spends s (take_conn n ∷ cs) = ground (arith, changes-Spends (change s (take_conn n)) cs)

-- What `acquire` does: it takes at least a byte and at most as many as are wanted, and pays for them
-- from both counters; it queues nothing.
abbrev Taken : Sender → List Event → ℕ → Outcome ℕ → Type 0
Taken s es want (gives k s' es') =
    Spends k s es s' es' × (1 ≤ k) × (k ≤ want) × (s'.total ≡ s.total) × (s'.frames ≡ s.frames)
Taken s es want (fails _ s') = (s'.total ≡ s.total) × (s'.frames ≡ s.frames)
Taken s es want (waits s') = (s'.total ≡ s.total) × (s'.frames ≡ s.frames)
Taken s es want stuck = ⊥

-- The counters change while a call waits or a frame is queued; the frames do not.
acquire-Taken : (es : List Event) (s : Sender) (want : ℕ) → Taken s es want (acquire es s want)
unfolding acquire
acquire-Taken [] s want = ground arith
acquire-Taken (woken cs ∷ es) s want =
    ground (arith, changes-Spends s cs, acquire-Taken es (changes s cs) want)
acquire-Taken (timer ∷ es) s want = ground arith
acquire-Taken (done ∷ es) s want = ground arith
acquire-Taken (session_over ∷ es) s want = ground arith

-- `send_data` queues its frame, or ends with nothing queued.
abbrev Queued : Sender → List Event → Bytes → Outcome (Unit {0}) → Type 0
Queued s es p (gives _ s' es') =
    (s'.stream.avail + stream_grants es' ≤ s.stream.avail + stream_grants es)
    × (s'.conn.avail + conn_grants es' ≤ s.conn.avail + conn_grants es)
    × (s'.total ≡ s.total + length p)
    × (s'.frames ≡ s.frames ++ p ∷ [])
Queued s es p (fails _ s') = (s'.total ≡ s.total) × (s'.frames ≡ s.frames)
Queued s es p (waits s') = (s'.total ≡ s.total) × (s'.frames ≡ s.frames)
Queued s es p stuck = ⊥

send_data-Queued : (es : List Event) (p : Bytes) (s : Sender) → Queued s es p (send_data es p s)
unfolding send_data
send_data-Queued [] p s = (refl, refl)
send_data-Queued (woken cs ∷ es) p s = ground (arith, changes-Spends (queued_frame p s) cs)
send_data-Queued (timer ∷ es) p s = send_data-Queued es p s
send_data-Queued (done ∷ es) p s = (refl, refl)
send_data-Queued (session_over ∷ es) p s = (refl, refl)

-- One round sends a first part of the bytes, at least one of them, as one frame.
abbrev pub Piece : Sender → List Event → Bytes → Outcome ℕ → Type 0
Piece s es buf (gives k s' es') =
    Spends 0 s es s' es'
    × (1 ≤ k)
    × (k ≤ length buf)
    × (s'.total ≡ s.total + k)
    × (s'.frames ≡ s.frames ++ take k buf ∷ [])
Piece s es buf (fails _ s') = (s'.total ≡ s.total) × (s'.frames ≡ s.frames)
Piece s es buf (waits s') = (s'.total ≡ s.total) × (s'.frames ≡ s.frames)
Piece s es buf stuck = ⊥

queue-Piece :
    (s : Sender) (es : List Event) (buf : Bytes) (k : ℕ) (s' : Sender) (es' : List Event)
    (o : Outcome (Unit {0}))
    → Taken s es (length buf) (gives k s' es')
    → Queued s' es' (take k buf) o
    → Piece s es buf (and_then o (λ _ s'' es''. gives k s'' es''))
queue-Piece s es buf k s' es' (gives _ s'' es'') t q = ground (arith, length-take k buf)
queue-Piece s es buf k s' es' (fails e s'') t q = ground arith
queue-Piece s es buf k s' es' (waits s'') t q = ground arith
queue-Piece s es buf k s' es' stuck t q = q

pub send_piece-Piece :
    (buf : Bytes) (s : Sender) (es : List Event) → Piece s es buf (send_piece buf s es)
unfolding send_piece
send_piece-Piece buf s es = after (acquire es s (length buf)) (acquire-Taken es s (length buf))
  where
    after :
        (o : Outcome ℕ)
        → Taken s es (length buf) o
        → Piece s es buf (
            and_then o (λ k s' es'.
              and_then (send_data es' (take k buf) s') (λ _ s'' es''. gives k s'' es'')))
    after (gives k s' es') t =
        queue-Piece s es buf k s' es' _ t (send_data-Queued es' (take k buf) s')
    after (fails e s') t = t
    after (waits s') t = t
    after stuck t = t
