-- ===== src/Tunnel/Flow.antt =====
-- internal/tunnel/flow.go: the credit counters, and `sendBody` of internal/tunnel/session.go, which
-- sends under them.
-- A lock's critical section is one step. What happens while a call waits is a schedule: a list of
-- events, each with what the rest of the agent did to the counters before the call went on.
-- The counters are never negative, so an int64 is a number here; `want` is positive at every call.
pub mod Bounds
pub mod Body
pub mod Complete
pub mod Counters
mod Tests
use tuzy.Shared.{
  ℕ, zero, suc, ◌+◌, ◌-◌, ◌≡◌, Option, none, some, List, [], ◌∷◌, ◌++◌, ltb, if◌then◌else◌, length,
  take, drop, min, Bool, true, false,
}
use tuzy.Protocol.{Bytes, max_window, max_body_chunk, ws_msg_credit}

-- `credit`. The channel `changed` only wakes the waiters.
pub record Credit : Type 0 where
  pub avail : ℕ

unfoldable pub new_credit : ℕ → Credit
new_credit n = record { avail = n }

-- `add`: none is `errWindowOverflow`.
unfoldable pub add : Credit → ℕ → Option Credit
add c n = if ltb max_window (c.avail + n) then none else some (record { avail = c.avail + n })

-- What other goroutines do to the two counters of a sender: grants of the edge, and bytes that other
-- streams take from the connection's credit.
pub data Change : Type 0 where
  grant_stream grant_conn take_conn : ℕ → Change

-- What ends a wait: a change of a counter or a place in the queue (`woken`), the timer, the
-- stream's context, the session's context.
pub data Event : Type 0 where
  woken : List Change → Event
  timer done session_over : Event

pub data SendError : Type 0 where
  credit_timeout cancelled session_done read_failed : SendError

-- The two counters that a stream sends under, and the payloads of the RES_BODY frames that it has
-- queued, and their total.
pub record Sender : Type 0 where
  pub stream : Credit
  pub conn : Credit
  pub frames : List Bytes
  pub total : ℕ

-- A grant beyond `MaxWindow` changes nothing; it ends the session elsewhere.
added : Credit → Option Credit → Credit
added c none = c
added c (some c') = c'

unfoldable pub change : Sender → Change → Sender
unfolding added add
change s (grant_stream n) = record s { stream = added s.stream (add s.stream n) }
change s (grant_conn n) = record s { conn = added s.conn (add s.conn n) }
change s (take_conn n) = record s { conn = record { avail = s.conn.avail - min n s.conn.avail } }

unfoldable pub changes : Sender → List Change → Sender
unfolding change
changes s [] = s
changes s (c ∷ cs) = changes (change s c) cs

-- One pass of `acquire` with both locks held: the bytes taken, 0 if there are none to take.
unfoldable pub try_acquire : Sender → ℕ → ℕ × Sender
try_acquire s want =
    let n = min want (min s.stream.avail s.conn.avail) in
    if ltb 0 n
    then (
      n,
      record s {
        stream = record { avail = s.stream.avail - n };
        conn = record { avail = s.conn.avail - n };
      },
    )
    else (0, s)

-- How a call ends: with its value, with an error, or not within the schedule.
pub data Outcome {ℓ} (A : Type ℓ) : Type ℓ where
  gives : A → Sender → List Event → Outcome A
  fails : SendError → Sender → Outcome A
  waits : Sender → Outcome A
  stuck : Outcome A

-- `if err != nil { return … }` after a call.
abbrev pub and_then {ℓ κ} :
    {A : Type ℓ} {B : Type κ} → Outcome A → (A → Sender → List Event → Outcome B) → Outcome B
and_then (gives a s es) f = f a s es
and_then (fails e s) f = fails e s
and_then (waits s) f = waits s
and_then stuck f = stuck

-- The end of one pass: the bytes that it took, or what the wait comes to.
settle : ℕ × Sender → List Event → Outcome ℕ → Outcome ℕ
settle (n, s) es blocked = if ltb 0 n then gives n s es else blocked

-- `acquire`. The stream's context ends with the session's.
unfoldable pub acquire : List Event → Sender → ℕ → Outcome ℕ
unfolding try_acquire settle
acquire [] s want = settle (try_acquire s want) [] (waits s)
acquire (woken cs ∷ es) s want =
    let rest = acquire es (changes s cs) want in settle (try_acquire s want) (woken cs ∷ es) rest
acquire (timer ∷ es) s want = settle (try_acquire s want) (timer ∷ es) (fails credit_timeout s)
acquire (done ∷ es) s want = settle (try_acquire s want) (done ∷ es) (fails cancelled s)
acquire (session_over ∷ es) s want =
    settle (try_acquire s want) (session_over ∷ es) (fails cancelled s)

-- `sendData` of a RES_BODY frame: its place in the queue, and the total that `sendBody` counts.
unfoldable pub queued_frame : Bytes → Sender → Sender
queued_frame p s = record s { frames = s.frames ++ p ∷ []; total = s.total + length p }

unfoldable pub send_data : List Event → Bytes → Sender → Outcome (Unit {0})
unfolding queued_frame
send_data [] p s = waits s
send_data (woken cs ∷ es) p s = gives tt (changes (queued_frame p s) cs) es
send_data (timer ∷ es) p s = send_data es p s
send_data (done ∷ es) p s = fails cancelled s
send_data (session_over ∷ es) p s = fails session_done s

-- One round of the inner loop: the bytes that are sent of `buf[off:n]`.
unfoldable pub send_piece : Bytes → Sender → List Event → Outcome ℕ
send_piece buf s es =
    and_then (acquire es s (length buf))
      (λ k s' es'. and_then (send_data es' (take k buf) s') (λ _ s'' es''. gives k s'' es''))

-- The inner loop of `sendBody`, over the bytes `buf[off:n]` that are left. Each round sends a byte
-- at least, so `length` rounds are enough.
unfoldable pub send_chunk : ℕ → Bytes → Sender → List Event → Outcome (Unit {0})
send_chunk fuel [] s es = gives tt s es
send_chunk zero (b ∷ bs) s es = stuck
send_chunk (suc fuel) (b ∷ bs) s es =
    and_then (send_piece (b ∷ bs) s es) (λ k s' es'. send_chunk fuel (drop k (b ∷ bs)) s' es')

-- What the reads of the body give: bytes with no error, or the last bytes with the end of the file
-- or a failure.
pub data Reader : Type 0 where
  reads : Bytes → Reader → Reader
  at_eof read_error : Bytes → Reader

-- `sendBody`
unfoldable pub send_body : Reader → Sender → List Event → Outcome (Unit {0})
send_body (reads p r) s es =
    and_then (send_chunk (length p) p s es) (λ _ s' es'. send_body r s' es')
send_body (at_eof p) s es = send_chunk (length p) p s es
send_body (read_error p) s es =
    and_then (send_chunk (length p) p s es) (λ _ s' es'. fails read_failed s')

-- `msgCredit`
pub record MsgCredit : Type 0 where
  pub outstanding : ℕ

unfoldable pub new_msg_credit : MsgCredit
new_msg_credit = record { outstanding = 0 }

-- One pass of `take`: none if it has to wait for an ACK or the end of its context.
unfoldable pub try_take : MsgCredit → Option MsgCredit
try_take m =
    if ltb m.outstanding ws_msg_credit
    then some (record { outstanding = m.outstanding + 1 })
    else none

-- `ack`: `max(0, outstanding-n)`.
unfoldable pub ack_messages : MsgCredit → ℕ → MsgCredit
ack_messages m n = record { outstanding = m.outstanding - n }
