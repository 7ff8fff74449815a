-- ===== src/Tunnel/Flow/Counters.antt =====
-- The limits that `credit` and `msgCredit` keep.
use tuzy.Shared.{ℕ, ◌+◌, ◌≤◌, ◌<◌, ◌^◌, ◌≡◌, ◌⊎◌, none, some, Option, List, [], ◌∷◌, arith}
use tuzy.Protocol.{max_window, ws_msg_credit}
use tuzy.Tunnel.Flow.{
  Credit, add, Sender, Change, grant_stream, grant_conn, take_conn, change, changes, try_acquire,
  MsgCredit, new_msg_credit, try_take, ack_messages,
}

abbrev pub WithinWindow : Sender → Type 0
WithinWindow s = (s.stream.avail ≤ max_window) × (s.conn.avail ≤ max_window)

-- `add` grants exactly `n` bytes, or refuses a grant that would pass `MaxWindow`; with a counter
-- within the window and an n of 32 bits, the sum that it tests is an int64.
pub add_lem :
    (c : Credit) (n : ℕ)
    → c.avail ≤ max_window
    → n < 2 ^ 32
    → (c.avail + n < 2 ^ 63)
      × (((add c n ≡ some (record { avail = c.avail + n })) × (c.avail + n ≤ max_window))
          ⊎ ((add c n ≡ none) × (max_window < c.avail + n)))
unfolding add
add_lem c n h hn = ground arith

changes-WithinWindow :
    (s : Sender) (cs : List Change) → WithinWindow s → WithinWindow (changes s cs)
unfolding changes add
changes-WithinWindow s [] w = w
changes-WithinWindow s (grant_stream n ∷ cs) w =
    changes-WithinWindow (change s (grant_stream n)) cs (ground arith)
changes-WithinWindow s (grant_conn n ∷ cs) w =
    changes-WithinWindow (change s (grant_conn n)) cs (ground arith)
changes-WithinWindow s (take_conn n ∷ cs) w =
    changes-WithinWindow (change s (take_conn n)) cs (ground arith)

-- A sender's events: what others do, and a pass of `acquire` for some bytes.
pub data Move : Type 0 where
  environment : Change → Move
  takes : ℕ → Move

pub moves : Sender → List Move → Sender
moves s [] = s
moves s (environment c ∷ ms) = moves (change s c) ms
moves s (takes n ∷ ms) = moves (try_acquire s n).1 ms

-- Whatever grants and takes follow one another, neither counter passes `MaxWindow`.
pub moves-WithinWindow : (s : Sender) (ms : List Move) → WithinWindow s → WithinWindow (moves s ms)
unfolding moves try_acquire changes
moves-WithinWindow s [] w = w
moves-WithinWindow s (environment c ∷ ms) w =
    moves-WithinWindow (change s c) ms (changes-WithinWindow s (c ∷ []) w)
moves-WithinWindow s (takes n ∷ ms) w = moves-WithinWindow (try_acquire s n).1 ms (ground arith)

-- Messages of a WebSocket in flight: each is sent after a successful `take`; the edge acknowledges
-- what it likes.
pub data Traffic : Type 0 where
  sends_message : Traffic
  acks : ℕ → Traffic

-- The counter, and the messages sent so far.
pub record Line : Type 0 where
  pub credit : MsgCredit
  pub sent : ℕ

-- A `take` that has to wait sends nothing.
taken : Line → Option MsgCredit → Line
taken l none = l
taken l (some m) = record { credit = m; sent = l.sent + 1 }

pub step : Line → Traffic → Line
unfolding taken try_take ack_messages
step l sends_message = taken l (try_take l.credit)
step l (acks n) = record l { credit = ack_messages l.credit n }

unfoldable pub traffic : Line → List Traffic → Line
traffic l [] = l
traffic l (t ∷ ts) = traffic (step l t) ts

abbrev pub acked : List Traffic → ℕ
acked [] = 0
acked (sends_message ∷ ts) = acked ts
acked (acks n ∷ ts) = n + acked ts

step_bounds :
    (l : Line) (t : Traffic)
    → l.credit.outstanding ≤ ws_msg_credit
    → ((step l t).credit.outstanding ≤ ws_msg_credit)
      × (l.sent + (step l t).credit.outstanding ≤ (step l t).sent + l.credit.outstanding)
      × ((step l t).sent + l.credit.outstanding
          ≤ l.sent + (step l t).credit.outstanding + acked (t ∷ []))
unfolding step
step_bounds l sends_message h = ground arith
step_bounds l (acks n) h = ground arith

traffic_bounds :
    (l : Line) (ts : List Traffic)
    → l.credit.outstanding ≤ ws_msg_credit
    → ((traffic l ts).credit.outstanding ≤ ws_msg_credit)
      × ((traffic l ts).sent + l.credit.outstanding
          ≤ l.sent + (traffic l ts).credit.outstanding + acked ts)
unfolding traffic
traffic_bounds l [] h = omega arith
traffic_bounds l (t ∷ ts) h =
    let (lim, low, high) = step_bounds l t h in
    let (lim', high') = traffic_bounds (step l t) ts lim in
    (lim', more t ts (traffic (step l t) ts) high high')
  where
    more :
        (t : Traffic) (ts : List Traffic) (end : Line)
        → (step l t).sent + l.credit.outstanding
          ≤ l.sent + (step l t).credit.outstanding + acked (t ∷ [])
        → end.sent + (step l t).credit.outstanding
          ≤ (step l t).sent + end.credit.outstanding + acked ts
        → end.sent + l.credit.outstanding ≤ l.sent + end.credit.outstanding + acked (t ∷ ts)
    more sends_message ts end h k = omega arith
    more (acks n) ts end h k = omega arith

-- From the start of a stream, whatever messages are sent and acknowledged: at most 8 are in flight
-- by the agent's count, and the messages sent exceed the acknowledgements by 8 at most.
pub traffic-le :
    (ts : List Traffic)
    → let end = traffic (record { credit = new_msg_credit; sent = 0 }) ts in
      (end.credit.outstanding ≤ ws_msg_credit) × (end.sent ≤ acked ts + ws_msg_credit)
unfolding new_msg_credit
traffic-le ts =
    let (lim, high) =
      traffic_bounds (record { credit = new_msg_credit; sent = 0 }) ts (omega arith) in
    (lim, omega arith)
