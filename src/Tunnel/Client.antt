-- ===== src/Tunnel/Client.antt =====
-- internal/tunnel/client.go: `Run` with its attempts to connect and
-- `follow`. What the edge, the network, the clock and the user do in one attempt is a
-- `Round`, an argument of the step. Durations are in nanoseconds.
pub mod Backoff
pub mod Dialing
pub mod Errors
pub mod Hints
pub mod Runs
pub mod Force
pub mod Renames
pub mod Failures
mod Tests
use tuzy.Shared.{
  ℕ, ◌+◌, ◌*◌, ◌^◌, Bool, false, ◌&&◌, not, Option, none, some, List, [], ◌∷◌, ◌++◌, ltb, leb, ◌==◌,
  if◌then◌else◌,
}
use Prim.Native.String.{String}
use text.Mathlib.Text.{◌==◌ as str_eq}
use tuzy.Tunnel.Session.{Goaway}
use tuzy.Tunnel.Client.Dialing.{
  ConnectError, Connected, Dial, ExitError, WsError, closed, connect, exit, fails, goaway_exit,
  is_no_hello, other_error, renamed, retry, serves,
}
use tuzy.Tunnel.Client.Backoff.{ℤ, TimeLib, delay, restart, longer}

-- The end of a session's `run`, once it was online.
pub record Served : Type 0 where
  pub uptime : ℕ
  pub goaway : Option Goaway
  pub error : WsError

-- All that an attempt meets: the user stops the program while it waits, while it dials, or while it
-- serves; the clock, the dial and the service; the draws of the backoff.
pub record Round : Type 0 where
  pub stopped_waiting : Bool
  pub now : ℕ
  pub dial : Dial
  pub stopped_dialing : Bool
  pub served : Served
  pub stopped_serving : Bool
  pub draw : ℕ → ℕ

-- `Event`
pub data Event : Type 0 where
  connecting : String → Event
  now_online : String → Event
  now_renamed : String → String → Event
  reconnecting : String → ℕ → Event

-- `Client` with the variables of `Run`, the events that it emitted, and the name and `force` of each dial.
pub record Client : Type 0 where
  pub name : String
  pub force : Bool
  pub attempt : ℕ
  pub rename_hops : ℕ
  pub delay : ℕ
  pub events : List Event
  pub dials : List (String × Bool)

-- `NewClient`, as far as `Run` depends on it.
unfoldable pub new_client : String → Bool → Client
new_client name force = record {
  name = name;
  force = force;
  attempt = 0;
  rename_hops = 0;
  delay = 0;
  events = [];
  dials = [];
}

-- How a round of `Run` ends: the next attempt, or the return of `Run` with an exit error or nil.
pub data Verdict : Type 0 where
  continues : Client → Verdict
  returns : Option ExitError → Client → Verdict

abbrev pub min_healthy_uptime : ℕ
min_healthy_uptime = 30 * 10 ^ 9

abbrev pub max_rename_hops : ℕ
max_rename_hops = 3

unfoldable pub emit : Event → Client → Client
emit e c = record c { events = c.events ++ e ∷ [] }

-- `follow`
unfoldable pub follow : String → Client → Client
unfolding emit
follow new_name c = emit (now_renamed new_name c.name) (record c { name = new_name })

-- A transient failure of `connect`.
unfoldable pub retry_later : Client → (ℕ → ℕ) → ℤ → WsError → Client
unfolding longer emit
retry_later c draw after e =
    let d : ℕ = if is_no_hello e then restart draw else longer (delay draw c.attempt) after in
    let attempt : ℕ = if is_no_hello e then c.attempt else c.attempt + 1 in
    emit (reconnecting c.name d) (record c { delay = d; attempt = attempt })

-- A 410 with a hint.
unfoldable pub hop : Client → String → ExitError → Verdict
unfolding follow
hop c new_name e =
    let c' : Client = record c { rename_hops = c.rename_hops + 1 } in
    if ltb max_rename_hops c'.rename_hops
    then returns (some e) c'
    else continues (record (follow new_name c') { delay = 0 })

-- The branch of `Run` where `connect` fails.
unfoldable pub not_connected : Client → Round → ConnectError → Verdict
unfolding hop retry_later
not_connected c r (renamed new_name e) = hop c new_name e
not_connected c r (exit e) = returns (some e) c
not_connected c r (retry after e) =
    if r.stopped_dialing then returns none c else continues (retry_later c r.draw after e)

is_restart : WsError → Bool
is_restart (closed code reason) = code == 1012
is_restart other_error = false

-- After a session that ended by itself.
unfoldable pub reconnect : Client → Round → Client
unfolding is_restart emit
reconnect c r =
    let d : ℕ = if is_restart r.served.error then restart r.draw else delay r.draw c.attempt in
    emit (reconnecting c.name d) (record c { delay = d; attempt = c.attempt + 1 })

-- The GOAWAY of the session, if it got one.
unfoldable pub heed : Client → Round → Option Goaway → Verdict
unfolding follow
heed c r none = continues (reconnect c r)
heed c r (some g) = elim (goaway_exit g) [
  | some e ↦ returns (some e) c
  | none ↦
      if str_eq g.reason "renamed" && not (str_eq g.new_name "")
      then continues (record (follow g.new_name c) { delay = 0 })
      else continues (reconnect c r)
]

-- A session that lasted resets the backoff.
unfoldable pub after_uptime : ℕ → Client → Client
after_uptime uptime c = if leb min_healthy_uptime uptime then record c { attempt = 0 } else c

-- `Run` once the edge is ready.
unfoldable pub go_online : String → Client → Client
unfolding emit
go_online ready_name c = emit (now_online ready_name) (record c { rename_hops = 0; force = false })

-- The branch of `Run` where a session serves.
unfoldable pub serve : Client → Round → String → Verdict
unfolding heed
serve c r ready_name =
    if r.stopped_serving
    then returns none (go_online ready_name c)
    else heed (after_uptime r.served.uptime (go_online ready_name c)) r r.served.goaway

unfoldable pub connected : Client → Round → Connected → Verdict
connected c r (fails e) = not_connected c r e
connected c r (serves ready_name) = serve c r ready_name

unfoldable pub begin_dial : Client → Client
unfolding emit
begin_dial c = emit (connecting c.name) (record c { dials = c.dials ++ (c.name, c.force) ∷ [] })

-- A round of the loop of `Run`.
unfoldable pub round : TimeLib → Client → Round → Verdict
round lib c r =
    if r.stopped_waiting
    then returns none c
    else connected (begin_dial c) r (connect lib r.now c.name r.dial)

-- What follows a round.
abbrev pub and_then : Verdict → (Client → Verdict) → Verdict
and_then (continues c) k = k c
and_then (returns e c) k = returns e c

-- `Run` over the rounds that come: it still runs after them, or has returned.
unfoldable pub run : TimeLib → Client → List Round → Verdict
run lib c [] = continues c
run lib c (r ∷ rs) = and_then (round lib c r) (λ c'. run lib c' rs)
