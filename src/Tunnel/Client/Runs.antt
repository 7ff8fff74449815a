-- ===== src/Tunnel/Client/Runs.antt =====
-- `Run` over any history of attempts.
use tuzy.Shared.{
  ℕ, ◌≤◌, ◌≡◌, ap, sym, subst, Bool, false, Option, none, some, List, [], ◌∷◌, All, if◌then◌else◌,
  if_both, arith,
}
use Prim.Native.String.{String}
use tuzy.Tunnel.Session.{Goaway}
use tuzy.Tunnel.Client.Backoff.{
  ℤ, pos, negsuc, TimeLib, restart, restart_jitter, ten_minutes, retry_after, delay-le,
}
use tuzy.Tunnel.Client.Dialing.{
  WsError, ConnectError, retry, renamed, exit, status_error, Dial, refused, Connected, fails,
  serves, connect,
}
use tuzy.Tunnel.Client.Hints.{hints, run-IsCounted}
use tuzy.Tunnel.Client.{
  after_uptime, go_online, begin_dial, and_then, connected, Round, Client, new_client, Verdict,
  continues, returns, max_rename_hops, retry_later, not_connected, reconnect, heed, serve, round,
  run,
}

abbrev pub client_of : Verdict → Client
client_of (continues c) = c
client_of (returns e c) = c

-- A round that is not stopped while it waits dials.
pub round_waited :
    (lib : TimeLib) (c : Client) (r : Round)
    → r.stopped_waiting ≡ false
    → round lib c r ≡ connected (begin_dial c) r (connect lib r.now c.name r.dial)
unfolding round
round_waited lib c r w =
    ap
      (λ b.
        if b then returns none c else connected (begin_dial c) r (connect lib r.now c.name r.dial))
      w

-- The draws of a round stay within their ceiling.
abbrev pub IsFair : Round → Type 0
IsFair r = (c : ℕ) → r.draw c ≤ c

-- The counter of hints is at most three, and the next wait is at most ten minutes.
record IsHeld (c : Client) : Type 0 where
  pub hops : c.rename_hops ≤ max_rename_hops
  pub wait : c.delay ≤ ten_minutes

-- What a round leaves if `Run` goes on.
abbrev GoesOn : Verdict → Type 0
GoesOn (continues c) = IsHeld c
GoesOn (returns e c) = Unit {0}

-- The wish of the edge, held to ten minutes.
abbrev pub IsModest : ℤ → Type 0
IsModest (pos n) = n ≤ ten_minutes
IsModest (negsuc n) = Unit {0}

abbrev ModestError : ConnectError → Type 0
ModestError (retry after e) = IsModest after
ModestError _ = Unit {0}

abbrev ModestEnd : Connected → Type 0
ModestEnd (fails e) = ModestError e
ModestEnd (serves n) = Unit {0}

retry_after-IsModest : (lib : TimeLib) (v : String) (now : ℕ) → IsModest (retry_after lib v now)
unfolding retry_after
retry_after-IsModest lib v now = ground arith

connect-Modest :
    (lib : TimeLib) (now : ℕ) (name : String) (d : Dial) → ModestEnd (connect lib now name d)
unfolding connect status_error
connect-Modest lib now name (refused r) =
    ground (arith, retry_after-IsModest lib r.retry_header now)
connect-Modest lib now name d = ground arith

retry_later-IsHeld :
    (c : Client) (draw : ℕ → ℕ) (after : ℤ) (e : WsError)
    → ((n : ℕ) → draw n ≤ n)
    → IsModest after
    → IsHeld c
    → IsHeld (retry_later c draw after e)
unfolding retry_later restart
retry_later-IsHeld c draw after e h m s =
    ground (arith, delay-le draw c.attempt h, h restart_jitter)

reconnect-IsHeld : (c : Client) (r : Round) → IsFair r → IsHeld c → IsHeld (reconnect c r)
unfolding reconnect restart
reconnect-IsHeld c r h s = ground (arith, delay-le r.draw c.attempt h, h restart_jitter)

not_connected-GoesOn :
    (c : Client) (r : Round) (e : ConnectError)
    → IsFair r
    → ModestError e
    → IsHeld c
    → GoesOn (not_connected c r e)
unfolding not_connected
not_connected-GoesOn c r (retry after e) h m s =
    ground (arith, retry_later-IsHeld c r.draw after e h m s)
not_connected-GoesOn c r (renamed n e) h m s = ground arith
not_connected-GoesOn c r (exit e) h m s = tt

heed-GoesOn :
    (c : Client) (r : Round) (g : Option Goaway) → IsFair r → IsHeld c → GoesOn (heed c r g)
unfolding heed
heed-GoesOn c r none h s = reconnect-IsHeld c r h s
heed-GoesOn c r (some g) h s = ground (arith, reconnect-IsHeld c r h s)

serve-GoesOn : (c : Client) (r : Round) (n : String) → IsFair r → IsHeld c → GoesOn (serve c r n)
unfolding serve go_online after_uptime
serve-GoesOn c r n h s =
    let c' : Client = after_uptime r.served.uptime (go_online n c) in
    let s' : IsHeld c' = ground arith in
    if_both GoesOn r.stopped_serving _ _ tt (heed-GoesOn c' r r.served.goaway h s')

connected-GoesOn :
    (c : Client) (r : Round) (k : Connected)
    → IsFair r
    → ModestEnd k
    → IsHeld c
    → GoesOn (connected c r k)
unfolding connected
connected-GoesOn c r (fails e) h m s = not_connected-GoesOn c r e h m s
connected-GoesOn c r (serves n) h m s = serve-GoesOn c r n h s

round-GoesOn :
    (lib : TimeLib) (c : Client) (r : Round) → IsFair r → IsHeld c → GoesOn (round lib c r)
unfolding round begin_dial
round-GoesOn lib c r h s =
    let c' : Client = begin_dial c in
    let s' : IsHeld c' = record { hops = s.hops; wait = s.wait } in
    if_both GoesOn r.stopped_waiting _ _ tt (
      connected-GoesOn c' r (connect lib r.now c.name r.dial) h
        (connect-Modest lib r.now c.name r.dial) s')

and_then-GoesOn :
    (v : Verdict) (k : Client → Verdict)
    → GoesOn v
    → ((c : Client) → IsHeld c → GoesOn (k c))
    → GoesOn (and_then v k)
and_then-GoesOn (continues c) k g h = h c g
and_then-GoesOn (returns e c) k g h = tt

run-GoesOn :
    (lib : TimeLib) (rs : List Round) (c : Client)
    → All IsFair rs
    → IsHeld c
    → GoesOn (run lib c rs)
unfolding run
run-GoesOn lib [] c h s = s
run-GoesOn lib (r ∷ rs) c h s =
    and_then-GoesOn (round lib c r) (λ c'. run lib c' rs) (round-GoesOn lib c r h.0 s)
      (λ c' s'. run-GoesOn lib rs c' h.1 s')

-- At most three hints were followed in a row, by the events that were emitted, and the next wait is at most ten
-- minutes.
pub record IsSane (c : Client) : Type 0 where
  pub followed : hints c.events ≤ 3
  pub wait : c.delay ≤ ten_minutes

-- Whatever the edge answers, the network does and the draws of the backoff are, as long as `Run` goes on: of the dials
-- since the edge was last ready, at most three were answered with a hint that it followed, as its events tell, and it
-- waits at most ten minutes before the next attempt, also where a Retry-After asks for more.
pub run-IsSane :
    (lib : TimeLib) (name : String) (force : Bool) (rs : List Round) (c : Client)
    → All IsFair rs
    → run lib (new_client name force) rs ≡ continues c
    → IsSane c
run-IsSane lib name force rs c h e =
    let s : IsHeld c =
      subst GoesOn e
        (run-GoesOn lib rs (new_client name force) h (unfold new_client in omega arith)) in
    record {
      followed =
          subst (λ n. n ≤ max_rename_hops) (sym (run-IsCounted lib name force rs c e)) s.hops;
      wait = s.wait;
    }
