-- ===== src/Tunnel/Client/Hints.antt =====
-- The hints that `Run` follows, counted from its events.
use tuzy.Shared.{
  ℕ, ◌+◌, ◌≡◌, refl, ap, ◌∙◌, Bool, true, false, Option, none, some, List, [], ◌∷◌, ◌++◌, ltb, leb,
  if◌then◌else◌, if_both, not, ◌&&◌, subst,
}
use Prim.Native.String.{String}
use text.Mathlib.Text.{◌==◌ as str_eq}
use tuzy.Tunnel.Session.{Goaway}
use tuzy.Tunnel.Client.Backoff.{TimeLib}
use tuzy.Tunnel.Client.Dialing.{
  ConnectError, ExitError, retry, renamed, exit, Connected, fails, serves, connect, goaway_exit,
}
use tuzy.Tunnel.Client.{
  Event, connecting, now_online, now_renamed, reconnecting, min_healthy_uptime, max_rename_hops,
  emit, follow, hop, retry_later, after_uptime, go_online, begin_dial, and_then, connected, Round,
  Client, new_client, Verdict, continues, returns, not_connected, reconnect, heed, serve, round,
  run,
}

-- The hints that answered the dials since the edge was last ready, and if a session has served since the last
-- dial: the new name that comes then is that of a GOAWAY, which is not a hint.
pub tally_event : Event → ℕ × Bool → ℕ × Bool
tally_event (connecting name) (n, serving) = (n, false)
tally_event (now_online name) (n, serving) = (0, true)
tally_event (now_renamed name old) (n, true) = (n, false)
tally_event (now_renamed name old) (n, false) = (n + 1, false)
tally_event (reconnecting name d) t = t

pub tally_onto : ℕ × Bool → List Event → ℕ × Bool
tally_onto t [] = t
tally_onto t (e ∷ es) = tally_onto (tally_event e t) es

abbrev tally : List Event → ℕ × Bool
tally es = tally_onto (0, false) es

-- The hints followed in a row.
abbrev pub hints : List Event → ℕ
hints es = (tally es).0

tally-snoc :
    (t : ℕ × Bool) (es : List Event) (e : Event)
    → tally_onto t (es ++ e ∷ []) ≡ tally_event e (tally_onto t es)
unfolding tally_onto
tally-snoc t [] e = refl
tally-snoc t (x ∷ es) e = tally-snoc (tally_event x t) es e

-- The counter of `Run` is right.
abbrev pub IsCounted : Client → Type 0
IsCounted c = hints c.events ≡ c.rename_hops

abbrev CountsOn : Verdict → Type 0
CountsOn (continues c) = IsCounted c
CountsOn (returns e c) = Unit {0}

hop-CountsOn :
    (c : Client) (n : String) (e : ExitError)
    → tally c.events ≡ (c.rename_hops, false)
    → CountsOn (hop c n e)
unfolding hop follow emit tally_event
hop-CountsOn c n e h = if_both CountsOn (ltb max_rename_hops (c.rename_hops + 1)) _ _ tt (
    ap (λ t. t.0)
      (tally-snoc (0, false) c.events (now_renamed n c.name)
        ∙ ap (tally_event (now_renamed n c.name)) h))

not_connected-CountsOn :
    (c : Client) (r : Round) (e : ConnectError)
    → tally c.events ≡ (c.rename_hops, false)
    → CountsOn (not_connected c r e)
unfolding not_connected retry_later emit tally_event
not_connected-CountsOn c r (renamed n e) h = hop-CountsOn c n e h
not_connected-CountsOn c r (exit e) h = tt
not_connected-CountsOn c r (retry after e) h =
    if_both CountsOn r.stopped_dialing _ _ tt (ap (λ t. t.0) (tally-snoc (0, false) c.events _ ∙ h))

reconnect-IsCounted :
    (c : Client) (r : Round) → tally c.events ≡ (c.rename_hops, true) → IsCounted (reconnect c r)
unfolding reconnect emit tally_event
reconnect-IsCounted c r h = ap (λ t. t.0) (tally-snoc (0, false) c.events _ ∙ h)

heed-CountsOn :
    (c : Client) (r : Round) (g : Option Goaway)
    → tally c.events ≡ (c.rename_hops, true)
    → CountsOn (heed c r g)
unfolding heed follow emit tally_event
heed-CountsOn c r none h = reconnect-IsCounted c r h
heed-CountsOn c r (some g) h = by_exit (goaway_exit g)
  where
    by_exit :
        (o : Option ExitError)
        → CountsOn (elim o [
          | some e ↦ returns (some e) c
          | none ↦
              if str_eq g.reason "renamed" && not (str_eq g.new_name "")
              then continues (record (follow g.new_name c) { delay = 0 })
              else continues (reconnect c r)
        ])
    by_exit (some e) = tt
    by_exit none =
        if_both CountsOn (str_eq g.reason "renamed" && not (str_eq g.new_name "")) _ _
          (ap (λ t. t.0)
            (tally-snoc (0, false) c.events (now_renamed g.new_name c.name)
              ∙ ap (tally_event (now_renamed g.new_name c.name)) h))
          (reconnect-IsCounted c r h)

serve-CountsOn : (c : Client) (r : Round) (n : String) → CountsOn (serve c r n)
unfolding serve go_online after_uptime emit tally_event
serve-CountsOn c r n =
    let c' : Client = go_online n c in
    if_both CountsOn r.stopped_serving _ _ tt (
      heed-CountsOn (after_uptime r.served.uptime c') r r.served.goaway (
        if_both (λ (x : Client). tally x.events ≡ (x.rename_hops, true))
          (leb min_healthy_uptime r.served.uptime) (record c' { attempt = 0 }) c'
          (tally-snoc (0, false) c.events (now_online n))
          (tally-snoc (0, false) c.events (now_online n))))

connected-CountsOn :
    (c : Client) (r : Round) (k : Connected)
    → tally c.events ≡ (c.rename_hops, false)
    → CountsOn (connected c r k)
unfolding connected
connected-CountsOn c r (fails e) h = not_connected-CountsOn c r e h
connected-CountsOn c r (serves n) h = serve-CountsOn c r n

round-CountsOn : (lib : TimeLib) (c : Client) (r : Round) → IsCounted c → CountsOn (round lib c r)
unfolding round begin_dial emit tally_event
round-CountsOn lib c r h = if_both CountsOn r.stopped_waiting _ _ tt (
    connected-CountsOn (begin_dial c) r (connect lib r.now c.name r.dial)
      (tally-snoc (0, false) c.events (connecting c.name) ∙ ap (λ n. (n, false)) h))

and_then-CountsOn :
    (v : Verdict) (k : Client → Verdict)
    → CountsOn v
    → ((c : Client) → IsCounted c → CountsOn (k c))
    → CountsOn (and_then v k)
and_then-CountsOn (continues c) k g h = h c g
and_then-CountsOn (returns e c) k g h = tt

run-CountsOn :
    (lib : TimeLib) (rs : List Round) (c : Client) → IsCounted c → CountsOn (run lib c rs)
unfolding run
run-CountsOn lib [] c h = h
run-CountsOn lib (r ∷ rs) c h =
    and_then-CountsOn (round lib c r) (λ c'. run lib c' rs) (round-CountsOn lib c r h)
      (λ c' h'. run-CountsOn lib rs c' h')

-- The counter is right as long as `Run` goes on.
pub run-IsCounted :
    (lib : TimeLib) (name : String) (force : Bool) (rs : List Round) (c : Client)
    → run lib (new_client name force) rs ≡ continues c
    → IsCounted c
unfolding new_client tally_onto
run-IsCounted lib name force rs c e =
    subst CountsOn e (run-CountsOn lib rs (new_client name force) refl)
