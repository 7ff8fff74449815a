-- ===== src/Tunnel/Client/Force.antt =====
-- `--force` takes a tunnel over once.
use tuzy.Shared.{
  ℕ, ◌+◌, ◌≡◌, subst, refl, sym, ap, ◌∙◌, Bool, false, Option, none, some, List, [], ◌∷◌, ◌++◌,
  if◌then◌else◌, if_both, arith,
}
use Prim.Native.String.{String}
use tuzy.Tunnel.Session.{Goaway}
use tuzy.Tunnel.Client.Backoff.{TimeLib}
use tuzy.Tunnel.Client.Dialing.{
  ConnectError, retry, renamed, exit, Connected, fails, serves, connect,
}
use tuzy.Tunnel.Client.{
  connected, Round, Client, Verdict, continues, returns, emit, follow, retry_later, hop,
  not_connected, reconnect, heed, after_uptime, go_online, begin_dial, serve, round, and_then, run,
}
use tuzy.Tunnel.Client.Runs.{client_of, round_waited}

-- The dials with `force=1`.
abbrev pub forced : List (String × Bool) → ℕ
forced [] = 0
forced ((n, f) ∷ ds) = (if f then 1 else 0) + forced ds

forced-snoc :
    (ds : List (String × Bool)) (n : String) (f : Bool)
    → forced (ds ++ (n, f) ∷ []) ≡ forced ds + (if f then 1 else 0)
forced-snoc [] n f = omega arith
forced-snoc ((m, g) ∷ ds) n f = omega (arith, forced-snoc ds n f)

-- No force is left, and k dials had it.
abbrev Spent : ℕ → Client → Type 0
Spent k c = (c.force ≡ false) × (forced c.dials ≡ k)

abbrev SpentAfter : ℕ → Verdict → Type 0
SpentAfter k v = Spent k (client_of v)

not_connected-Spent :
    (k : ℕ) (c : Client) (r : Round) (e : ConnectError)
    → Spent k c
    → SpentAfter k (not_connected c r e)
unfolding not_connected hop follow retry_later emit
not_connected-Spent k c r (retry after e) s = ground arith
not_connected-Spent k c r (renamed n e) s = ground arith
not_connected-Spent k c r (exit e) s = s

heed-Spent :
    (k : ℕ) (c : Client) (r : Round) (g : Option Goaway) → Spent k c → SpentAfter k (heed c r g)
unfolding heed follow reconnect emit
heed-Spent k c r none s = ground arith
heed-Spent k c r (some g) s = ground arith

serve-Spent :
    (k : ℕ) (c : Client) (r : Round) (n : String) → forced c.dials ≡ k → SpentAfter k (serve c r n)
unfolding serve go_online after_uptime emit
serve-Spent k c r n s =
    let c' : Client = after_uptime r.served.uptime (go_online n c) in
    let s' : Spent k c' = ground arith in
    if_both (SpentAfter k) r.stopped_serving _ _ (refl, s) (heed-Spent k c' r r.served.goaway s')

connected-Spent :
    (k : ℕ) (c : Client) (r : Round) (d : Connected) → Spent k c → SpentAfter k (connected c r d)
unfolding connected
connected-Spent k c r (fails e) s = not_connected-Spent k c r e s
connected-Spent k c r (serves n) s = serve-Spent k c r n s.1

round-Spent :
    (k : ℕ) (lib : TimeLib) (c : Client) (r : Round) → Spent k c → SpentAfter k (round lib c r)
unfolding round begin_dial emit
round-Spent k lib c r s =
    let s' : Spent k (begin_dial c) = ground (arith, forced-snoc c.dials c.name c.force) in
    if_both (SpentAfter k) r.stopped_waiting _ _ s
      (connected-Spent k (begin_dial c) r (connect lib r.now c.name r.dial) s')

and_then-Spent :
    (k : ℕ) (v : Verdict) (f : Client → Verdict)
    → SpentAfter k v
    → ((c : Client) → Spent k c → SpentAfter k (f c))
    → SpentAfter k (and_then v f)
and_then-Spent k (continues c) f s h = h c s
and_then-Spent k (returns e c) f s h = s

run-Spent :
    (k : ℕ) (lib : TimeLib) (rs : List Round) (c : Client) → Spent k c → SpentAfter k (run lib c rs)
unfolding run
run-Spent k lib [] c s = s
run-Spent k lib (r ∷ rs) c s =
    and_then-Spent k (round lib c r) (λ c'. run lib c' rs) (round-Spent k lib c r s)
      (λ c' s'. run-Spent k lib rs c' s')

round-serves :
    (lib : TimeLib) (c : Client) (r : Round) (n : String)
    → r.stopped_waiting ≡ false
    → connect lib r.now c.name r.dial ≡ serves n
    → round lib c r ≡ serve (begin_dial c) r n
unfolding connected
round-serves lib c r n w e = round_waited lib c r w ∙ ap (connected (begin_dial c) r) e

first-Spent :
    (lib : TimeLib) (c : Client) (r : Round) (n : String)
    → r.stopped_waiting ≡ false
    → connect lib r.now c.name r.dial ≡ serves n
    → SpentAfter (forced c.dials + (if c.force then 1 else 0)) (round lib c r)
unfolding begin_dial emit
first-Spent lib c r n w e =
    let k : ℕ = forced c.dials + (if c.force then 1 else 0) in
    subst (SpentAfter k) (sym (round-serves lib c r n w e))
      (serve-Spent k (begin_dial c) r n (forced-snoc c.dials c.name c.force))

-- Once an attempt with `--force` reached the edge and the edge was ready, no later dial asks to take
-- the tunnel over, whatever follows: the dials with force are those before and this one.
pub run_forces_once :
    (lib : TimeLib) (c : Client) (r : Round) (rs : List Round) (n : String)
    → r.stopped_waiting ≡ false
    → connect lib r.now c.name r.dial ≡ serves n
    → forced (client_of (run lib c (r ∷ rs))).dials ≡ forced c.dials + (if c.force then 1 else 0)
unfolding run
run_forces_once lib c r rs n w e =
    let k : ℕ = forced c.dials + (if c.force then 1 else 0) in
    (and_then-Spent k (round lib c r) (λ c'. run lib c' rs) (first-Spent lib c r n w e)
      (λ c' s'. run-Spent k lib rs c' s')).1
