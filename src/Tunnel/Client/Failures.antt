-- ===== src/Tunnel/Client/Failures.antt =====
-- While the edge cannot be reached, the agent goes on, at growing distances.
use tuzy.Shared.{
  ◌+◌, ◌*◌, ◌^◌, ◌≤◌, ◌≡◌, refl, ap, subst, ◌∙◌, false, none, List, [], ◌∷◌, ◌++◌, length, All,
  if◌then◌else◌, arith,
}
use tuzy.Tunnel.Client.Backoff.{pos, TimeLib, delay, backoff_base, backoff_max, longer, delay-le}
use tuzy.Tunnel.Client.Dialing.{WsError, is_no_hello, unreachable, connect}
use tuzy.Tunnel.Client.{
  connected, Round, Client, continues, returns, emit, retry_later, not_connected, begin_dial, round,
  and_then, run,
}
use tuzy.Tunnel.Client.Runs.{round_waited, IsFair}

-- An attempt in which the edge cannot be reached, by no fault that is a missing HELLO, and the user does nothing.
abbrev pub IsFailure : Round → Type 0
IsFailure r =
    (r.stopped_waiting ≡ false)
    × (r.stopped_dialing ≡ false)
    × (e : WsError) × (r.dial ≡ unreachable e)
    × (is_no_hello e ≡ false)

-- The client after it.
abbrev failed : Client → Round → WsError → Client
failed c r e = retry_later (begin_dial c) r.draw (pos 0) e

round-failed :
    (lib : TimeLib) (c : Client) (r : Round) (m : IsFailure r)
    → round lib c r ≡ continues (failed c r m.2)
unfolding connect connected not_connected
round-failed lib c r (w, s, e, d, n) =
    round_waited lib c r w
    ∙ ap (λ x. connected (begin_dial c) r (connect lib r.now c.name x)) d
    ∙ ap (λ b. if b then returns none (begin_dial c) else continues (failed c r e)) s

failed_lem :
    (c : Client) (r : Round) (e : WsError)
    → is_no_hello e ≡ false
    → ((failed c r e).attempt ≡ c.attempt + 1) × ((failed c r e).delay ≡ delay r.draw c.attempt)
unfolding retry_later begin_dial emit longer
failed_lem c r e n = rw n (refl, ground arith)

-- After any number of attempts in a row in which the edge cannot be reached, and the failure is not that the edge
-- lacks a HELLO, and one more of these, while the user stops nothing: `Run` still runs, has counted them, and waits
-- at most 250 ms · 2^n for the n-th and at most thirty seconds.
pub failures_back_off :
    (lib : TimeLib) (rs : List Round) (r : Round) (c : Client)
    → All IsFailure rs
    → IsFailure r
    → IsFair r
    → (c' : Client) × (run lib c (rs ++ r ∷ []) ≡ continues c')
      × (c'.attempt ≡ c.attempt + length rs + 1)
      × (c'.delay ≤ backoff_base * 2 ^ (c.attempt + length rs))
      × (c'.delay ≤ backoff_max)
unfolding run
failures_back_off lib [] r c hs h f =
    let (w, s, e, d, n) = h in
    let (a, q) = failed_lem c r e n in
    let (below, most) = delay-le r.draw c.attempt f in
    let z : c.attempt + 0 ≡ c.attempt = omega arith in
    (
      failed c r e,
      ap (λ v. and_then v (λ x. continues x)) (round-failed lib c r h),
      omega (arith, a),
      rw z (omega (arith, q, most)),
      omega (arith, q, below),
    )
failures_back_off lib (r₁ ∷ rs) r c hs h f =
    let (w, s, e, d, n) = hs.0 in
    let (a, q) = failed_lem c r₁ e n in
    let (c', k, t, most, below) = failures_back_off lib rs r (failed c r₁ e) hs.1 h f in
    let z : (failed c r₁ e).attempt + length rs ≡ c.attempt + length (r₁ ∷ rs) = omega (arith, a) in
    (
      c',
      ap (λ v. and_then v (λ x. run lib x (rs ++ r ∷ []))) (round-failed lib c r₁ hs.0) ∙ k,
      omega (arith, t, a),
      subst (λ m. c'.delay ≤ backoff_base * 2 ^ m) z most,
      below,
    )
