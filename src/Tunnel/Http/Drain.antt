-- ===== src/Tunnel/Http/Drain.antt =====
-- `feed` returns, and leaves no credit behind.
use tuzy.Shared.{ℕ, ◌+◌, ◌*◌, ◌-◌, ◌≤◌, ◌≡◌, ◌⊎◌, refl, ap, ◌∙◌, true, List, [], ◌∷◌, length, arith}
use tuzy.Protocol.{Bytes}
use tuzy.Tunnel.Calls.{returned}
use tuzy.Tunnel.Http.{
  HttpStream, Feeder, looking, leaving, finished, writing, granting, Written, feed_step, look,
  HttpEvent, feeds, http_step, http_run,
}
use tuzy.Tunnel.Http.Accounts.{IsConsistent, held, is_finished, bodies, http_run-Balanced}

-- The steps that `feed` still has to make, once the request has ended or the stream is cancelled.
abbrev feeder_steps : Feeder → ℕ
feeder_steps looking = 2
feeder_steps leaving = 1
feeder_steps finished = 0
feeder_steps (writing _) = 4
feeder_steps (granting _) = 3

abbrev queue_steps : Feeder → List Bytes → ℕ
queue_steps leaving q = 0
queue_steps finished q = 0
queue_steps _ q = 3 * length q

abbrev pub steps_left : HttpStream → ℕ
steps_left h = feeder_steps h.feeder + queue_steps h.feeder h.queue

abbrev pub IsEnding : HttpStream → Type 0
IsEnding h = (h.req_ended ≡ true) ⊎ (h.cancelled ≡ true)

-- A step of `feed` with no frame in between.
abbrev Nearer : HttpStream → HttpStream → Type 0
Nearer h h' = IsEnding h' × (steps_left h' ≤ steps_left h - 1)

look-Nearer :
    (h : HttpStream) (q : List Bytes)
    → h.queue ≡ q
    → h.feeder ≡ looking
    → IsEnding h
    → Nearer h (look h q)
unfolding look
look-Nearer h [] q f e = ground arith
look-Nearer h (chunk ∷ rest) q f e = ground arith

feed_step-Nearer :
    (id : ℕ) (h : HttpStream) (w : Written) (fd : Feeder)
    → h.feeder ≡ fd
    → IsEnding h
    → Nearer h (feed_step id h w).0
unfolding feed_step
feed_step-Nearer id h w looking f e = ground (arith, look-Nearer h h.queue refl f e)
feed_step-Nearer id h w leaving f e = ground arith
feed_step-Nearer id h w finished f e = ground arith
feed_step-Nearer id h w (writing chunk) f e = ground arith
feed_step-Nearer id h w (granting chunk) f e = ground arith

-- Only steps of `feed`.
abbrev pub feeding : List Written → List HttpEvent
feeding [] = []
feeding (w ∷ ws) = feeds w ∷ feeding ws

feeding-Nearer :
    (id : ℕ) (h : HttpStream) (ws : List Written)
    → IsEnding h
    → steps_left (http_run id h (feeding ws)).0 ≤ steps_left h - length ws
unfolding http_run http_step
feeding-Nearer id h [] e = omega arith
feeding-Nearer id h (w ∷ ws) e =
    let (e', n) = feed_step-Nearer id h w h.feeder refl e in
    omega (arith, feeding-Nearer id (feed_step id h w).0 ws e', n)

no_bodies : (ws : List Written) → bodies (feeding ws) ≡ []
no_bodies [] = refl
no_bodies (w ∷ ws) = no_bodies ws

stopped : (h : HttpStream) (fd : Feeder) → h.feeder ≡ fd → steps_left h ≤ 0 → h.feeder ≡ finished
stopped h finished f n = f
stopped h looking f n = absurd (ground arith)
stopped h leaving f n = absurd (ground arith)
stopped h (writing c) f n = absurd (ground arith)
stopped h (granting c) f n = absurd (ground arith)

-- Once the request has ended or the stream is cancelled, `feed` returns: however its writes to the
-- pipe end, `steps_left` steps are enough. It then has returned exactly the credit that the stream owed, and
-- owes none.
pub feeding_returns :
    (id : ℕ) (h : HttpStream) (ws : List Written)
    → IsConsistent h
    → IsEnding h
    → steps_left h ≤ length ws
    → ((http_run id h (feeding ws)).0.feeder ≡ finished)
      × ((http_run id h (feeding ws)).0.fed ≡ true)
      × (held (http_run id h (feeding ws)).0 ≡ 0)
      × (returned (http_run id h (feeding ws)).1 ≡ held h)
feeding_returns id h ws c e n =
    let (c', b) = http_run-Balanced id h (feeding ws) c in
    let end : HttpStream = (http_run id h (feeding ws)).0 in
    let f = stopped end end.feeder refl (omega (arith, feeding-Nearer id h ws e)) in
    let d : end.fed ≡ true = c'.fed_finished ∙ ap is_finished f in
    let z : held end ≡ 0 = ground (arith, c'.emptied, d, f) in
    (f, d, z, omega (arith, b, z, ap length (no_bodies ws)))
