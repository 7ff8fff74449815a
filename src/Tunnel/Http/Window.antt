-- ===== src/Tunnel/Http/Window.antt =====
-- The stream's receive window: what the edge is granted on the stream for the body that it sent.
use tuzy.Shared.{
  ℕ, ◌+◌, ◌/◌, ◌<◌, ◌≡◌, refl, subst, false, Option-cases, inl, inr, List, [], ◌∷◌, ◌++◌, length,
  length-append, arith,
}
use tuzy.Protocol.{Bytes, FrameType, Frame, stream_window, req_body, window}
use tuzy.Tunnel.Flow.{add}
use tuzy.Tunnel.Calls.{
  Call, grants, flushes, sends_ctrl, sends_data, window_frame, ack_frame, reset_frame, drain_frame,
}
use tuzy.Tunnel.Http.{
  HttpStream, Feeder, looking, leaving, finished, writing, granting, new_http_stream, on_req_body,
  Written, feed_step, look, HttpEvent, frame_in, feeds, cancels, http_step, http_run,
}
use tuzy.Tunnel.Http.Accounts.{
  IsConsistent, held, body_of, body_in, bodies, http_step-Balanced, new-IsConsistent,
  http_run-Balanced,
}

-- The credit of the WINDOW frames among the calls.
abbrev pub windows : List Call → ℕ
windows [] = 0
windows (sends_ctrl (window_frame id n) ∷ cs) = n + windows cs
windows (_ ∷ cs) = windows cs

windows-append : (cs ds : List Call) → windows (cs ++ ds) ≡ windows cs + windows ds
windows-append [] ds = omega arith
windows-append (sends_ctrl (window_frame id n) ∷ cs) ds = omega (arith, windows-append cs ds)
windows-append (sends_ctrl (ack_frame _ _) ∷ cs) ds = windows-append cs ds
windows-append (sends_ctrl (reset_frame _ _) ∷ cs) ds = windows-append cs ds
windows-append (sends_ctrl drain_frame ∷ cs) ds = windows-append cs ds
windows-append (grants n ∷ cs) ds = windows-append cs ds
windows-append (flushes ∷ cs) ds = windows-append cs ds
windows-append (sends_data f ∷ cs) ds = windows-append cs ds

-- After `granted` bytes of WINDOW credit for `sent` bytes of body, the difference is what the stream
-- still has or has not granted yet.
abbrev Outstanding : HttpStream → ℕ → ℕ → Type 0
Outstanding h granted sent =
    h.cancelled ≡ false → h.fed ≡ false → held h + h.ungranted + granted ≡ sent

on_req_body-Outstanding :
    (id : ℕ) (h : HttpStream) (p : Bytes) (granted sent : ℕ)
    → Outstanding h granted sent
    → Outstanding
        (on_req_body id h p).0
        (granted + windows (on_req_body id h p).1)
        (sent + length p)
unfolding on_req_body
on_req_body-Outstanding id h p granted sent o = λ c f. ground (arith, o)

frame_in-Outstanding :
    (id : ℕ) (h : HttpStream) (f : Frame) (t : FrameType) (granted sent : ℕ)
    → f.type ≡ t
    → Outstanding h granted sent
    → Outstanding
        (http_step id h (frame_in f)).0
        (granted + windows (http_step id h (frame_in f)).1)
        (sent + length (body_of f))
unfolding http_step
frame_in-Outstanding id h f req_body granted sent t o =
    λ c d. ground (arith, on_req_body-Outstanding id h f.payload granted sent o)
frame_in-Outstanding id h f window granted sent t o = λ c d.
    elim (Option-cases (add h.send_credit f.value)) [
      | inl e ↦ ground (arith, o, e)
      | inr (k, e) ↦ ground (arith, o, e)
    ]
frame_in-Outstanding id h f _ granted sent t o = λ c d. ground (arith, o)

look-Outstanding :
    (h : HttpStream) (q : List Bytes) (granted sent : ℕ)
    → h.feeder ≡ looking
    → Outstanding h granted sent
    → Outstanding (look h q) granted sent
unfolding look
look-Outstanding h [] granted sent f o = λ c d. ground (arith, o)
look-Outstanding h (chunk ∷ rest) granted sent f o = λ c d. ground (arith, o)

feed_step-Outstanding :
    (id : ℕ) (h : HttpStream) (w : Written) (fd : Feeder) (granted sent : ℕ)
    → h.feeder ≡ fd
    → IsConsistent h
    → Outstanding h granted sent
    → Outstanding (feed_step id h w).0 (granted + windows (feed_step id h w).1) sent
unfolding feed_step
feed_step-Outstanding id h w looking granted sent f k o =
    λ c d. ground (arith, look-Outstanding h h.queue granted sent f o)
feed_step-Outstanding id h w leaving granted sent f k o = λ c d. ground arith
feed_step-Outstanding id h w finished granted sent f k o = λ c d. ground (arith, o)
feed_step-Outstanding id h w (writing chunk) granted sent f k o = λ c d. ground (arith, o)
feed_step-Outstanding id h w (granting chunk) granted sent f k o = λ c d. ground (arith, o)

http_step-Outstanding :
    (id : ℕ) (h : HttpStream) (e : HttpEvent) (granted sent : ℕ)
    → IsConsistent h
    → Outstanding h granted sent
    → Outstanding
        (http_step id h e).0
        (granted + windows (http_step id h e).1)
        (sent + length (body_in e))
http_step-Outstanding id h (frame_in f) granted sent k o =
    frame_in-Outstanding id h f f.type granted sent refl o
http_step-Outstanding id h (feeds w) granted sent k o =
    unfold http_step in
    λ c d. omega (arith, feed_step-Outstanding id h w h.feeder granted sent refl k o c d)
http_step-Outstanding id h cancels granted sent k o = λ c d. unfold http_step in ground arith

http_run-Outstanding :
    (id : ℕ) (h : HttpStream) (es : List HttpEvent) (granted sent : ℕ)
    → IsConsistent h
    → Outstanding h granted sent
    → Outstanding
        (http_run id h es).0
        (granted + windows (http_run id h es).1)
        (sent + length (bodies es))
unfolding http_run
http_run-Outstanding id h [] granted sent k o = λ c d. omega (arith, o c d)
http_run-Outstanding id h (e ∷ es) granted sent k o = λ c d.
    let s = http_step id h e in
    omega (
      arith,
      windows-append s.1 (http_run id s.0 es).1,
      length-append (body_in e) (bodies es),
      http_run-Outstanding id s.0 es (granted + windows s.1) (sent + length (body_in e))
          (http_step-Balanced id h e k).0 (http_step-Outstanding id h e granted sent k o) c d,
    )

-- From a new stream, while it is neither cancelled nor at its end: the bodies received exceed the
-- WINDOW credit given for them by what is queued or in hand and what is not granted yet. Once the
-- local app has read all, that is less than a quarter of the window, so the edge can go on sending.
pub http_run_window :
    (id : ℕ) (es : List HttpEvent) (h : HttpStream) (cs : List Call)
    → http_run id new_http_stream es ≡ (h, cs)
    → h.cancelled ≡ false
    → h.fed ≡ false
    → (held h + h.ungranted + windows cs ≡ length (bodies es)) × (h.ungranted < stream_window / 4)
http_run_window id es h cs r c d =
    let (k, b) = http_run-Balanced id new_http_stream es new-IsConsistent in
    let k' : IsConsistent h = subst (λ (x : HttpStream × List Call). IsConsistent x.0) r k in
    let o =
      http_run-Outstanding id new_http_stream es 0 0 new-IsConsistent
        (unfold new_http_stream in λ _ _. omega arith) in
    let o' : Outstanding h (0 + windows cs) (0 + length (bodies es)) =
      subst
        (λ (x : HttpStream × List Call). Outstanding x.0 (0 + windows x.1) (0 + length (bodies es)))
        r o in
    (omega (arith, o' c d), k'.coalesced)
