-- ===== src/Tunnel/Http/Delivery.antt =====
-- The local app reads the request body as the edge sent it.
use tuzy.Shared.{
  ℕ, ◌≡◌, refl, sym, ap, subst, ◌∙◌, false, Option, none, some, List, [], ◌∷◌, ◌++◌, flatten,
  flatten-snoc, append-nil, append_assoc, arith,
}
use tuzy.Protocol.{Bytes, FrameType, Frame, req_body}
use tuzy.Tunnel.Calls.{Call}
use tuzy.Tunnel.Http.{
  HttpStream, Feeder, looking, leaving, finished, writing, granting, new_http_stream, on_req_body,
  http_on_frame, Written, feed_step, look, HttpEvent, frame_in, feeds, cancels, or_same, http_step,
  http_run,
}
use tuzy.Tunnel.Http.Accounts.{in_writing, body_of, body_in, bodies, http_on_frame-none}

-- The body bytes that the local app has read, that `feed` writes, and that wait.
abbrev pub pending : HttpStream → Bytes
pending h = h.written ++ (in_writing h.feeder ++ flatten h.queue)

-- While nothing ended the transfer, these are the body that came in, in its order.
abbrev pub InOrder : HttpStream → Bytes → Type 0
InOrder h body = h.cancelled ≡ false → h.discard ≡ false → h.fed ≡ false → pending h ≡ body

accepted :
    (h : HttpStream) (p body : Bytes)
    → pending h ≡ body
    → h.written ++ (in_writing h.feeder ++ flatten (h.queue ++ p ∷ [])) ≡ body ++ p
accepted h p body e =
    ap (λ q. h.written ++ (in_writing h.feeder ++ q)) (flatten-snoc h.queue p)
    ∙ ap (◌++◌ h.written) (sym (append_assoc (in_writing h.feeder) (flatten h.queue) p))
    ∙ sym (append_assoc h.written _ p)
    ∙ ap (λ q. q ++ p) e

on_req_body-InOrder :
    (id : ℕ) (h : HttpStream) (p body : Bytes)
    → InOrder h body
    → InOrder (on_req_body id h p).0 (body ++ p)
unfolding on_req_body
on_req_body-InOrder id h p body o c d f = ground (arith, accepted h p body, o)

http_on_frame-InOrder :
    (id : ℕ) (h : HttpStream) (f : Frame) (t : FrameType) (r : HttpStream × List Call)
    (body : Bytes)
    → f.type ≡ t
    → InOrder h body
    → http_on_frame id h f ≡ some r
    → InOrder r.0 (body ++ body_of f)
unfolding http_on_frame
http_on_frame-InOrder id h f req_body r body t o e =
    λ c d k. ground (arith, on_req_body-InOrder id h f.payload body o)
http_on_frame-InOrder id h f _ r body t o e = λ c d k. ground (arith, o, append-nil body)

look-InOrder :
    (h : HttpStream) (q : List Bytes) (body : Bytes)
    → h.queue ≡ q
    → h.feeder ≡ looking
    → InOrder h body
    → InOrder (look h q) body
unfolding look flatten
look-InOrder h [] body q f o = λ c d k. ground (arith, o)
look-InOrder h (chunk ∷ rest) body q f o = λ c d k. ground (arith, o)

feed_step-InOrder :
    (id : ℕ) (h : HttpStream) (w : Written) (fd : Feeder) (body : Bytes)
    → h.feeder ≡ fd
    → InOrder h body
    → InOrder (feed_step id h w).0 body
unfolding feed_step
feed_step-InOrder id h w looking body f o =
    λ c d k. ground (arith, look-InOrder h h.queue body refl f o)
feed_step-InOrder id h w leaving body f o = λ c d k. ground arith
feed_step-InOrder id h w finished body f o = λ c d k. ground (arith, o)
feed_step-InOrder id h w (writing chunk) body f o =
    λ c d k. ground (arith, o, append_assoc h.written chunk (flatten h.queue))
feed_step-InOrder id h w (granting chunk) body f o = λ c d k. ground (arith, o)

frame_in-InOrder :
    (id : ℕ) (h : HttpStream) (f : Frame) (o : Option (HttpStream × List Call)) (body : Bytes)
    → InOrder h body
    → http_on_frame id h f ≡ o
    → InOrder (or_same h o).0 (body ++ body_of f)
unfolding or_same
frame_in-InOrder id h f none body k e = λ c d l.
    k c d l ∙ sym (append-nil body) ∙ ap (◌++◌ body) (sym (http_on_frame-none id h f f.type refl e))
frame_in-InOrder id h f (some r) body k e = http_on_frame-InOrder id h f f.type r body refl k e

http_step-InOrder :
    (id : ℕ) (h : HttpStream) (e : HttpEvent) (body : Bytes)
    → InOrder h body
    → InOrder (http_step id h e).0 (body ++ body_in e)
unfolding http_step
http_step-InOrder id h (frame_in f) body o = frame_in-InOrder id h f _ body o refl
http_step-InOrder id h (feeds w) body o =
    rw (append-nil body) (feed_step-InOrder id h w h.feeder body refl o)
http_step-InOrder id h cancels body o = λ c d k. cc

http_run-InOrder :
    (id : ℕ) (h : HttpStream) (es : List HttpEvent) (body : Bytes)
    → InOrder h body
    → InOrder (http_run id h es).0 (body ++ bodies es)
unfolding http_run
http_run-InOrder id h [] body o = rw (append-nil body) o
http_run-InOrder id h (e ∷ es) body o = rw (← append_assoc body (body_in e) (bodies es)) (
    http_run-InOrder id (http_step id h e).0 es (body ++ body_in e)
      (http_step-InOrder id h e body o))

-- From a new stream, in whatever order frames come and `feed` goes on: if in the state reached the
-- stream is not cancelled (by the edge, by an abort, or by a body above the window), the local app
-- has not closed its end of the pipe and `feed` has not returned, then the bytes that the app has
-- read, those that `feed` writes and those that wait are together the bodies of the REQ_BODY
-- frames, in their order. None is lost or repeated.
pub http_run_in_order :
    (id : ℕ) (es : List HttpEvent) (h : HttpStream) (cs : List Call)
    → http_run id new_http_stream es ≡ (h, cs)
    → h.cancelled ≡ false
    → h.discard ≡ false
    → h.fed ≡ false
    → h.written ++ (in_writing h.feeder ++ flatten h.queue) ≡ bodies es
unfolding new_http_stream flatten
http_run_in_order id es h cs r c d f =
    let o : InOrder h (bodies es) =
      subst (λ (x : HttpStream × List Call). InOrder x.0 (bodies es)) r
        (http_run-InOrder id new_http_stream es [] (λ _ _ _. refl)) in
    o c d f
