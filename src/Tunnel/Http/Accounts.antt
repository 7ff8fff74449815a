-- ===== src/Tunnel/Http/Accounts.antt =====
-- The accounts of an HTTP stream's request body: its own counters, and the credit that it owes.
use tuzy.Shared.{
  if◌then◌else◌, ℕ, ◌+◌, ◌/◌, ◌≤◌, ◌<◌, ◌≡◌, refl, sym, ap, Bool, true, false, Option, none, some,
  List, [], ◌∷◌, ◌++◌, flatten, flatten-snoc, length, length-append, arith,
}
use tuzy.Protocol.{Bytes, FrameType, Frame, stream_window, req_body, window}
use tuzy.Tunnel.Calls.{Call, grants, flushes, sends_ctrl, sends_data, returned}
use tuzy.Tunnel.Http.{
  HttpStream, Feeder, looking, leaving, finished, writing, granting, new_http_stream, on_req_body,
  http_on_frame, Written, look, feed_step, HttpEvent, frame_in, feeds, cancels, http_step, http_run,
  or_same,
}

-- The chunk that `feed` holds and that `queued` still counts, and the one that it no longer counts.
abbrev pub in_writing : Feeder → Bytes
in_writing (writing chunk) = chunk
in_writing _ = []

abbrev pub in_granting : Feeder → Bytes
in_granting (granting chunk) = chunk
in_granting _ = []

abbrev pub is_finished : Feeder → Bool
is_finished finished = true
is_finished _ = false

-- `queued` counts the bytes of the queue and of the chunk that is being written, within the window;
-- `fed` says that `feed` has returned, which leaves nothing queued; less than a quarter of a window waits to be granted.
pub record IsConsistent (h : HttpStream) : Type 0 where
  pub counted : h.queued ≡ length (flatten h.queue) + length (in_writing h.feeder)
  pub bounded : h.queued ≤ stream_window
  pub in_hand : length (in_granting h.feeder) ≤ stream_window
  pub fed_finished : h.fed ≡ is_finished h.feeder
  pub emptied : (if h.fed then h.queued else 0) ≡ 0
  pub coalesced : h.ungranted < stream_window / 4

-- The bytes for which the stream owes the connection credit.
abbrev pub held : HttpStream → ℕ
held h = h.queued + length (in_granting h.feeder)

abbrev pub body_of : Frame → Bytes
body_of f = elim f.type [ req_body ↦ f.payload | _ ↦ [] ]

-- The request body in an event.
abbrev pub body_in : HttpEvent → Bytes
body_in (frame_in f) = body_of f
body_in _ = []

-- The request body in a history.
abbrev pub bodies : List HttpEvent → Bytes
bodies [] = []
bodies (e ∷ es) = body_in e ++ bodies es

pub new-IsConsistent : IsConsistent new_http_stream
unfolding new_http_stream flatten
new-IsConsistent = record {
  counted = refl;
  bounded = omega arith;
  in_hand = omega arith;
  fed_finished = refl;
  emptied = refl;
  coalesced = omega arith;
}

-- What a step keeps: the counters stay consistent, and the credit owed after it, with what it returns
-- to the connection, is what was owed before with the body that came in.
abbrev pub Balanced : HttpStream → Bytes → HttpStream × List Call → Type 0
Balanced h body (h', cs) = IsConsistent h' × (held h' + returned cs ≡ held h + length body)

length-queue :
    (q : List Bytes) (p : Bytes) → length (flatten (q ++ p ∷ [])) ≡ length (flatten q) + length p
length-queue q p = rw (flatten-snoc q p) (length-append (flatten q) p)

on_req_body-Balanced :
    (id : ℕ) (h : HttpStream) (p : Bytes) → IsConsistent h → Balanced h p (on_req_body id h p)
unfolding on_req_body
on_req_body-Balanced id h p c = ground (arith, length-queue h.queue p)

pub http_on_frame-Balanced :
    (id : ℕ) (h : HttpStream) (f : Frame) (t : FrameType) (r : HttpStream × List Call)
    → f.type ≡ t
    → IsConsistent h
    → http_on_frame id h f ≡ some r
    → Balanced h (body_of f) r
unfolding http_on_frame
http_on_frame-Balanced id h f req_body r t c e =
    ground (arith, on_req_body-Balanced id h f.payload c)
http_on_frame-Balanced id h f window r t c e = ground arith
http_on_frame-Balanced id h f _ r t c e = ground arith

look-Balanced :
    (h : HttpStream) (q : List Bytes)
    → h.queue ≡ q
    → h.feeder ≡ looking
    → IsConsistent h
    → Balanced h [] (look h q, [])
unfolding look flatten
look-Balanced h [] q f c = ground arith
look-Balanced h (chunk ∷ rest) q f c = ground (arith, length-append chunk (flatten rest))

pub feed_step-Balanced :
    (id : ℕ) (h : HttpStream) (w : Written) (fd : Feeder)
    → h.feeder ≡ fd
    → IsConsistent h
    → Balanced h [] (feed_step id h w)
unfolding feed_step flatten
feed_step-Balanced id h w looking f c = ground (arith, look-Balanced h h.queue refl f c)
feed_step-Balanced id h w leaving f c = ground arith
feed_step-Balanced id h w finished f c = ground arith
feed_step-Balanced id h w (writing chunk) f c = ground arith
feed_step-Balanced id h w (granting chunk) f c = ground arith

pub http_on_frame-none :
    (id : ℕ) (h : HttpStream) (f : Frame) (t : FrameType)
    → f.type ≡ t
    → http_on_frame id h f ≡ none
    → body_of f ≡ []
unfolding http_on_frame
http_on_frame-none id h f req_body t e = ground arith
http_on_frame-none id h f _ t e = ground arith

-- A step of a stream.
pub http_step-Balanced :
    (id : ℕ) (h : HttpStream) (e : HttpEvent)
    → IsConsistent h
    → Balanced h (body_in e) (http_step id h e)
unfolding http_step
http_step-Balanced id h (frame_in f) c = frame (http_on_frame id h f) refl
  where
    frame :
        (o : Option (HttpStream × List Call))
        → http_on_frame id h f ≡ o
        → Balanced h (body_of f) (or_same h o)
    frame none e = (c, ap (λ b. held h + length b) (sym (http_on_frame-none id h f f.type refl e)))
    frame (some r) e = http_on_frame-Balanced id h f f.type r refl c e
http_step-Balanced id h (feeds w) c = feed_step-Balanced id h w h.feeder refl c
http_step-Balanced id h cancels c = ground arith

returned-append : (cs ds : List Call) → returned (cs ++ ds) ≡ returned cs + returned ds
returned-append [] ds = omega arith
returned-append (grants n ∷ cs) ds = omega (arith, returned-append cs ds)
returned-append (flushes ∷ cs) ds = returned-append cs ds
returned-append (sends_ctrl f ∷ cs) ds = returned-append cs ds
returned-append (sends_data f ∷ cs) ds = returned-append cs ds

-- From any consistent state of a stream and over any history, its counters stay consistent, and no
-- credit is lost or made up: what it owes in the end, with what it returned to the connection, is
-- what it owed at first with the body that came in.
pub http_run-Balanced :
    (id : ℕ) (h : HttpStream) (es : List HttpEvent)
    → IsConsistent h
    → Balanced h (bodies es) (http_run id h es)
unfolding http_run
http_run-Balanced id h [] c = (c, omega arith)
http_run-Balanced id h (e ∷ es) c =
    let (c', b) = http_step-Balanced id h e c in
    let (c'', b') = http_run-Balanced id (http_step id h e).0 es c' in
    let r = returned-append (http_step id h e).1 (http_run id (http_step id h e).0 es).1 in
    (c'', omega (arith, b, b', r, length-append (body_in e) (bodies es)))
