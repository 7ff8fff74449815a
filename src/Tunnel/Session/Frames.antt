-- ===== src/Tunnel/Session/Frames.antt =====
-- What each frame does to the connection's receive credit.
use tuzy.Shared.{
  ℕ, ◌+◌, ◌≤◌, ◌<◌, ◌≡◌, refl, ap, inl, inr, true, Bool-cases, Option, none, some, Option-cases,
  ◌∷◌, length, arith, leb,
}
use tuzy.Protocol.{Bytes, FrameType, Frame, Codecs, stream_window, req_body, hello}
use text.Mathlib.Text.{◌==◌ as str_eq}
use tuzy.Protocol.Shape.{Shape}
use tuzy.Tunnel.Calls.{CloseMsg, reset_frame, protocol_error}
use tuzy.Tunnel.Http.{http_on_frame, new_http_stream}
use tuzy.Tunnel.Http.Accounts.{body_of, http_on_frame-none, new-IsConsistent}
use tuzy.Tunnel.Ws.{WsStream, ws_on_frame, new_ws_stream}
use tuzy.Tunnel.Session.{Session, Stream, Json, ReqHead, http, ws, send_ctrl}
use tuzy.Tunnel.Session.Reader.{
  Handled, goes_on, fails, bad_head, open_fresh, open_stream, stream_on_frame,
}
use tuzy.Tunnel.Session.Calls.{send_ctrl-Credits}
use tuzy.Tunnel.Session.Objects.{owed, IsSound, AreSound-mono}
use tuzy.Tunnel.Session.Balance.{
  IsValid, Takes, Takes-refl, Takes-trans, Credits-Takes, same_owed-Takes,
}

-- The session after a handler of the reader.
abbrev pub after : Handled → Session
after (goes_on s) = s
after (fails c s) = s

pub Shape-body :
    (c : Codecs) (t : FrameType) (id : ℕ) (f : Frame)
    → f.type ≡ t
    → Shape c t id f.payload
    → length (body_of f) ≤ stream_window
Shape-body c req_body id f e s = ground arith
Shape-body c hello id f e s = ground arith
Shape-body c _ id f e s = ground arith

new_streams :
    IsSound (http new_http_stream) × IsSound (ws new_ws_stream) × (owed (http new_http_stream) ≡ 0)
unfolding new_ws_stream new_http_stream
new_streams = (new-IsConsistent, ground arith, refl)

raise_seen-Takes :
    (id : ℕ) (s : Session) → s.max_seen < id → IsValid s → Takes 0 s (record s { max_seen = id })
raise_seen-Takes id s l v =
    same_owed-Takes s (record s { max_seen = id }) v
      (AreSound-mono (s.max_seen + 1) (id + 1) s.handlers (omega arith) v.streams) refl refl refl

refused-Takes :
    (id : ℕ) (s : Session) → IsValid s → Takes 0 s (send_ctrl (reset_frame id protocol_error) s)
refused-Takes id s v =
    Credits-Takes 0 s (send_ctrl (reset_frame id protocol_error) s) v
      (send_ctrl-Credits (reset_frame id protocol_error) s refl v.waiting)

started-Takes :
    (id : ℕ) (st : Stream) (s t : Session)
    → IsSound st
    → owed st ≡ 0
    → 0 < id
    → s.max_seen < id
    → IsValid s
    → t ≡ record s {
      handlers = record { id = id; listed = true; stream = st } ∷ s.handlers;
      max_seen = id;
    }
    → Takes 0 s t
started-Takes id st s t d o p l v e = rw e (
    same_owed-Takes s _ v
      (p, omega arith, d, AreSound-mono (s.max_seen + 1) id s.handlers (omega arith) v.streams)
      (omega (arith, o)) refl refl)

raised_refused-Takes :
    (id : ℕ) (s : Session)
    → s.max_seen < id
    → IsValid s
    → Takes 0 s (send_ctrl (reset_frame id protocol_error) (record s { max_seen = id }))
raised_refused-Takes id s l v =
    let a = raise_seen-Takes id s l v in
    Takes-trans 0 0 s (record s { max_seen = id }) _ a
      (refused-Takes id (record s { max_seen = id }) a.valid)

open_fresh-Takes :
    (id : ℕ) (o : Option ReqHead) (s : Session)
    → 0 < id
    → s.max_seen < id
    → IsValid s
    → Takes 0 s (after (open_fresh id o (record s { max_seen = id })))
unfolding open_fresh
open_fresh-Takes id none s p l v = raised_refused-Takes id s l v
open_fresh-Takes id (some head) s p l v =
    let (c, b, o) = new_streams in
    elim (Bool-cases (bad_head head)) [
      | inl bad ↦ rw bad (raised_refused-Takes id s l v)
      | inr good ↦ elim (Bool-cases (str_eq head.kind "ws")) [
        | inl k ↦ rw (good, k) (started-Takes id (ws new_ws_stream) s _ b refl p l v refl)
        | inr k ↦ rw (good, k) (started-Takes id (http new_http_stream) s _ c o p l v refl)
      ]
    ]

pub open_stream-Takes :
    (js : Json) (f : Frame) (s : Session)
    → 0 < f.stream_id
    → IsValid s
    → Takes 0 s (after (open_stream js f s))
unfolding open_stream
open_stream-Takes js f s p v = elim (Bool-cases (leb f.stream_id s.max_seen)) [
  | inl stale ↦ rw stale (Takes-refl s v)
  | inr fresh ↦
      rw fresh
        (open_fresh-Takes f.stream_id (js.req_head_of f.payload) s p (ground (arith, fresh)) v)
]

ws_on_frame-none :
    (u : Bytes → Option CloseMsg) (id : ℕ) (w : WsStream) (f : Frame) (t : FrameType)
    → f.type ≡ t
    → ws_on_frame u id w f ≡ none
    → length (body_of f) ≡ 0
unfolding ws_on_frame
ws_on_frame-none u id w f req_body t e = ground arith
ws_on_frame-none u id w f _ t e = ground arith

pub stream_on_frame-none :
    (js : Json) (id : ℕ) (st : Stream) (f : Frame)
    → stream_on_frame js id st f ≡ none
    → length (body_of f) ≡ 0
unfolding stream_on_frame
stream_on_frame-none js id (http h) f e = elim (Option-cases (http_on_frame id h f)) [
  | inl x ↦ ap length (http_on_frame-none id h f f.type refl x)
  | inr (r, x) ↦ ground (arith, x)
]
stream_on_frame-none js id (ws w) f e = elim (Option-cases (ws_on_frame js.close_of id w f)) [
  | inl x ↦ ws_on_frame-none js.close_of id w f f.type refl x
  | inr (r, x) ↦ ground (arith, x)
]
