-- ===== src/Tunnel/Session/Dispatch.antt =====
-- What `dispatch` does to the receive credit of the connection.
use tuzy.Shared.{
  ◌+◌, ◌≤◌, ◌≡◌, refl, sym, subst, inl, inr, false, Bool-cases, Option, none, some, Option-cases,
  length, ◌==◌, if◌then◌else◌,
}
use tuzy.Protocol.{
  FrameType, Frame, stream_window, req_body, req_head, window, goaway, hello, req_end, reset,
  ws_text, ws_binary, ws_close, ack,
}
use tuzy.Protocol.Shape.{Shape}
use tuzy.Tunnel.Flow.{Credit, add}
use tuzy.Tunnel.Http.Accounts.{body_of}
use tuzy.Tunnel.Session.{Session, Stream, Json, find_stream, grant_conn, Goaway}
use tuzy.Tunnel.Session.Reader.{
  handled_frame, is_req_body, add_conn, set_goaway, stream_on_frame, deliver_to, deliver,
  dispatch_as, dispatch,
}
use tuzy.Tunnel.Session.Calls.{grant_conn-Credits}
use tuzy.Tunnel.Session.Objects.{find_object-IsSound, find_stream→find_object}
use tuzy.Tunnel.Session.Streams.{stream_on_frame-Steps}
use tuzy.Tunnel.Session.Balance.{
  IsValid, Takes, Takes-refl, Credits-Takes, same_owed-Takes, after_step-Takes,
}
use tuzy.Tunnel.Session.Frames.{after, Shape-body, open_stream-Takes, stream_on_frame-none}

handled_frame-Takes :
    (js : Json) (f : Frame) (st : Stream) (s : Session)
    → IsValid s
    → length (body_of f) ≤ stream_window
    → find_stream f.stream_id s.handlers ≡ some st
    → Takes
        (length (body_of f))
        s
        (after (handled_frame f.stream_id s (stream_on_frame js f.stream_id st f)))
handled_frame-Takes js f st s v l e =
    let e' = find_stream→find_object f.stream_id (s.max_seen + 1) s.handlers st v.streams e in
    let (p, d) = find_object-IsSound f.stream_id (s.max_seen + 1) s.handlers st v.streams e' in
    elim (Option-cases (stream_on_frame js f.stream_id st f)) [
      | inl x ↦ rw (x, stream_on_frame-none js f.stream_id st f x) (Takes-refl s v)
      | inr (r, x) ↦ rw x (
          after_step-Takes f.stream_id (length (body_of f)) st r s v e'
            (stream_on_frame-Steps js f.stream_id st f r d l x))
    ]

dropped-Takes :
    (f : Frame) (t : FrameType) (s : Session)
    → f.type ≡ t
    → IsValid s
    → length (body_of f) ≤ stream_window
    → Takes
        (length (body_of f))
        s
        (if is_req_body f.type then grant_conn (length f.payload) s else s)
dropped-Takes f req_body s e v l = rw e (
    Credits-Takes (length f.payload) s (grant_conn (length f.payload) s) v
      (grant_conn-Credits (length f.payload) s (rw e at l) v.waiting))
dropped-Takes f hello s e v l = rw e (Takes-refl s v)
dropped-Takes f _ s e v l = rw e (Takes-refl s v)

deliver_to-Takes :
    (js : Json) (f : Frame) (s : Session) (o : Option Stream)
    → find_stream f.stream_id s.handlers ≡ o
    → IsValid s
    → length (body_of f) ≤ stream_window
    → Takes (length (body_of f)) s (after (deliver_to js f s o))
deliver_to-Takes js f s none e v l = dropped-Takes f f.type s refl v l
deliver_to-Takes js f s (some st) e v l = handled_frame-Takes js f st s v l e

deliver-Takes :
    (js : Json) (f : Frame) (s : Session)
    → IsValid s
    → length (body_of f) ≤ stream_window
    → Takes (length (body_of f)) s (after (deliver js f s))
unfolding deliver
deliver-Takes js f s v l = deliver_to-Takes js f s (find_stream f.stream_id s.handlers) refl v l

add_conn-Takes : (s : Session) (o : Option Credit) → IsValid s → Takes 0 s (after (add_conn s o))
add_conn-Takes s none v = Takes-refl s v
add_conn-Takes s (some c) v =
    same_owed-Takes s (record s { conn_credit = c }) v v.streams refl refl refl

set_goaway-Takes :
    (s : Session) (o : Option Goaway) → IsValid s → Takes 0 s (after (set_goaway s o))
set_goaway-Takes s none v = Takes-refl s v
set_goaway-Takes s (some g) v =
    same_owed-Takes s (record s { goaway_msg = some g }) v v.streams refl refl refl

-- A frame that is no REQ_BODY has no body.
no_body-Takes :
    (f : Frame) (t : FrameType) (s s' : Session)
    → f.type ≡ t
    → is_req_body t ≡ false
    → Takes 0 s s'
    → Takes (length (body_of f)) s s'
no_body-Takes f t s s' e n k = subst (λ m. Takes m s s') (sym (empty f t e n)) k
  where
    empty :
        (f : Frame) (t : FrameType) → f.type ≡ t → is_req_body t ≡ false → length (body_of f) ≡ 0
    empty f req_body e n = absurd (cc)
    empty f hello e n = rw e refl
    empty f _ e n = rw e refl

window-Takes :
    (js : Json) (f : Frame) (s : Session)
    → f.type ≡ window
    → IsValid s
    → length (body_of f) ≤ stream_window
    → Takes (length (body_of f)) s (after (dispatch_as window js f s))
window-Takes js f s e v l = elim (Bool-cases (f.stream_id == 0)) [
  | inl z ↦
      rw z (no_body-Takes f window s _ e refl (add_conn-Takes s (add s.conn_credit f.value) v))
  | inr z ↦ rw z (deliver-Takes js f s v l)
]

dispatch_as-Takes :
    (js : Json) (f : Frame) (t : FrameType) (s : Session)
    → f.type ≡ t
    → IsValid s
    → Shape js.codecs t f.stream_id f.payload
    → length (body_of f) ≤ stream_window
    → Takes (length (body_of f)) s (after (dispatch_as t js f s))
dispatch_as-Takes js f req_head s e v h l =
    no_body-Takes f req_head s _ e refl (open_stream-Takes js f s h.0 v)
dispatch_as-Takes js f window s e v h l = window-Takes js f s e v l
dispatch_as-Takes js f goaway s e v h l =
    no_body-Takes f goaway s _ e refl (set_goaway-Takes s (js.goaway_of f.payload) v)
dispatch_as-Takes js f req_body s e v h l = deliver-Takes js f s v l
dispatch_as-Takes js f req_end s e v h l = deliver-Takes js f s v l
dispatch_as-Takes js f reset s e v h l = deliver-Takes js f s v l
dispatch_as-Takes js f ws_text s e v h l = deliver-Takes js f s v l
dispatch_as-Takes js f ws_binary s e v h l = deliver-Takes js f s v l
dispatch_as-Takes js f ws_close s e v h l = deliver-Takes js f s v l
dispatch_as-Takes js f ack s e v h l = deliver-Takes js f s v l
dispatch_as-Takes js f hello s e v h l = no_body-Takes f hello s _ e refl (Takes-refl s v)
dispatch_as-Takes js f _ s e v h l = no_body-Takes f _ s _ e refl (Takes-refl s v)

-- What a frame does.
pub dispatch-Takes :
    (js : Json) (f : Frame) (s : Session)
    → IsValid s
    → Shape js.codecs f.type f.stream_id f.payload
    → Takes (length (body_of f)) s (after (dispatch js f s))
unfolding dispatch
dispatch-Takes js f s v h =
    dispatch_as-Takes js f f.type s refl v h (Shape-body js.codecs f.type f.stream_id f refl h)
