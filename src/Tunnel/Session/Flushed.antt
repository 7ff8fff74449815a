-- ===== src/Tunnel/Session/Flushed.antt =====
-- What the reader and the streams do keeps the connection's receive credit granted while no stream is
-- open.
use tuzy.Shared.{
  same_bytes, ℕ, ◌≡◌, refl, inl, inr, Bool-cases, Option, none, some, List, [], ◌∷◌, length, arith,
  ◌==◌, if◌then◌else◌, leb,
}
use tuzy.Protocol.{
  FrameType, Frame, Result, ok, err, malformed, stream_error, Violation, req_body, req_head, window,
  goaway, hello, req_end, reset, ws_text, ws_binary, ws_close, ack,
}
use tuzy.Protocol.Decode.{decode}
use tuzy.Tunnel.Flow.{Credit, add}
use tuzy.Tunnel.Calls.{Call, grants, flushes, sends_ctrl, sends_data}
use tuzy.Tunnel.CloseReason.{ascii_bytes}
use tuzy.Tunnel.Session.{
  Session, Handler, Stream, Json, ReqHead, Goaway, http, ws, live, send_ctrl, grant_conn,
  flush_conn, perform, find_stream, put_object, after_step, Cause,
}
use tuzy.Tunnel.Session.Reader.{
  Handled, goes_on, fails, bad_head, open_fresh, open_stream, handled_frame, is_req_body,
  stream_on_frame, deliver_to, deliver, add_conn, set_goaway, dispatch_as, dispatch, first_cause,
  cancel, settled, stream_error_on, on_stream_error, on_decoded, Message, text_message,
  binary_message, broken, read_message,
}
use tuzy.Tunnel.Session.Frames.{after}

-- No credit is gathered while no stream is in the map and no goroutine is still to flush.
abbrev pub IsFlushed : Session → Type 0
IsFlushed s =
    (if live s.handlers == 0 then (if s.flushing == 0 then s.conn_ungranted else 0) else 0) ≡ 0

live-put_object : (id : ℕ) (st : Stream) (hs : List Handler) → live (put_object id st hs) ≡ live hs
unfolding live put_object
live-put_object id st [] = refl
live-put_object id st (h ∷ hs) = ground (arith, live-put_object id st hs)

pub grant_conn-IsFlushed : (n : ℕ) (s : Session) → IsFlushed (grant_conn n s)
unfolding grant_conn
grant_conn-IsFlushed n s = ground arith

pub flush_conn-IsFlushed : (s : Session) → IsFlushed (flush_conn s)
unfolding flush_conn
flush_conn-IsFlushed s = ground arith

perform-IsFlushed : (cs : List Call) (s : Session) → IsFlushed s → IsFlushed (perform cs s)
unfolding perform send_ctrl
perform-IsFlushed [] s q = q
perform-IsFlushed (grants n ∷ cs) s q =
    perform-IsFlushed cs (grant_conn n s) (grant_conn-IsFlushed n s)
perform-IsFlushed (flushes ∷ cs) s q = perform-IsFlushed cs (flush_conn s) (flush_conn-IsFlushed s)
perform-IsFlushed (sends_ctrl f ∷ cs) s q = perform-IsFlushed cs (send_ctrl f s) q
perform-IsFlushed (sends_data f ∷ cs) s q = perform-IsFlushed cs _ q

put-IsFlushed :
    (id : ℕ) (st : Stream) (s : Session)
    → IsFlushed s
    → IsFlushed (record s { handlers = put_object id st s.handlers })
put-IsFlushed id st s q = rw (live-put_object id st s.handlers) q

pub after_step-IsFlushed :
    (id : ℕ) (r : Stream × List Call) (s : Session) → IsFlushed s → IsFlushed (after_step id r s)
unfolding after_step
after_step-IsFlushed id r s q = perform-IsFlushed r.1 _ (put-IsFlushed id r.0 s q)

open_fresh-IsFlushed :
    (id : ℕ) (o : Option ReqHead) (s : Session)
    → IsFlushed s
    → IsFlushed (after (open_fresh id o s))
unfolding open_fresh send_ctrl live
open_fresh-IsFlushed id none s q = q
open_fresh-IsFlushed id (some head) s q = elim (Bool-cases (bad_head head)) [
  | inl bad ↦ rw bad q
  | inr good ↦ rw good (ground arith)
]

open_stream-IsFlushed :
    (js : Json) (f : Frame) (s : Session) → IsFlushed s → IsFlushed (after (open_stream js f s))
unfolding open_stream
open_stream-IsFlushed js f s q = elim (Bool-cases (leb f.stream_id s.max_seen)) [
  | inl stale ↦ rw stale q
  | inr fresh ↦ rw fresh (
      open_fresh-IsFlushed f.stream_id (js.req_head_of f.payload)
        (record s { max_seen = f.stream_id }) q)
]

handled_frame-IsFlushed :
    (id : ℕ) (s : Session) (o : Option (Stream × List Call))
    → IsFlushed s
    → IsFlushed (after (handled_frame id s o))
handled_frame-IsFlushed id s none q = q
handled_frame-IsFlushed id s (some r) q = after_step-IsFlushed id r s q

deliver_to-IsFlushed :
    (js : Json) (f : Frame) (s : Session) (o : Option Stream)
    → IsFlushed s
    → IsFlushed (after (deliver_to js f s o))
deliver_to-IsFlushed js f s none q = elim (Bool-cases (is_req_body f.type)) [
  | inl body ↦ rw body (grant_conn-IsFlushed (length f.payload) s)
  | inr other ↦ rw other q
]
deliver_to-IsFlushed js f s (some st) q =
    handled_frame-IsFlushed f.stream_id s (stream_on_frame js f.stream_id st f) q

deliver-IsFlushed :
    (js : Json) (f : Frame) (s : Session) → IsFlushed s → IsFlushed (after (deliver js f s))
unfolding deliver
deliver-IsFlushed js f s q = deliver_to-IsFlushed js f s (find_stream f.stream_id s.handlers) q

add_conn-IsFlushed :
    (s : Session) (o : Option Credit) → IsFlushed s → IsFlushed (after (add_conn s o))
add_conn-IsFlushed s none q = q
add_conn-IsFlushed s (some c) q = q

set_goaway-IsFlushed :
    (s : Session) (o : Option Goaway) → IsFlushed s → IsFlushed (after (set_goaway s o))
set_goaway-IsFlushed s none q = q
set_goaway-IsFlushed s (some c) q = q

dispatch_as-IsFlushed :
    (js : Json) (f : Frame) (t : FrameType) (s : Session)
    → IsFlushed s
    → IsFlushed (after (dispatch_as t js f s))
dispatch_as-IsFlushed js f req_head s q = open_stream-IsFlushed js f s q
dispatch_as-IsFlushed js f window s q = elim (Bool-cases (f.stream_id == 0)) [
  | inl z ↦ rw z (add_conn-IsFlushed s (add s.conn_credit f.value) q)
  | inr z ↦ rw z (deliver-IsFlushed js f s q)
]
dispatch_as-IsFlushed js f goaway s q = set_goaway-IsFlushed s (js.goaway_of f.payload) q
dispatch_as-IsFlushed js f req_body s q = deliver-IsFlushed js f s q
dispatch_as-IsFlushed js f req_end s q = deliver-IsFlushed js f s q
dispatch_as-IsFlushed js f reset s q = deliver-IsFlushed js f s q
dispatch_as-IsFlushed js f ws_text s q = deliver-IsFlushed js f s q
dispatch_as-IsFlushed js f ws_binary s q = deliver-IsFlushed js f s q
dispatch_as-IsFlushed js f ws_close s q = deliver-IsFlushed js f s q
dispatch_as-IsFlushed js f ack s q = deliver-IsFlushed js f s q
dispatch_as-IsFlushed js f hello s q = q
dispatch_as-IsFlushed js f _ s q = q

first_cause-IsFlushed :
    (o : Option Cause) (c : Cause) (s : Session) → IsFlushed s → IsFlushed (first_cause o c s)
first_cause-IsFlushed none c s q = q
first_cause-IsFlushed (some d) c s q = q

cancel-IsFlushed : (c : Cause) (s : Session) → IsFlushed s → IsFlushed (cancel c s)
unfolding cancel
cancel-IsFlushed c s q = first_cause-IsFlushed s.cause c s q

settled-IsFlushed : (h : Handled) → IsFlushed (after h) → IsFlushed (settled h)
settled-IsFlushed (goes_on s) q = q
settled-IsFlushed (fails c s) q = cancel-IsFlushed c s q

stream_error_on-IsFlushed :
    (id close_code : ℕ) (x : Violation) (s : Session) (o : Option Stream)
    → IsFlushed s
    → IsFlushed (stream_error_on id close_code x s o)
stream_error_on-IsFlushed id close_code x s none q = q
stream_error_on-IsFlushed id close_code x s (some (http h)) q = q
stream_error_on-IsFlushed id close_code x s (some (ws w)) q = put-IsFlushed id _ s q

on_decoded-IsFlushed :
    (js : Json) (r : Result Frame) (s : Session) → IsFlushed s → IsFlushed (on_decoded js r s)
unfolding on_decoded on_stream_error dispatch
on_decoded-IsFlushed js (ok f) s q =
    settled-IsFlushed (dispatch js f s) (dispatch_as-IsFlushed js f f.type s q)
on_decoded-IsFlushed js (err (malformed x)) s q = cancel-IsFlushed _ s q
on_decoded-IsFlushed js (err (stream_error id n x)) s q =
    stream_error_on-IsFlushed id n x s (find_stream id s.handlers) q

pub read_message-IsFlushed :
    (js : Json) (m : Message) (s : Session) → IsFlushed s → IsFlushed (read_message js m s)
unfolding read_message
read_message-IsFlushed js broken s q = cancel-IsFlushed _ s q
read_message-IsFlushed js (text_message b) s q =
    elim (Bool-cases (same_bytes b (ascii_bytes "tuzy-pong"))) [
      | inl pong ↦ rw pong q
      | inr other ↦ rw other (cancel-IsFlushed _ s q)
    ]
read_message-IsFlushed js (binary_message b) s q = on_decoded-IsFlushed js (decode js.codecs b) s q
