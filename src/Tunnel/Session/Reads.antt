-- ===== src/Tunnel/Session/Reads.antt =====
-- What `readLoop` does to the receive credit of the connection.
use tuzy.Shared.{
  same_bytes, ℕ, ◌+◌, ◌≡◌, refl, inl, inr, Bool-cases, Option, none, some, length, arith,
}
use tuzy.Protocol.{Bytes, Frame, Result, ok, err, malformed, stream_error, Violation}
use tuzy.Protocol.Decode.{decode}
use tuzy.Protocol.RoundTrip.{decode-Shape}
use tuzy.Tunnel.Calls.{CloseMsg}
use tuzy.Tunnel.CloseReason.{ascii_bytes}
use tuzy.Tunnel.Http.Accounts.{body_of}
use tuzy.Tunnel.Ws.{WsStream, local_close}
use tuzy.Tunnel.Ws.Invariant.{IsBounded}
use tuzy.Tunnel.Session.{
  Session, Stream, Json, http, ws, find_stream, find_object, put_object, Cause, read_failed,
  unexpected_text, bad_frame,
}
use tuzy.Tunnel.Session.Reader.{
  Handled, goes_on, fails, dispatch, first_cause, cancel, error_text, stream_error_on, settled,
  on_stream_error, on_decoded, Message, text_message, binary_message, broken, read_message,
}
use tuzy.Tunnel.Session.Objects.{
  owed, IsSound, find_object-IsSound, find_stream→find_object, put_object-AreSound, owed-put_object,
}
use tuzy.Tunnel.Session.Balance.{IsValid, Takes, Takes-refl, same_owed-Takes}
use tuzy.Tunnel.Session.Frames.{after}
use tuzy.Tunnel.Session.Dispatch.{dispatch-Takes}

-- The bytes of request body in a message from the edge.
abbrev pub body_decoded : Result Frame → ℕ
body_decoded (ok f) = length (body_of f)
body_decoded (err x) = 0

abbrev pub body_read : Json → Message → ℕ
body_read js (binary_message b) = body_decoded (decode js.codecs b)
body_read js _ = 0

first_cause-Takes :
    (n : ℕ) (o : Option Cause) (c : Cause) (s s' : Session)
    → Takes n s s'
    → Takes n s (first_cause o c s')
first_cause-Takes n none c s s' k = record {
  valid = record { streams = k.valid.streams; waiting = k.valid.waiting };
  balance = k.balance;
}
first_cause-Takes n (some d) c s s' k = k

cancel-Takes : (n : ℕ) (c : Cause) (s s' : Session) → Takes n s s' → Takes n s (cancel c s')
unfolding cancel
cancel-Takes n c s s' k = first_cause-Takes n s'.cause c s s' k

settled-Takes : (n : ℕ) (s : Session) (h : Handled) → Takes n s (after h) → Takes n s (settled h)
settled-Takes n s (goes_on s') k = k
settled-Takes n s (fails c s') k = cancel-Takes n c s s' k

-- A step of one stream object that owes the same.
pub put_same-Takes :
    (id : ℕ) (old st : Stream) (s : Session)
    → IsValid s
    → find_object id s.handlers ≡ some old
    → IsSound st
    → owed st ≡ owed old
    → Takes 0 s (record s { handlers = put_object id st s.handlers })
put_same-Takes id old st s v e d o =
    same_owed-Takes s (record s { handlers = put_object id st s.handlers }) v
      (put_object-AreSound id (s.max_seen + 1) st s.handlers d v.streams)
      (omega (arith, o, owed-put_object id st old s.handlers e)) refl refl

local_close-IsSound : (w : WsStream) (c : CloseMsg) → IsBounded w → IsBounded (local_close w c)
unfolding local_close
local_close-IsSound w c b = ground arith

stream_error_on-Takes :
    (id close_code : ℕ) (x : Violation) (s : Session) (o : Option Stream)
    → find_stream id s.handlers ≡ o
    → IsValid s
    → Takes 0 s (stream_error_on id close_code x s o)
stream_error_on-Takes id close_code x s none e v = Takes-refl s v
stream_error_on-Takes id close_code x s (some (http h)) e v = Takes-refl s v
stream_error_on-Takes id close_code x s (some (ws w)) e v =
    let c : CloseMsg = record { code = close_code; reason = error_text x } in
    let e' = find_stream→find_object id (s.max_seen + 1) s.handlers (ws w) v.streams e in
    let (p, b) = find_object-IsSound id (s.max_seen + 1) s.handlers (ws w) v.streams e' in
    put_same-Takes id (ws w) (ws (local_close w c)) s v e' (local_close-IsSound w c b) refl

on_decoded-Takes :
    (js : Json) (r : Result Frame) (s : Session) (b : Bytes)
    → decode js.codecs b ≡ r
    → IsValid s
    → Takes (body_decoded r) s (on_decoded js r s)
unfolding on_decoded on_stream_error
on_decoded-Takes js (ok f) s b e v =
    settled-Takes (length (body_of f)) s (dispatch js f s)
      (dispatch-Takes js f s v (decode-Shape js.codecs b f e))
on_decoded-Takes js (err (malformed x)) s b e v = cancel-Takes 0 (bad_frame x) s s (Takes-refl s v)
on_decoded-Takes js (err (stream_error id n x)) s b e v =
    stream_error_on-Takes id n x s (find_stream id s.handlers) refl v

pub read_message-Takes :
    (js : Json) (m : Message) (s : Session)
    → IsValid s
    → Takes (body_read js m) s (read_message js m s)
unfolding read_message
read_message-Takes js broken s v = cancel-Takes 0 read_failed s s (Takes-refl s v)
read_message-Takes js (text_message b) s v =
    elim (Bool-cases (same_bytes b (ascii_bytes "tuzy-pong"))) [
      | inl pong ↦ rw pong (Takes-refl s v)
      | inr other ↦ rw other (cancel-Takes 0 unexpected_text s s (Takes-refl s v))
    ]
read_message-Takes js (binary_message b) s v = on_decoded-Takes js (decode js.codecs b) s b refl v
