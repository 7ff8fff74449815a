-- ===== src/Tunnel/Handshake.antt =====
-- internal/tunnel/session.go: `handshake`, which sends HELLO and waits for READY or GOAWAY before the loops of a
-- session start.
pub mod Answers
mod Tests
use tuzy.Shared.{ℕ, Bool, true, false, ◌||◌, Option, none, some, List, [], ◌∷◌, if◌then◌else◌}
use Prim.Native.String.{String}
use text.Mathlib.Text.{◌==◌ as str_eq}
use tuzy.Protocol.{Bytes, FrameType, Frame, Codecs, Result, Error, ok, err, hello, ready, goaway}
use tuzy.Protocol.Decode.{decode, encode_json}
use tuzy.Tunnel.Session.{Goaway}

-- `HelloMsg`
pub record Hello : Type 0 where
  pub proto : ℕ
  pub client : String
  pub instance_id : String

-- `ReadyMsg`
pub record Ready : Type 0 where
  pub name : String
  pub url : String
  pub epoch : ℕ

-- What the handshake uses of the Go library: the codec's, `json.Marshal` and `json.Unmarshal`.
pub record HelloJson : Type 0 where
  pub codecs : Codecs
  pub hello_text : Hello → Option Bytes
  pub ready_of : Bytes → Option Ready
  pub goaway_of : Bytes → Option Goaway

-- What `conn.Read` gives. The timeout of the handshake is a read that fails.
pub data Inbound : Type 0 where
  text_in binary_in : Bytes → Inbound
  no_read : Inbound

pub data HandshakeError : Type 0 where
  hello_unencoded write_failed read_failed : HandshakeError
  bad_frame : Error → HandshakeError
  bad_ready ready_incomplete bad_goaway goaway_without_reason : HandshakeError
  before_ready : FrameType → HandshakeError

pub data Welcome : Type 0 where
  welcome : Ready → Welcome
  sent_away : Goaway → Welcome
  failed : HandshakeError → Welcome

unfoldable pub on_ready : Option Ready → Welcome
on_ready none = failed bad_ready
on_ready (some r) =
    if str_eq r.name "" || str_eq r.url "" then failed ready_incomplete else welcome r

unfoldable pub on_goaway : Option Goaway → Welcome
on_goaway none = failed bad_goaway
on_goaway (some g) = if str_eq g.reason "" then failed goaway_without_reason else sent_away g

-- The switch on the type of the first frame.
unfoldable pub on_first : HelloJson → FrameType → Bytes → Welcome
unfolding on_ready on_goaway
on_first js ready payload = on_ready (js.ready_of payload)
on_first js goaway payload = on_goaway (js.goaway_of payload)
on_first js t payload = failed (before_ready t)

unfoldable pub on_decoded : HelloJson → Result Frame → Welcome
unfolding on_first
on_decoded js (err e) = failed (bad_frame e)
on_decoded js (ok f) = on_first js f.type f.payload

-- The loop: text messages are passed over.
unfoldable pub await_ready : HelloJson → List Inbound → Welcome
unfolding on_decoded
await_ready js [] = failed read_failed
await_ready js (no_read ∷ ms) = failed read_failed
await_ready js (text_in b ∷ ms) = await_ready js ms
await_ready js (binary_in b ∷ ms) = on_decoded js (decode js.codecs b)

-- What is written, and the result; the Boolean says if the write succeeds.
unfoldable pub greet : HelloJson → Option Bytes → Bool → List Inbound → List Bytes × Welcome
unfolding await_ready
greet js none written ms = ([], failed hello_unencoded)
greet js (some b) false ms = (b ∷ [], failed write_failed)
greet js (some b) true ms = (b ∷ [], await_ready js ms)

unfoldable pub handshake : HelloJson → Hello → Bool → List Inbound → List Bytes × Welcome
unfolding greet encode_json
handshake js h written ms = greet js (encode_json js.hello_text hello 0 h) written ms
