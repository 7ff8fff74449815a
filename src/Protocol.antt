-- ===== src/Protocol.antt =====
-- internal/protocol/frames.go: the frame types, the wire constants, `Decode` and the encoders.
-- Bytes are numbers below 256 and a byte slice is a list of them. `utf8.Valid` and `json.Unmarshal`
-- of the Go library are parameters.
pub mod Decode
pub mod Shape
pub mod RoundTrip
pub mod Errors
mod Tests
use tuzy.Shared.{
  ◌≡◌, refl, ◌⊎◌, inl, inr, ℕ, ◌+◌, ◌*◌, ◌/◌, ◌%◌, ◌^◌, ◌-◌, Bool, true, false, ◌&&◌, ◌||◌, not,
  Option, none, some, List, [], ◌∷◌, ◌++◌, ltb, ◌==◌, if◌then◌else◌, length,
}

abbrev pub Bytes : Type 0
Bytes = List ℕ

-- The constants of `FrameType`.
pub data FrameType : Type 0 where
  hello ready goaway drain : FrameType
  req_head req_body req_end : FrameType
  res_head res_body res_end : FrameType
  ws_text ws_binary ws_close : FrameType
  window reset ack : FrameType

-- The value of a constant: the byte on the wire.
unfoldable pub code : FrameType → ℕ
code hello = 0x01
code ready = 0x02
code goaway = 0x03
code drain = 0x04
code req_head = 0x10
code req_body = 0x11
code req_end = 0x12
code res_head = 0x20
code res_body = 0x21
code res_end = 0x22
code ws_text = 0x30
code ws_binary = 0x31
code ws_close = 0x32
code window = 0x40
code reset = 0x41
code ack = 0x42

-- The lookup in `typeNames`, by which `known` decides: the constant of a byte, if it has one.
unfoldable pub known : ℕ → Option FrameType
known b =
    if b == 0x01
    then some hello
    else if b == 0x02
    then some ready
    else if b == 0x03
    then some goaway
    else if b == 0x04
    then some drain
    else if b == 0x10
    then some req_head
    else if b == 0x11
    then some req_body
    else if b == 0x12
    then some req_end
    else if b == 0x20
    then some res_head
    else if b == 0x21
    then some res_body
    else if b == 0x22
    then some res_end
    else if b == 0x30
    then some ws_text
    else if b == 0x31
    then some ws_binary
    else if b == 0x32
    then some ws_close
    else if b == 0x40
    then some window
    else if b == 0x41
    then some reset
    else if b == 0x42
    then some ack
    else none

-- The wire constants.
abbrev pub max_body_chunk : ℕ
max_body_chunk = 64 * 1024

abbrev pub max_ws_message : ℕ
max_ws_message = 1024 * 1024

abbrev pub max_json_payload : ℕ
max_json_payload = 128 * 1024

abbrev pub stream_window : ℕ
stream_window = 1024 * 1024

abbrev pub conn_window : ℕ
conn_window = 8 * 1024 * 1024

abbrev pub max_window : ℕ
max_window = 2 ^ 31 - 1

abbrev pub ws_msg_credit : ℕ
ws_msg_credit = 8

abbrev pub ws_msg_tolerance : ℕ
ws_msg_tolerance = 16

-- The messages of the errors, each a constructor.
pub data Violation : Type 0 where
  short_header json_too_large body_too_large message_too_big invalid_utf8 : Violation
  unknown_type : ℕ → Violation
  nonzero_stream stream_zero not_empty not_four_bytes zero_value not_json_object :
      FrameType → Violation
  bad_payload : FrameType → Violation

-- `Error`: `malformed` is `KindMalformed`, `stream_error` is `KindStreamError` with its stream and
-- close code.
pub data Error : Type 0 where
  malformed : Violation → Error
  stream_error : ℕ → ℕ → Violation → Error

-- Go's pair of a value and an error.
pub data Result {ℓ} (V : Type ℓ) : Type ℓ where
  err : Error → Result V
  ok : V → Result V

abbrev pub ◌>>=◌ {ℓ κ} : {V : Type ℓ} {W : Type κ} → Result V → (V → Result W) → Result W
◌>>=◌ (err fault) next = err fault
◌>>=◌ (ok v) next = next v

-- A check, and what follows it.
abbrev pub ◌>>◌ {ℓ} : {W : Type ℓ} → Result (Unit {0}) → Result W → Result W
◌>>◌ (err fault) next = err fault
◌>>◌ (ok _) next = next

abbrev pub reject_if : Bool → Error → Result (Unit {0})
reject_if true e = err e
reject_if false e = ok tt

pub Result-cases {ℓ} :
    {V : Type ℓ} (r : Result V) → ((x : Error) × (r ≡ err x)) ⊎ ((v : V) × (r ≡ ok v))
Result-cases (err x) = inl (x, refl)
Result-cases (ok v) = inr (v, refl)

pub record Frame : Type 0 where
  pub type : FrameType
  pub stream_id : ℕ
  pub payload : Bytes
  pub value : ℕ

-- `json.Unmarshal` into a map: an error, the nil map that `null` leaves, or a map.
pub data Unmarshalled : Type 0 where
  rejected nil_map object : Unmarshalled

-- What the codec uses of the Go library.
pub record Codecs : Type 0 where
  pub utf8_valid : Bytes → Bool
  pub unmarshal_map : Bytes → Unmarshalled

unfoldable pub stream0_only : FrameType → Bool
stream0_only hello = true
stream0_only ready = true
stream0_only goaway = true
stream0_only drain = true
stream0_only _ = false

unfoldable pub is_json : FrameType → Bool
is_json hello = true
is_json ready = true
is_json goaway = true
is_json req_head = true
is_json res_head = true
is_json ws_close = true
is_json reset = true
is_json _ = false

unfoldable pub must_be_empty : FrameType → Bool
must_be_empty drain = true
must_be_empty req_end = true
must_be_empty res_end = true
must_be_empty _ = false

unfoldable pub is_u32 : FrameType → Bool
is_u32 window = true
is_u32 ack = true
is_u32 _ = false

-- `t == Window` and the like, on the constants.
unfoldable pub type_eq : FrameType → FrameType → Bool
unfolding code
type_eq a b = code a == code b

-- `isJSONObject`
unfoldable pub is_json_object : Codecs → Bytes → Bool
is_json_object c b =
    if not (c.utf8_valid b)
    then false
    else elim (c.unmarshal_map b) [ rejected ↦ false | nil_map ↦ false | object ↦ true ]

-- `binary.BigEndian.Uint32` of four bytes, and `PutUint32`.
unfoldable pub uint32_be : ℕ → ℕ → ℕ → ℕ → ℕ
uint32_be a b c d = a * 2 ^ 24 + b * 2 ^ 16 + c * 2 ^ 8 + d

unfoldable pub put_uint32 : ℕ → Bytes
put_uint32 v = (v / 2 ^ 24 % 256) ∷ (v / 2 ^ 16 % 256) ∷ (v / 2 ^ 8 % 256) ∷ (v % 256) ∷ []
