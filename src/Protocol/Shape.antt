-- ===== src/Protocol/Shape.antt =====
-- protocol/PROTOCOL.md §2.1 and §2.2: what each frame type may carry, one clause for each type.
use tuzy.Shared.{ℕ, ◌^◌, ◌≤◌, ◌<◌, ◌≡◌, true, [], ◌∷◌, length, arith}
use tuzy.Protocol.{
  Bytes, FrameType, Codecs, is_json_object, uint32_be, put_uint32, max_json_payload, max_body_chunk,
  max_ws_message, hello, ready, goaway, drain, req_head, req_body, req_end, res_head, res_body,
  res_end, ws_text, ws_binary, ws_close, window, reset, ack,
}

abbrev pub IsByte : ℕ → Type 0
IsByte b = b < 256

abbrev pub IsU32 : ℕ → Type 0
IsU32 v = v < 2 ^ 32

abbrev pub IsJson : Codecs → Bytes → Type 0
IsJson c p = (length p ≤ max_json_payload) × (is_json_object c p ≡ true)

-- The number in a payload of four bytes.
abbrev pub u32_of : Bytes → ℕ
u32_of (a ∷ b ∷ c ∷ d ∷ []) = uint32_be a b c d
u32_of _ = 0

abbrev pub IsCredit : Bytes → Type 0
IsCredit p = (length p ≡ 4) × (0 < u32_of p)

abbrev pub Shape : Codecs → FrameType → ℕ → Bytes → Type 0
Shape c hello id p = (id ≡ 0) × IsJson c p
Shape c ready id p = (id ≡ 0) × IsJson c p
Shape c goaway id p = (id ≡ 0) × IsJson c p
Shape c drain id p = (id ≡ 0) × (length p ≡ 0)
Shape c req_head id p = (0 < id) × IsJson c p
Shape c req_body id p = (0 < id) × (length p ≤ max_body_chunk)
Shape c req_end id p = (0 < id) × (length p ≡ 0)
Shape c res_head id p = (0 < id) × IsJson c p
Shape c res_body id p = (0 < id) × (length p ≤ max_body_chunk)
Shape c res_end id p = (0 < id) × (length p ≡ 0)
Shape c ws_text id p = (0 < id) × (length p ≤ max_ws_message) × (c.utf8_valid p ≡ true)
Shape c ws_binary id p = (0 < id) × (length p ≤ max_ws_message)
Shape c ws_close id p = (0 < id) × IsJson c p
Shape c window id p = IsCredit p
Shape c reset id p = (0 < id) × IsJson c p
Shape c ack id p = (0 < id) × IsCredit p

-- The credit that a frame grants.
abbrev pub credit_of : FrameType → Bytes → ℕ
credit_of window p = u32_of p
credit_of ack p = u32_of p
credit_of _ p = 0

pub uint32-put : (v : ℕ) → IsU32 v → u32_of (put_uint32 v) ≡ v
unfolding uint32_be put_uint32
uint32-put v h = omega arith

pub put-uint32 :
    (a b c d : ℕ)
    → IsByte a
    → IsByte b
    → IsByte c
    → IsByte d
    → put_uint32 (uint32_be a b c d) ≡ a ∷ b ∷ c ∷ d ∷ []
unfolding uint32_be put_uint32
put-uint32 a b c d ha hb hc hd = ground arith

pub uint32-IsU32 :
    (a b c d : ℕ) → IsByte a → IsByte b → IsByte c → IsByte d → IsU32 (uint32_be a b c d)
unfolding uint32_be
uint32-IsU32 a b c d ha hb hc hd = omega arith
