-- ===== src/Protocol/Decode.antt =====
-- internal/protocol/frames.go: `Decode`, in the order of its checks, and the encoders.
use tuzy.Shared.{
  ℕ, ◌&&◌, ◌||◌, not, Option, none, some, [], ◌∷◌, ◌++◌, ltb, ◌==◌, if◌then◌else◌, length,
}
use tuzy.Protocol.{
  Bytes, FrameType, code, known, Frame, Codecs, Result, ok, err, ◌>>=◌, ◌>>◌, reject_if, malformed,
  stream_error, short_header, unknown_type, nonzero_stream, stream_zero, not_empty, not_four_bytes,
  zero_value, json_too_large, not_json_object, body_too_large, message_too_big, invalid_utf8,
  bad_payload, stream0_only, is_json, must_be_empty, is_u32, type_eq, is_json_object, uint32_be,
  put_uint32, max_json_payload, max_body_chunk, max_ws_message, window, req_body, res_body, ws_text,
  ws_binary,
}

-- Which stream a frame may stand on.
unfoldable pub check_stream : FrameType → ℕ → Result (Unit {0})
unfolding stream0_only type_eq
check_stream t id =
    if stream0_only t
    then reject_if (not (id == 0)) (malformed (nonzero_stream t))
    else reject_if (not (type_eq t window) && id == 0) (malformed (stream_zero t))

-- The credit of four payload bytes.
credit_bytes : FrameType → Bytes → Result ℕ
unfolding uint32_be
credit_bytes t (a ∷ b ∷ c ∷ d ∷ []) =
    let v = uint32_be a b c d in if v == 0 then err (malformed (zero_value t)) else ok v
credit_bytes t _ = err (malformed (not_four_bytes t))

-- `f.Value`, which stays 0 but for WINDOW and ACK.
unfoldable pub read_value : FrameType → Bytes → Result ℕ
unfolding is_u32 credit_bytes
read_value t payload = if is_u32 t then credit_bytes t payload else ok 0

unfoldable pub check_json : Codecs → FrameType → Bytes → Result (Unit {0})
unfolding is_json is_json_object
check_json c t payload =
    if is_json t
    then (do
      reject_if (ltb max_json_payload (length payload)) (malformed json_too_large)
      reject_if (not (is_json_object c payload)) (malformed (not_json_object t)))
    else ok tt

unfoldable pub check_message : Codecs → FrameType → ℕ → Bytes → Result (Unit {0})
unfolding type_eq
check_message c t id payload =
    if type_eq t ws_text || type_eq t ws_binary
    then (do
      reject_if (ltb max_ws_message (length payload)) (stream_error id 1009 message_too_big)
      reject_if (type_eq t ws_text && not (c.utf8_valid payload))
          (stream_error id 1007 invalid_utf8))
    else ok tt

-- `Decode` after the header is read.
unfoldable pub decode_frame : Codecs → FrameType → ℕ → Bytes → Result Frame
unfolding check_stream must_be_empty read_value check_json check_message
decode_frame c t id payload = do
  check_stream t id
  reject_if (must_be_empty t && not (length payload == 0)) (malformed (not_empty t))
  v ← read_value t payload
  check_json c t payload
  reject_if ((type_eq t req_body || type_eq t res_body) && ltb max_body_chunk (length payload))
      (malformed body_too_large)
  check_message c t id payload
  ok (record { type = t; stream_id = id; payload = payload; value = v })

-- The frame of a known type, the error of an unknown one.
unfoldable pub decode_known : Codecs → ℕ → Option FrameType → ℕ → Bytes → Result Frame
decode_known c b none id payload = err (malformed (unknown_type b))
decode_known c b (some t) id payload = decode_frame c t id payload

-- `Decode`. A message of fewer than `HeaderSize` bytes has no header.
unfoldable pub decode : Codecs → Bytes → Result Frame
unfolding decode_known known uint32_be
decode c (b ∷ i₁ ∷ i₂ ∷ i₃ ∷ i₄ ∷ payload) =
    decode_known c b (known b) (uint32_be i₁ i₂ i₃ i₄) payload
decode c _ = err (malformed short_header)

-- `Encode`
unfoldable pub encode : FrameType → ℕ → Bytes → Bytes
unfolding code put_uint32
encode t stream_id payload = code t ∷ (put_uint32 stream_id ++ payload)

-- `EncodeU32`
unfoldable pub encode_u32 : FrameType → ℕ → ℕ → Bytes
unfolding encode
encode_u32 t stream_id value = encode t stream_id (put_uint32 value)

-- `EncodeJSON`, over `json.Marshal` of the value.
unfoldable pub encode_json {ℓ} :
    {A : Type ℓ} → (A → Option Bytes) → FrameType → ℕ → A → Option Bytes
unfolding encode
encode_json marshal t stream_id v = elim (marshal v) [
  | none ↦ none
  | some b ↦ some (encode t stream_id b)
]

-- `UnmarshalPayload`, over `json.Unmarshal` into the type of the message.
unfoldable pub unmarshal_payload {ℓ} : {A : Type ℓ} → (Bytes → Option A) → Frame → Result A
unmarshal_payload unmarshal f = elim (unmarshal f.payload) [
  | none ↦ err (malformed (bad_payload f.type))
  | some v ↦ ok v
]
