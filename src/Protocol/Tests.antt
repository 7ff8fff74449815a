-- ===== src/Protocol/Tests.antt =====
-- Runs of the codec, and its theorems at concrete inputs.
use tuzy.Shared.{◌≡◌, ◌↔◌, refl, Bool, true, false, [], ◌∷◌, ltb, ◌==◌, if◌then◌else◌, arith}
use tuzy.Protocol.{
  Bytes, Codecs, Violation, Unmarshalled, rejected, object, Frame, ok, err, malformed, stream_error,
  stream_zero, short_header, zero_value, invalid_utf8, window, res_body,
}
use tuzy.Protocol.Decode.{decode_frame, decode, encode, encode_u32}
use tuzy.Protocol.RoundTrip.{frame_of, decode-encode, IsDecoded, encode-decode}
use tuzy.Protocol.Errors.{stream_error_lem, IsFaulty}

-- ASCII for UTF-8, and an opening brace for a JSON object.
abbrev is_ascii : Bytes → Bool
is_ascii [] = true
is_ascii (b ∷ bs) = if ltb b 128 then is_ascii bs else false

abbrev braces : Bytes → Unmarshalled
braces [] = rejected
braces (b ∷ bs) = if b == 0x7b then object else rejected

abbrev ascii : Codecs
ascii = record { utf8_valid = is_ascii; unmarshal_map = braces }

abbrev hello_bytes : Bytes
hello_bytes = 0x01 ∷ 0 ∷ 0 ∷ 0 ∷ 0 ∷ 0x7b ∷ 0x7d ∷ []

abbrev window_bytes : Bytes
window_bytes = 0x40 ∷ 0 ∷ 0 ∷ 1 ∷ 2 ∷ 0 ∷ 0 ∷ 4 ∷ 0 ∷ []

abbrev window_frame : Frame
window_frame = record { type = window; stream_id = 258; payload = 0 ∷ 0 ∷ 4 ∷ 0 ∷ []; value = 1024 }

window_run : decode ascii window_bytes ≡ ok window_frame
unfolding decode decode_frame
window_run = refl

res_body_run : decode ascii (0x21 ∷ 0 ∷ 0 ∷ 0 ∷ 0 ∷ 9 ∷ []) ≡ err (malformed (stream_zero res_body))
unfolding decode decode_frame
res_body_run = refl

short_run : decode ascii (0x21 ∷ 0 ∷ 0 ∷ []) ≡ err (malformed short_header)
unfolding decode
short_run = refl

zero_run : decode ascii (encode_u32 window 7 0) ≡ err (malformed (zero_value window))
unfolding decode decode_frame encode_u32
zero_run = refl

text_run : decode ascii (0x30 ∷ 0 ∷ 0 ∷ 0 ∷ 5 ∷ 200 ∷ []) ≡ err (stream_error 5 1007 invalid_utf8)
unfolding decode decode_frame
text_run = refl

decode-encode_example :
    decode ascii (encode res_body 5 (1 ∷ 2 ∷ [])) ≡ ok (frame_of res_body 5 (1 ∷ 2 ∷ []))
decode-encode_example = decode-encode ascii res_body 5 (1 ∷ 2 ∷ []) (omega arith) (omega arith)

encode-decode_example : IsDecoded ascii window_bytes window_frame
encode-decode_example = encode-decode ascii window_bytes window_frame (omega arith) window_run

stream_error_lem_example :
    ((v : Violation) × (decode ascii (0x30 ∷ 0 ∷ 0 ∷ 0 ∷ 5 ∷ 200 ∷ [])
        ≡ err (stream_error 5 1007 v)))
    ↔ IsFaulty ascii (0x30 ∷ 0 ∷ 0 ∷ 0 ∷ 5 ∷ 200 ∷ []) 5 1007
stream_error_lem_example =
    stream_error_lem ascii (0x30 ∷ 0 ∷ 0 ∷ 0 ∷ 5 ∷ 200 ∷ []) 5 1007 (omega arith) (omega arith)
