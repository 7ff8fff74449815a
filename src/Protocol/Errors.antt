-- ===== src/Protocol/Errors.antt =====
-- The errors of `decode`: which of them concern one WebSocket stream only, and the credit frames.
use tuzy.Shared.{
  ℕ, ◌≤◌, ◌<◌, ◌≡◌, ◌⊎◌, ◌↔◌, inl, inr, sym, ap, ap₂, ◌∙◌, false, some, [], ◌∷◌, ◌++◌, length, All,
  arith, Option-cases,
}
use tuzy.Protocol.{
  Bytes, FrameType, known, Codecs, ok, err, stream_error, Violation, uint32_be, put_uint32,
  max_ws_message, message_too_big, invalid_utf8, code, Result-cases, ws_text, ws_binary, window,
  ack, hello,
}
use tuzy.Protocol.Decode.{decode_frame, decode, encode, encode_u32, read_value}
use tuzy.Protocol.Shape.{IsByte, IsU32, uint32-put, put-uint32}
use tuzy.Protocol.RoundTrip.{decode-header, decode-encode, code-known, known-code}

-- Why one visitor's WebSocket is closed: a message over the limit (1009), or a text that is no
-- UTF-8 (1007).
abbrev pub IsMessageFault : Codecs → FrameType → Bytes → ℕ → Type 0
IsMessageFault c t p close_code =
    ((close_code ≡ 1009) × (max_ws_message < length p))
    ⊎ ((close_code ≡ 1007) × (t ≡ ws_text) × (length p ≤ max_ws_message) × (c.utf8_valid p ≡ false))

abbrev IsFault : Codecs → FrameType → ℕ → Bytes → ℕ → ℕ → Type 0
IsFault c t id p sid close_code =
    (sid ≡ id) × (0 < id) × ((t ≡ ws_text) ⊎ (t ≡ ws_binary)) × IsMessageFault c t p close_code

read_value_error :
    (t : FrameType) (p : Bytes) (sid close_code : ℕ) (v : Violation)
    → read_value t p ≡ err (stream_error sid close_code v)
    → ⊥
unfolding read_value
read_value_error t (a ∷ b ∷ c ∷ d ∷ []) sid close_code v e = ground arith
read_value_error t [] sid close_code v e = ground arith
read_value_error t (a ∷ []) sid close_code v e = ground arith
read_value_error t (a ∷ b ∷ []) sid close_code v e = ground arith
read_value_error t (a ∷ b ∷ c ∷ []) sid close_code v e = ground arith
read_value_error t (a ∷ b ∷ c ∷ d ∷ x ∷ p) sid close_code v e = ground arith

decode_frame-IsFault :
    (c : Codecs) (t : FrameType) (id : ℕ) (p : Bytes) (sid close_code : ℕ) (v : Violation)
    → decode_frame c t id p ≡ err (stream_error sid close_code v)
    → IsFault c t id p sid close_code
unfolding decode_frame
decode_frame-IsFault c window id p sid close_code v e = elim (Result-cases (read_value window p)) [
  | inl (x, r) ↦ ground (arith, r, read_value_error window p sid close_code v)
  | inr (n, r) ↦ ground (arith, r)
]
decode_frame-IsFault c ack id p sid close_code v e = elim (Result-cases (read_value ack p)) [
  | inl (x, r) ↦ ground (arith, r, read_value_error ack p sid close_code v)
  | inr (n, r) ↦ ground (arith, r)
]
decode_frame-IsFault c hello id p sid close_code v e = ground arith
decode_frame-IsFault c _ id p sid close_code v e = ground arith

-- A stream error names a fault of a message on that stream.
decode-stream_error :
    (c : Codecs) (msg : Bytes) (sid close_code : ℕ) (v : Violation)
    → All IsByte msg
    → decode c msg ≡ err (stream_error sid close_code v)
    → (t : FrameType) × (p : Bytes) × (msg ≡ encode t sid p)
      × (0 < sid)
      × ((t ≡ ws_text) ⊎ (t ≡ ws_binary))
      × IsMessageFault c t p close_code
decode-stream_error c [] sid cc' v hs e = absurd (unfold decode in cc)
decode-stream_error c (b ∷ []) sid cc' v hs e = absurd (unfold decode in cc)
decode-stream_error c (b ∷ x ∷ []) sid cc' v hs e = absurd (unfold decode in cc)
decode-stream_error c (b ∷ x ∷ y ∷ []) sid cc' v hs e = absurd (unfold decode in cc)
decode-stream_error c (b ∷ x ∷ y ∷ z ∷ []) sid cc' v hs e = absurd (unfold decode in cc)
decode-stream_error c (b ∷ x ∷ y ∷ z ∷ w ∷ p) sid cc' v hs e = elim (Option-cases (known b)) [
  | inl k ↦ absurd (unfold decode in cc k)
  | inr (t, k) ↦
      let f =
        decode_frame-IsFault c t (uint32_be x y z w) p sid cc' v
          (sym (decode-header c b x y z w p t k) ∙ e) in
      (t, p, header t k f.0, rw f.0 f.1, f.2, f.3)
]
  where
    header :
        (t : FrameType)
        → known b ≡ some t
        → sid ≡ uint32_be x y z w
        → b ∷ x ∷ y ∷ z ∷ w ∷ p ≡ encode t sid p
    header t k s = rw s (
        unfold encode in
        sym (
          ap₂ (λ b' h. b' ∷ (h ++ p)) (code-known b t k)
            (put-uint32 x y z w hs.1.0 hs.1.1.0 hs.1.1.1.0 hs.1.1.1.1.0)))

fault-decode_frame :
    (c : Codecs) (t : FrameType) (id : ℕ) (p : Bytes) (close_code : ℕ)
    → 0 < id
    → (t ≡ ws_text) ⊎ (t ≡ ws_binary)
    → IsMessageFault c t p close_code
    → (v : Violation) × (decode_frame c t id p ≡ err (stream_error id close_code v))
unfolding decode_frame
fault-decode_frame c ws_text id p n h k (inl (m, l)) = (message_too_big, ground (arith, m, l, h))
fault-decode_frame c ws_text id p n h k (inr (m, u, l, e)) =
    (invalid_utf8, ground (arith, m, l, h, e))
fault-decode_frame c ws_binary id p n h k (inl (m, l)) = (message_too_big, ground (arith, m, l, h))
fault-decode_frame c ws_binary id p n h k (inr (m, u, l, e)) = absurd (cc)
fault-decode_frame c _ id p n h k f = absurd (ground (arith, k))

-- A message that has a fault of its own: the encoding of a WS_TEXT or WS_BINARY frame on the stream, which is not 0.
abbrev pub IsFaulty : Codecs → Bytes → ℕ → ℕ → Type 0
IsFaulty c msg sid close_code =
    (t : FrameType) × (p : Bytes) × (msg ≡ encode t sid p)
    × (0 < sid)
    × ((t ≡ ws_text) ⊎ (t ≡ ws_binary))
    × IsMessageFault c t p close_code

-- `decode` answers with a stream error for the stream `sid` exactly if the message is the encoding of a WS_TEXT or
-- WS_BINARY frame on that stream, which is not 0, and has a fault: more than 1 MiB, for which the close code is 1009,
-- or a text within it that is not UTF-8, for which it is 1007.
pub stream_error_lem :
    (c : Codecs) (msg : Bytes) (sid close_code : ℕ)
    → All IsByte msg
    → IsU32 sid
    → ((v : Violation) × (decode c msg ≡ err (stream_error sid close_code v)))
      ↔ IsFaulty c msg sid close_code
unfolding encode put_uint32
stream_error_lem c msg sid n hs u = (λ e. decode-stream_error c msg sid n e.0 hs e.1, λ f. back f)
  where
    back : IsFaulty c msg sid n → (v : Violation) × (decode c msg ≡ err (stream_error sid n v))
    back (t, p, e, h, k, f) =
        let (v, q) = fault-decode_frame c t sid p n h k f in
        (
          v,
          ap (decode c) e
              ∙ decode-header c (code t) _ _ _ _ p t (known-code t)
              ∙ ap (λ i. decode_frame c t i p) (uint32-put sid u)
              ∙ q,
        )

-- The frame of a positive credit below 2³², on a stream that the type allows, is accepted by the
-- receiver with that credit as its value.
pub decode-encode_u32 :
    (c : Codecs) (t : FrameType) (id v : ℕ)
    → (t ≡ window) ⊎ ((t ≡ ack) × (0 < id))
    → IsU32 id
    → 0 < v
    → IsU32 v
    → decode c (encode_u32 t id v)
      ≡ ok (record { type = t; stream_id = id; payload = put_uint32 v; value = v })
unfolding encode_u32
decode-encode_u32 c window id v h hi h0 hv =
    decode-encode c window id (put_uint32 v) hi
      (unfold put_uint32 in omega (arith, uint32-put v hv))
    ∙ ap (λ n. ok (record { type = window; stream_id = id; payload = put_uint32 v; value = n }))
        (uint32-put v hv)
decode-encode_u32 c ack id v h hi h0 hv =
    decode-encode c ack id (put_uint32 v) hi
      (ground arith, (unfold put_uint32 in omega (arith, uint32-put v hv)))
    ∙ ap (λ n. ok (record { type = ack; stream_id = id; payload = put_uint32 v; value = n }))
        (uint32-put v hv)
decode-encode_u32 c _ id v h hi h0 hv = absurd (ground arith)
