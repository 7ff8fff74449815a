-- ===== src/Protocol/RoundTrip.antt =====
-- `decode` accepts a message exactly if its frame has the shape of its type, and undoes `encode`.
use tuzy.Shared.{
  ℕ, ◌≡◌, inl, inr, refl, sym, ap, ap₂, ◌∙◌, true, some, [], ◌∷◌, ◌++◌, All, arith, Option-cases,
}
use tuzy.Protocol.{
  Result-cases, Bytes, FrameType, code, known, Frame, Codecs, ok, uint32_be, put_uint32, is_u32,
  hello, window, ack,
}
use tuzy.Protocol.Decode.{decode_known, decode_frame, decode, encode, read_value}
use tuzy.Protocol.Shape.{
  IsByte, IsU32, u32_of, IsCredit, Shape, credit_of, uint32-put, put-uint32, uint32-IsU32,
}

-- The frame that stands for a well-formed type, stream and payload.
abbrev pub frame_of : FrameType → ℕ → Bytes → Frame
frame_of t id p = record { type = t; stream_id = id; payload = p; value = credit_of t p }

pub known-code : (t : FrameType) → known (code t) ≡ some t
unfolding known code
known-code hello = refl
known-code _ = refl

pub code-known : (b : ℕ) (t : FrameType) → known b ≡ some t → code t ≡ b
unfolding known code
code-known b t e = ground arith

read_credit :
    (p : Bytes) → IsCredit p → (t : FrameType) → (is_u32 t ≡ true) → read_value t p ≡ ok (u32_of p)
unfolding read_value
read_credit (a ∷ b ∷ c ∷ d ∷ []) h t e = ground arith
read_credit _ h t e = absurd (omega arith)

decode_frame-Shape :
    (c : Codecs) (t : FrameType) (id : ℕ) (p : Bytes)
    → Shape c t id p
    → decode_frame c t id p ≡ ok (frame_of t id p)
unfolding decode_frame
decode_frame-Shape c window id p h = ground (arith, read_credit p h window)
decode_frame-Shape c ack id p h = ground (arith, read_credit p h.1 ack)
decode_frame-Shape c hello id p h = ground arith
decode_frame-Shape c _ id p h = ground arith

read_value_ok :
    (p : Bytes) (t : FrameType) (v : ℕ)
    → is_u32 t ≡ true
    → read_value t p ≡ ok v
    → IsCredit p × (v ≡ u32_of p)
unfolding read_value
read_value_ok (a ∷ b ∷ c ∷ d ∷ []) t v u e = ground arith
read_value_ok [] t v u e = ground arith
read_value_ok (a ∷ []) t v u e = ground arith
read_value_ok (a ∷ b ∷ []) t v u e = ground arith
read_value_ok (a ∷ b ∷ c ∷ []) t v u e = ground arith
read_value_ok (a ∷ b ∷ c ∷ d ∷ x ∷ p) t v u e = ground arith

decode_frame-ok :
    (c : Codecs) (t : FrameType) (id : ℕ) (p : Bytes) (f : Frame)
    → decode_frame c t id p ≡ ok f
    → (f ≡ frame_of t id p) × Shape c t id p
unfolding decode_frame
decode_frame-ok c window id p f e = elim (Result-cases (read_value window p)) [
  | inl (x, r) ↦ ground (arith, r)
  | inr (v, r) ↦ ground (arith, r, read_value_ok p window v refl r)
]
decode_frame-ok c ack id p f e = elim (Result-cases (read_value ack p)) [
  | inl (x, r) ↦ ground (arith, r)
  | inr (v, r) ↦ ground (arith, r, read_value_ok p ack v refl r)
]
decode_frame-ok c hello id p f e = ground arith
decode_frame-ok c _ id p f e = ground arith

pub decode-header :
    (c : Codecs) (b x y z w : ℕ) (p : Bytes) (t : FrameType)
    → known b ≡ some t
    → decode c (b ∷ x ∷ y ∷ z ∷ w ∷ p) ≡ decode_frame c t (uint32_be x y z w) p
unfolding decode
decode-header c b x y z w p t e = ap (λ k. decode_known c b k (uint32_be x y z w) p) e

-- A message that `encode` builds from a well-formed frame is decoded to that frame, with the number
-- in the payload of a WINDOW or ACK as its value.
pub decode-encode :
    (c : Codecs) (t : FrameType) (id : ℕ) (p : Bytes)
    → IsU32 id
    → Shape c t id p
    → decode c (encode t id p) ≡ ok (frame_of t id p)
unfolding encode put_uint32
decode-encode c t id p u h =
    decode-header c (code t) _ _ _ _ p t (known-code t)
    ∙ ap (λ i. decode_frame c t i p) (uint32-put id u)
    ∙ decode_frame-Shape c t id p h

-- What the frame of an accepted message is.
abbrev pub IsDecoded : Codecs → Bytes → Frame → Type 0
IsDecoded c msg f =
    (encode f.type f.stream_id f.payload ≡ msg)
    × Shape c f.type f.stream_id f.payload
    × (f.value ≡ credit_of f.type f.payload)
    × IsU32 f.stream_id

frame_of-IsDecoded :
    (c : Codecs) (b x y z w : ℕ) (p : Bytes) (t : FrameType) (f : Frame)
    → All IsByte (b ∷ x ∷ y ∷ z ∷ w ∷ p)
    → known b ≡ some t
    → f ≡ frame_of t (uint32_be x y z w) p
    → Shape c t (uint32_be x y z w) p
    → IsDecoded c (b ∷ x ∷ y ∷ z ∷ w ∷ p) f
unfolding encode
frame_of-IsDecoded c b x y z w p t f hs k e s = rw e (
  ap₂ (λ b' h. b' ∷ (h ++ p)) (code-known b t k)
      (put-uint32 x y z w hs.1.0 hs.1.1.0 hs.1.1.1.0 hs.1.1.1.1.0),
  s,
  refl,
  uint32-IsU32 x y z w hs.1.0 hs.1.1.0 hs.1.1.1.0 hs.1.1.1.1.0,
)

-- The other way: whatever bytes `decode` accepts are the encoding of the frame that it returns, and
-- that frame has the shape of its type and the value of its payload. So no two messages decode to
-- one frame.
pub encode-decode :
    (c : Codecs) (msg : Bytes) (f : Frame)
    → All IsByte msg
    → decode c msg ≡ ok f
    → IsDecoded c msg f
encode-decode c [] f hs e = absurd (unfold decode in cc)
encode-decode c (b ∷ []) f hs e = absurd (unfold decode in cc)
encode-decode c (b ∷ x ∷ []) f hs e = absurd (unfold decode in cc)
encode-decode c (b ∷ x ∷ y ∷ []) f hs e = absurd (unfold decode in cc)
encode-decode c (b ∷ x ∷ y ∷ z ∷ []) f hs e = absurd (unfold decode in cc)
encode-decode c (b ∷ x ∷ y ∷ z ∷ w ∷ p) f hs e = elim (Option-cases (known b)) [
  | inl k ↦ absurd (unfold decode in cc k)
  | inr (t, k) ↦
      let d =
        decode_frame-ok c t (uint32_be x y z w) p f (sym (decode-header c b x y z w p t k) ∙ e) in
      frame_of-IsDecoded c b x y z w p t f hs k d.0 d.1
]

-- Every accepted message has a payload of the shape of its type.
pub decode-Shape :
    (c : Codecs) (msg : Bytes) (f : Frame)
    → decode c msg ≡ ok f
    → Shape c f.type f.stream_id f.payload
decode-Shape c [] f e = absurd (unfold decode in cc)
decode-Shape c (b ∷ []) f e = absurd (unfold decode in cc)
decode-Shape c (b ∷ x ∷ []) f e = absurd (unfold decode in cc)
decode-Shape c (b ∷ x ∷ y ∷ []) f e = absurd (unfold decode in cc)
decode-Shape c (b ∷ x ∷ y ∷ z ∷ []) f e = absurd (unfold decode in cc)
decode-Shape c (b ∷ x ∷ y ∷ z ∷ w ∷ p) f e = elim (Option-cases (known b)) [
  | inl k ↦ absurd (unfold decode in cc k)
  | inr (t, k) ↦
      let (e', s) =
        decode_frame-ok c t (uint32_be x y z w) p f (sym (decode-header c b x y z w p t k) ∙ e) in
      rw e' s
]
