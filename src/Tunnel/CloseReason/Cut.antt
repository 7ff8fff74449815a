-- ===== src/Tunnel/CloseReason/Cut.antt =====
-- `truncateReason` cuts on a boundary of the text's UTF-8 sequences.
use tuzy.Shared.{
  Bool, true, false, if◌then◌else◌, ℕ, zero, suc, ◌+◌, ◌≤◌, ◌<◌, ◌≡◌, ◌⊎◌, inl, inr, refl, ap, ◌∙◌,
  List, [], ◌∷◌, length, take, drop, arith, drop-drop, length-drop, ltb, leb, Bool-cases,
}
use tuzy.Protocol.{Bytes}
use tuzy.Tunnel.CloseReason.{
  lead_width, follows, rune_width, reason_limit, cut_loop, truncate_reason,
}

lead_width-pos : (a : ℕ) → 1 ≤ lead_width a
unfolding lead_width
lead_width-pos a = ground arith

pub rune_width-pos : (s : Bytes) → 1 ≤ rune_width s
unfolding rune_width
rune_width-pos [] = omega arith
rune_width-pos (a ∷ t) = pos (follows (lead_width a) a t)
  where
    pos : (b : Bool) → 1 ≤ (if b then lead_width a else 1)
    pos true = lead_width-pos a
    pos false = omega arith

-- The places between the sequences of a text.
pub data IsBoundary (s : Bytes) : ℕ → Type 0 where
  at_start : IsBoundary s 0
  after : (k j : ℕ) → IsBoundary s k → j ≡ k + rune_width (drop k s) → IsBoundary s j

-- The last boundary within the limit, where there is one more after it.
pub record IsCut (s : Bytes) (cut : ℕ) : Type 0 where
  pub boundary : IsBoundary s cut
  pub within : cut ≤ reason_limit
  pub last : reason_limit < cut + rune_width (drop cut s)

cut_loop-IsCut :
    (fuel i cut : ℕ) (t s : Bytes)
    → t ≡ drop i s
    → i ≡ cut + rune_width (drop cut s)
    → IsBoundary s cut
    → cut ≤ reason_limit
    → reason_limit < length s
    → length t ≤ fuel
    → IsCut s (cut_loop fuel i cut t)
unfolding cut_loop
cut_loop-IsCut fuel i cut [] s e n b w l f = record {
  boundary = b;
  within = w;
  last = omega (arith, ap length e, length-drop i s, n);
}
cut_loop-IsCut zero i cut (x ∷ t) s e n b w l f = absurd (omega arith)
cut_loop-IsCut (suc fuel) i cut (x ∷ t) s e n b w l f = elim (Bool-cases (ltb reason_limit i)) [
  | inl over ↦ rw over (record { boundary = b; within = w; last = ground (arith, over, n) })
  | inr in_limit ↦ rw in_limit (
      cut_loop-IsCut fuel (i + rune_width (x ∷ t)) i (drop (rune_width (x ∷ t)) (x ∷ t)) s
        (ap (drop (rune_width (x ∷ t))) e ∙ drop-drop (rune_width (x ∷ t)) i s)
        (ap (λ q. i + rune_width q) e) (after cut i b n) (ground (arith, in_limit)) l
        (omega (arith, length-drop (rune_width (x ∷ t)) (x ∷ t), rune_width-pos (x ∷ t))))
]

first : (s : Bytes) → reason_limit < length s → IsCut s (cut_loop (length s) 0 0 s)
unfolding cut_loop
first [] l = absurd (omega arith)
first (x ∷ t) l =
    cut_loop-IsCut (length t) (0 + rune_width (x ∷ t)) 0 (drop (rune_width (x ∷ t)) (x ∷ t)) (x ∷ t)
      (ap (λ k. drop k (x ∷ t)) (omega arith)) refl at_start (omega arith) l
      (omega (arith, length-drop (rune_width (x ∷ t)) (x ∷ t), rune_width-pos (x ∷ t)))

-- A reason of at most 120 bytes is kept as it is. Of a longer one the first part is kept, up to the
-- last boundary between its UTF-8 sequences that is within 120 bytes.
pub truncate_reason_lem :
    (s : Bytes)
    → ((length s ≤ reason_limit) × (truncate_reason s ≡ s))
      ⊎ ((reason_limit < length s) × (cut : ℕ) × (truncate_reason s ≡ take cut s) × IsCut s cut)
unfolding truncate_reason
truncate_reason_lem s = elim (Bool-cases (leb (length s) reason_limit)) [
  | inl short ↦ inl (ground (arith, short), rw short)
  | inr long ↦
      inr (ground (arith, long), cut_loop (length s) 0 0 s, rw long, first s (ground (arith, long)))
]

length-take-le {ℓ} : {A : Type ℓ} (n : ℕ) (xs : List A) → length (take n xs) ≤ n
length-take-le zero xs = omega arith
length-take-le (suc n) [] = omega arith
length-take-le (suc n) (x ∷ xs) = omega (arith, length-take-le n xs)

pub length-truncate_reason : (s : Bytes) → length (truncate_reason s) ≤ reason_limit
length-truncate_reason s = elim (truncate_reason_lem s) [
  | inl (short, e) ↦ omega (arith, ap length e)
  | inr (_, cut, e, c) ↦ omega (arith, ap length e, length-take-le cut s, c.within)
]
