-- ===== src/Inspector/Bodies.antt =====
-- internal/inspector/capture.go: `appendCapped`.
use tuzy.Shared.{
  ==→≡, not_ltb→le, ℕ, zero, suc, ◌+◌, ◌-◌, ◌≤◌, ◌≡◌, refl, sym, ap, subst, ◌∙◌, inl, inr, Bool,
  true, false, Bool-cases, Option, none, some, List, [], ◌∷◌, ◌++◌, append-nil, ltb, leb, ◌==◌,
  if◌then◌else◌, length, take, arith,
}
use tuzy.Protocol.{Bytes}
use tuzy.Inspector.{Slice, Body, content_of, max_body_capture}

-- The capacity that the runtime gives a slice that must grow, by its capacity and its new length.
abbrev pub Growth : Type 0
Growth = ℕ → ℕ → ℕ

grown : Growth → ℕ → Bytes → Slice
grown grow cap p = record {
  content = p;
  cap = if leb (length p) cap then cap else grow cap (length p);
}

-- Go's `append`. A nil slice with nothing to append stays nil.
unfoldable pub append : Growth → Body → Bytes → Body
unfolding grown
append grow none [] = none
append grow none (b ∷ p) = some (grown grow 0 (b ∷ p))
append grow (some s) p = some (grown grow s.cap (s.content ++ p))

-- `make` by the hint of a declared length; none is a length that is not known.
unfoldable pub prepared : Body → Option ℕ → Body
prepared none (some hint) =
    if ltb 0 hint
    then some (record {
      content = [];
      cap = if ltb max_body_capture hint then max_body_capture else hint;
    })
    else none
prepared b _ = b

-- `appendCapped` once the slice is prepared.
unfoldable pub append_to : Growth → Body → Bytes → Body × Bool
append_to grow dst p =
    let room : ℕ = max_body_capture - length (content_of dst) in
    if room == 0
    then (dst, ltb 0 (length p))
    else if ltb room (length p)
    then (append grow dst (take room p), true)
    else (append grow dst p, false)

-- `appendCapped`
unfoldable pub append_capped : Growth → Body → Bytes → Option ℕ → Body × Bool
append_capped grow dst p hint = append_to grow (prepared dst hint) p

append-content :
    (grow : Growth) (b : Body) (p : Bytes) → content_of (append grow b p) ≡ content_of b ++ p
unfolding append
append-content grow none [] = refl
append-content grow none (x ∷ p) = refl
append-content grow (some s) p = refl

prepared-content : (b : Body) (hint : Option ℕ) → content_of (prepared b hint) ≡ content_of b
unfolding prepared
prepared-content none none = refl
prepared-content none (some h) = ground arith
prepared-content (some s) h = refl

-- The first max_body_capture bytes, by structural cuts.
take-append_short {ℓ} :
    {A : Type ℓ} (n : ℕ) (xs ys : List A)
    → length xs ≤ n
    → take n (xs ++ ys) ≡ xs ++ take (n - length xs) ys
take-append_short n [] ys h = ap (λ k. take k ys) (omega arith)
take-append_short (suc n) (x ∷ xs) ys h =
    let e : suc n - length (x ∷ xs) ≡ n - length xs = omega arith in
    ap (◌∷◌ x) (take-append_short n xs ys (omega arith) ∙ ap (λ k. xs ++ take k ys) (sym e))
take-append_short zero (x ∷ xs) ys h = absurd (omega arith)

pub take_all {ℓ} : {A : Type ℓ} (n : ℕ) (xs : List A) → length xs ≤ n → take n xs ≡ xs
take_all zero [] h = refl
take_all (suc n) [] h = refl
take_all (suc n) (x ∷ xs) h = ap (◌∷◌ x) (take_all n xs (omega arith))
take_all zero (x ∷ xs) h = absurd (omega arith)

-- A chunk is cut to the room that is left, and the flag says if it was cut.
abbrev pub CutTo : ℕ → Bytes → Bytes → Body × Bool → Type 0
CutTo limit c p (b, cut) =
    (content_of b ≡ take limit (c ++ p)) × (cut ≡ ltb limit (length c + length p))

room_full : (m a p : ℕ) → m - a ≡ 0 → a ≤ m → ltb 0 p ≡ ltb m (a + p)
room_full m a p z h = ground arith

room_short : (m a p : ℕ) → ltb (m - a) p ≡ true → a ≤ m → true ≡ ltb m (a + p)
room_short m a p z h = ground arith

room_long : (m a p : ℕ) → p ≤ m - a → a ≤ m → false ≡ ltb m (a + p)
room_long m a p z h = ground arith

append_to_lem :
    (grow : Growth) (b : Body) (p : Bytes)
    → length (content_of b) ≤ max_body_capture
    → CutTo max_body_capture (content_of b) p (append_to grow b p)
unfolding append_to
append_to_lem grow b p h =
    let c : Bytes = content_of b in
    let room : ℕ = max_body_capture - length c in
    let t = take-append_short max_body_capture c p h in
    elim (Bool-cases (room == 0)) [
      | inl full ↦
          let z : room ≡ 0 = ==→≡ room 0 full in
          let e : take max_body_capture (c ++ p) ≡ c =
            t ∙ ap (λ k. c ++ take k p) z ∙ append-nil c in
          rw full (sym e, room_full max_body_capture (length c) (length p) z h)
      | inr free ↦ elim (Bool-cases (ltb room (length p))) [
        | inl long ↦
            rw (free, long)
              (
                append-content grow b (take room p) ∙ sym t,
                room_short max_body_capture (length c) (length p) long h,
              )
        | inr short ↦
            let l : length p ≤ room = not_ltb→le room (length p) short in
            rw (free, short)
              (
                append-content grow b p ∙ ap (◌++◌ c) (sym (take_all room p l)) ∙ sym t,
                room_long max_body_capture (length c) (length p) l h,
              )
      ]
    ]

pub append_capped_lem :
    (grow : Growth) (b : Body) (p : Bytes) (hint : Option ℕ)
    → length (content_of b) ≤ max_body_capture
    → CutTo max_body_capture (content_of b) p (append_capped grow b p hint)
unfolding append_capped
append_capped_lem grow b p hint h =
    let e = prepared-content b hint in
    subst (λ c. CutTo max_body_capture c p (append_capped grow b p hint)) e
      (append_to_lem grow (prepared b hint) p (omega (arith, h, ap length e)))

pub take-take-append : (n : ℕ) (xs ys : Bytes) → take n (take n xs ++ ys) ≡ take n (xs ++ ys)
take-take-append zero xs ys = refl
take-take-append (suc n) [] ys = refl
take-take-append (suc n) (x ∷ xs) ys = ap (◌∷◌ x) (take-take-append n xs ys)

pub length-take-le {ℓ} : {A : Type ℓ} (n : ℕ) (xs : List A) → length (take n xs) ≤ n
length-take-le zero xs = omega arith
length-take-le (suc n) [] = omega arith
length-take-le (suc n) (x ∷ xs) = omega (arith, length-take-le n xs)
