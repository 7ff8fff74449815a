-- ===== src/Tunnel/LocalRequest/Listed.antt =====
-- `responseHeaders`: which names it drops.
use tuzy.Shared.{
  ◌≡◌, refl, ap, subst, ◌∙◌, inl, inr, Bool, true, false, ◌||◌, Bool-cases, List, [], ◌∷◌, map,
  same_bytes, same_bytes→≡, same_bytes_refl,
}
use mathlib.Core.List.{Memᴰ}
use mathlib.Core.List.Memᴰ.{head, tail, append_left, append_right, append_cases}
use tuzy.Protocol.{Bytes}
use tuzy.Tunnel.LocalRequest.{HttpLib, is_one_of, hop_by_hop}
use tuzy.Tunnel.LocalRequest.ResponseHeaders.{split_commas, listed_in, is_dropped}

-- A value of Connection has the name among its parts, which commas part and white space may surround.
abbrev pub IsListed : HttpLib → List Bytes → Bytes → Type 0
IsListed lib ws n =
    (w : Bytes) × (t : Bytes) × Memᴰ w ws
    × Memᴰ t (split_commas w)
    × (n ≡ lib.lower (lib.trim_space t))

is_one_of-Mem : (b : Bytes) (ns : List Bytes) → is_one_of b ns ≡ true → Memᴰ b ns
is_one_of-Mem b [] e = absurd (cc)
is_one_of-Mem b (n ∷ ns) e = elim (Bool-cases (same_bytes b n)) [
  | inl h ↦ head (same_bytes→≡ b n h)
  | inr h ↦ tail (is_one_of-Mem b ns (rw h at e))
]

Mem-is_one_of : (b : Bytes) (ns : List Bytes) → Memᴰ b ns → is_one_of b ns ≡ true
Mem-is_one_of b [] m = elim m [ ]
Mem-is_one_of b (n ∷ ns) (head e) =
    rw (subst (λ x. same_bytes b x ≡ true) e (same_bytes_refl b)) refl
Mem-is_one_of b (n ∷ ns) (tail m) = or_true (same_bytes b n) (is_one_of b ns) (Mem-is_one_of b ns m)
  where
    or_true : (a b : Bool) → b ≡ true → (a || b) ≡ true
    or_true true b e = refl
    or_true false b e = e

map-Mem :
    (f : Bytes → Bytes) (n : Bytes) (ts : List Bytes)
    → Memᴰ n (map f ts)
    → (t : Bytes) × Memᴰ t ts × (n ≡ f t)
map-Mem f n [] m = elim m [ ]
map-Mem f n (t ∷ ts) (head e) = (t, head refl, e)
map-Mem f n (t ∷ ts) (tail m) = let (u, k, e) = map-Mem f n ts m in (u, tail k, e)

Mem-map :
    (f : Bytes → Bytes) (n t : Bytes) (ts : List Bytes) → Memᴰ t ts → n ≡ f t → Memᴰ n (map f ts)
Mem-map f n t [] m e = elim m [ ]
Mem-map f n t (u ∷ ts) (head h) e = head (e ∙ ap f h)
Mem-map f n t (u ∷ ts) (tail m) e = tail (Mem-map f n t ts m e)

module _ (lib : HttpLib) where
  abbrev token : Bytes → Bytes
  token t = lib.lower (lib.trim_space t)

  listed_in-IsListed : (ws : List Bytes) (n : Bytes) → Memᴰ n (listed_in lib ws) → IsListed lib ws n
  unfolding listed_in
  listed_in-IsListed [] n m = elim m [ ]
  listed_in-IsListed (w ∷ ws) n m = elim (append_cases (map token (split_commas w)) m) [
    | inl own ↦ let (t, k, e) = map-Mem token n (split_commas w) own in (w, t, head refl, k, e)
    | inr old ↦ let (v, t, k, l, e) = listed_in-IsListed ws n old in (v, t, tail k, l, e)
  ]

  IsListed-listed_in :
      (ws : List Bytes) (n w t : Bytes)
      → Memᴰ w ws
      → Memᴰ t (split_commas w)
      → n ≡ token t
      → Memᴰ n (listed_in lib ws)
  unfolding listed_in
  IsListed-listed_in [] n w t m k e = elim m [ ]
  IsListed-listed_in (v ∷ ws) n w t (head h) k e =
      append_left (listed_in lib ws)
        (Mem-map token n t (split_commas v) (subst (λ x. Memᴰ t (split_commas x)) h k) e)
  IsListed-listed_in (v ∷ ws) n w t (tail m) k e =
      append_right (map token (split_commas v)) (IsListed-listed_in ws n w t m k e)

-- The name is neither one of those for one hop nor listed in Connection.
abbrev pub IsEndToEnd : HttpLib → List Bytes → Bytes → Type 0
IsEndToEnd lib ws name =
    (¬ (Memᴰ (lib.lower name) hop_by_hop)) × (¬ (IsListed lib ws (lib.lower name)))

neither : (a b : Bool) → (a || b) ≡ false → (a ≡ false) × (b ≡ false)
neither true b e = absurd (cc)
neither false b e = (refl, e)

both_not : (a b : Bool) → a ≡ false → b ≡ false → (a || b) ≡ false
both_not a b e f = cc

clash : {b : Bool} → b ≡ true → b ≡ false → ⊥
clash e f = cc

no_member : (b : Bytes) (ns : List Bytes) → ¬ (Memᴰ b ns) → is_one_of b ns ≡ false
no_member b ns n = elim (Bool-cases (is_one_of b ns)) [
  | inl h ↦ absurd (n (is_one_of-Mem b ns h))
  | inr h ↦ h
]

pub kept-IsEndToEnd :
    (lib : HttpLib) (ws : List Bytes) (name : Bytes)
    → is_dropped lib (listed_in lib ws) name ≡ false
    → IsEndToEnd lib ws name
unfolding is_dropped
kept-IsEndToEnd lib ws name e =
    let n : Bytes = lib.lower name in
    let (hop, listed) = neither (is_one_of n hop_by_hop) (is_one_of n (listed_in lib ws)) e in
    (
      λ m. clash (Mem-is_one_of n hop_by_hop m) hop,
      λ l.
          let (w, t, k, m, e) = l in
          clash (Mem-is_one_of n (listed_in lib ws) (IsListed-listed_in lib ws n w t k m e)) listed,
    )

pub IsEndToEnd-kept :
    (lib : HttpLib) (ws : List Bytes) (name : Bytes)
    → IsEndToEnd lib ws name
    → is_dropped lib (listed_in lib ws) name ≡ false
unfolding is_dropped
IsEndToEnd-kept lib ws name (hop, listed) =
    let n : Bytes = lib.lower name in
    both_not (is_one_of n hop_by_hop) (is_one_of n (listed_in lib ws)) (no_member n hop_by_hop hop)
      (no_member n (listed_in lib ws) (λ m. listed (listed_in-IsListed lib ws n m)))
