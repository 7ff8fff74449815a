-- ===== src/Inspector/Shedding.antt =====
-- The second loop of `evictLocked`: bodies are dropped, from the oldest on.
use tuzy.Shared.{
  ℕ, ◌+◌, ◌-◌, ◌≤◌, ◌<◌, ◌≡◌, refl, sym, ap, subst, ◌∙◌, ◌⊎◌, inl, inr, true, false, Bool-cases,
  List, [], ◌∷◌, ◌++◌, append_assoc, leb, ◌==◌, leb→le, ==→≡, if_both, All, arith,
}
use tuzy.Inspector.{Entry, max_total_bytes, captured_body_bytes, body_bytes}
use tuzy.Inspector.Store.{Subscriber, Store, find, stripped, strip, evict_bodies}
use tuzy.Inspector.Eviction.{ids, bytes_of, Rising, shed, find-append, put-append}

stripped_lem :
    (e : Entry)
    → (body_bytes (stripped e) + captured_body_bytes e ≡ body_bytes e)
      × ((stripped e).id ≡ e.id)
      × (captured_body_bytes (stripped e) ≡ 0)
unfolding stripped body_bytes captured_body_bytes
stripped_lem e = (omega arith, refl, refl)

pub bytes_of-append : (xs ys : List Entry) → bytes_of (xs ++ ys) ≡ bytes_of xs + bytes_of ys
bytes_of-append [] ys = omega arith
bytes_of-append (x ∷ xs) ys = omega (arith, bytes_of-append xs ys)

-- A change of an entry that keeps its id.
pub Rising-same :
    (lo hi : ℕ) (pre : List Entry) (e e' : Entry) (es : List Entry)
    → e.id ≡ e'.id
    → Rising lo hi (pre ++ e ∷ es)
    → Rising lo hi (pre ++ e' ∷ es)
Rising-same lo hi [] e e' es q (p, r) = (subst (λ k. lo < k) q p, subst (λ k. Rising k hi es) q r)
Rising-same lo hi (x ∷ pre) e e' es q (p, r) = (p, Rising-same x.id hi pre e e' es q r)

pub ids-same :
    (pre : List Entry) (e e' : Entry) (es : List Entry)
    → e.id ≡ e'.id
    → ids (pre ++ e ∷ es) ≡ ids (pre ++ e' ∷ es)
ids-same [] e e' es q = ap (λ k. k ∷ ids es) q
ids-same (x ∷ pre) e e' es q = ap (◌∷◌ x.id) (ids-same pre e e' es q)

-- A store with an order of its own.
abbrev pub holding : ℕ → List ℕ → List Subscriber → List Entry → ℕ → Store
holding n o us es t = record { next_id = n; order = o; entries = es; total = t; subs = us }

module _ (n hi : ℕ) (o : List ℕ) (us : List Subscriber) where
  strip_lem :
      (pre : List Entry) (e : Entry) (es : List Entry) (t : ℕ)
      → Rising 0 hi (pre ++ e ∷ es)
      → (captured_body_bytes e == 0) ≡ false
      → strip (find e.id (pre ++ e ∷ es)) (holding n o us (pre ++ e ∷ es) t)
        ≡ holding n o us (pre ++ stripped e ∷ es) (t - captured_body_bytes e)
  unfolding strip
  strip_lem pre e es t r c =
      ap (λ x. strip x (holding n o us (pre ++ e ∷ es) t)) (find-append 0 hi pre e es r)
      ∙ rw c (
          ap (λ x. holding n o us x (t - captured_body_bytes e))
            (put-append 0 hi pre e (stripped e) es (sym (stripped_lem e).1) r))

  strip_empty :
      (pre : List Entry) (e : Entry) (es : List Entry) (t : ℕ)
      → Rising 0 hi (pre ++ e ∷ es)
      → (captured_body_bytes e == 0) ≡ true
      → strip (find e.id (pre ++ e ∷ es)) (holding n o us (pre ++ e ∷ es) t)
        ≡ holding n o us (pre ++ e ∷ es) t
  unfolding strip
  strip_empty pre e es t r c =
      ap (λ x. strip x (holding n o us (pre ++ e ∷ es) t)) (find-append 0 hi pre e es r) ∙ rw c refl

-- The store after the loop.
abbrev pub Shed : ℕ → List ℕ → List Subscriber → List Entry → List Entry → ℕ → Type 0
Shed n o us pre es t =
    evict_bodies (ids es) (holding n o us (pre ++ es) t)
    ≡ holding n o us (pre ++ shed t es) (bytes_of (pre ++ shed t es))

shed_next :
    (n : ℕ) (o : List ℕ) (us : List Subscriber) (pre : List Entry) (e : Entry) (es : List Entry)
    (t : ℕ)
    → Shed n o us (pre ++ e ∷ []) es t
    → evict_bodies (ids es) (holding n o us (pre ++ e ∷ es) t)
      ≡ holding n o us (pre ++ e ∷ shed t es) (bytes_of (pre ++ e ∷ shed t es))
shed_next n o us pre e es t k =
    ap (λ x. evict_bodies (ids es) (holding n o us x t)) (sym (append_assoc pre (e ∷ []) es))
    ∙ k
    ∙ ap (λ x. holding n o us x (bytes_of x)) (append_assoc pre (e ∷ []) (shed t es))

stripped-bytes :
    (pre : List Entry) (e : Entry) (es : List Entry) (t : ℕ)
    → t ≡ bytes_of (pre ++ e ∷ es)
    → t - captured_body_bytes e ≡ bytes_of (pre ++ stripped e ∷ es)
stripped-bytes pre e es t q = omega (
  arith,
  q,
  bytes_of-append pre (e ∷ es),
  bytes_of-append pre (stripped e ∷ es),
  (stripped_lem e).0,
)

pub evict_bodies_lem :
    (n hi : ℕ) (o : List ℕ) (us : List Subscriber) (es pre : List Entry) (t : ℕ)
    → Rising 0 hi (pre ++ es)
    → t ≡ bytes_of (pre ++ es)
    → Shed n o us pre es t
unfolding evict_bodies
evict_bodies_lem n hi o us [] pre t r q = ap (holding n o us (pre ++ [])) q
evict_bodies_lem n hi o us (e ∷ es) pre t r q = elim (Bool-cases (leb t max_total_bytes)) [
  | inl fits ↦ rw fits (ap (holding n o us (pre ++ e ∷ es)) q)
  | inr over ↦ elim (Bool-cases (captured_body_bytes e == 0)) [
    | inl bare ↦
        rw (over, bare)
          (ap (evict_bodies (ids es)) (strip_empty n hi o us pre e es t r bare)
            ∙ shed_next n o us pre e es t (
                evict_bodies_lem n hi o us es (pre ++ e ∷ []) t
                  (subst (Rising 0 hi) (sym (append_assoc pre (e ∷ []) es)) r)
                  (q ∙ ap bytes_of (sym (append_assoc pre (e ∷ []) es)))))
    | inr bodies ↦
        let r' = Rising-same 0 hi pre e (stripped e) es (sym (stripped_lem e).1) r in
        let q' = stripped-bytes pre e es t q in
        let t' : ℕ = t - captured_body_bytes e in
        rw (over, bodies)
          (ap (evict_bodies (ids es)) (strip_lem n hi o us pre e es t r bodies)
            ∙ shed_next n o us pre (stripped e) es t' (
                evict_bodies_lem n hi o us es (pre ++ stripped e ∷ []) t'
                  (subst (Rising 0 hi) (sym (append_assoc pre (stripped e ∷ []) es)) r')
                  (q' ∙ ap bytes_of (sym (append_assoc pre (stripped e ∷ []) es)))))
  ]
]

-- No body is held.
abbrev pub HasNoBody : Entry → Type 0
HasNoBody e = captured_body_bytes e ≡ 0

-- What is left fits the limit, or is no body at all.
pub shed_fits :
    (t : ℕ) (es : List Entry) (k : ℕ)
    → t ≡ k + bytes_of es
    → (k + bytes_of (shed t es) ≤ max_total_bytes) ⊎ All HasNoBody (shed t es)
shed_fits t [] k q = inr tt
shed_fits t (e ∷ es) k q = elim (Bool-cases (leb t max_total_bytes)) [
  | inl fits ↦ inl (rw fits (omega (arith, leb→le t max_total_bytes fits, q)))
  | inr over ↦ elim (Bool-cases (captured_body_bytes e == 0)) [
    | inl bare ↦
        rw (over, bare)
          (elim (shed_fits t es (k + body_bytes e) (omega (arith, q))) [
            | inl l ↦ inl (omega (arith, l))
            | inr a ↦ inr (==→≡ (captured_body_bytes e) 0 bare, a)
          ])
    | inr bodies ↦
        rw (over, bodies)
          (elim (shed_fits (t - captured_body_bytes e) es (k + body_bytes (stripped e))
            (omega (arith, q, (stripped_lem e).0))) [
              | inl l ↦ inl (omega (arith, l))
              | inr a ↦ inr ((stripped_lem e).2, a)
            ])
  ]
]

pub shed-Rising : (lo hi t : ℕ) (es : List Entry) → Rising lo hi es → Rising lo hi (shed t es)
unfolding stripped
shed-Rising lo hi t [] r = r
shed-Rising lo hi t (e ∷ es) (p, r) =
    if_both (Rising lo hi) (leb t max_total_bytes) (e ∷ es) _ (p, r)
      (if_both (Rising lo hi) (captured_body_bytes e == 0) (e ∷ shed t es) _
        (p, shed-Rising e.id hi t es r) (p, shed-Rising e.id hi (t - captured_body_bytes e) es r))
