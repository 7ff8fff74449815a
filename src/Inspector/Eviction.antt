-- ===== src/Inspector/Eviction.antt =====
-- What `evictLocked` leaves: the newest entries, with their bodies dropped from the oldest on.
use tuzy.Shared.{
  ℕ, ◌+◌, ◌-◌, ◌≤◌, ◌<◌, ◌≡◌, refl, ap, ap₂, ◌∙◌, inl, inr, Bool-cases, some, List, [], ◌∷◌, ◌++◌,
  ltb, leb, ◌==◌, not_ltb→le, if◌then◌else◌, if_both, ==_refl, lt→not_==, length, arith,
}
use tuzy.Inspector.{Entry, max_entries, max_total_bytes, captured_body_bytes, body_bytes}
use tuzy.Inspector.Store.{Subscriber, Store, find, delete, put, forget, evict_entries, stripped}

abbrev pub ids : List Entry → List ℕ
ids [] = []
ids (e ∷ es) = e.id ∷ ids es

abbrev pub bytes_of : List Entry → ℕ
bytes_of [] = 0
bytes_of (e ∷ es) = body_bytes e + bytes_of es

-- A store whose `order` and `total` fit its entries.
abbrev pub store_of : ℕ → List Entry → List Subscriber → Store
store_of n es us = record {
  next_id = n;
  order = ids es;
  entries = es;
  total = bytes_of es;
  subs = us;
}

-- Ids rise from above lo to at most hi.
abbrev pub Rising : ℕ → ℕ → List Entry → Type 0
Rising lo hi [] = lo ≤ hi
Rising lo hi (e ∷ es) = (lo < e.id) × Rising e.id hi es

-- The entries that the limit on their number leaves.
abbrev pub newest : List Entry → List Entry
newest [] = []
newest (e ∷ es) = if ltb max_entries (length (e ∷ es)) then newest es else e ∷ es

length-ids : (es : List Entry) → length (ids es) ≡ length es
length-ids [] = refl
length-ids (e ∷ es) = omega (arith, length-ids es)

pub find-first : (e : Entry) (es : List Entry) → find e.id (e ∷ es) ≡ some e
unfolding find
find-first e es = rw (==_refl e.id) refl

delete-first : (e : Entry) (es : List Entry) → delete e.id (e ∷ es) ≡ es
unfolding delete
delete-first e es = rw (==_refl e.id) refl

put-first : (e e' : Entry) (es : List Entry) → e.id ≡ e'.id → put e' (e ∷ es) ≡ e' ∷ es
unfolding put
put-first e e' es q = rw (q, ==_refl e'.id) refl

forget-first :
    (n : ℕ) (e : Entry) (es : List Entry) (us : List Subscriber)
    → forget e.id (find e.id (e ∷ es)) (record (store_of n (e ∷ es) us) { order = ids es })
      ≡ store_of n es us
unfolding forget
forget-first n e es us =
    let s : Store = record (store_of n (e ∷ es) us) { order = ids es } in
    let t : body_bytes e + bytes_of es - body_bytes e ≡ bytes_of es = omega arith in
    ap (λ o. forget e.id o s) (find-first e es)
    ∙ ap₂ (λ k d. record s { total = k; entries = d }) t (delete-first e es)

pub evict_entries_lem :
    (n : ℕ) (es : List Entry) (us : List Subscriber)
    → evict_entries (ids es) (store_of n es us) ≡ store_of n (newest es) us
unfolding evict_entries
evict_entries_lem n [] us = refl
evict_entries_lem n (e ∷ es) us = elim (Bool-cases (ltb max_entries (length (e ∷ es)))) [
  | inl x ↦
      rw (length-ids es, x)
        (ap (evict_entries (ids es)) (forget-first n e es us) ∙ evict_entries_lem n es us)
  | inr x ↦ rw (length-ids es, x) refl
]

pub length-newest : (es : List Entry) → length (newest es) ≤ max_entries
length-newest [] = omega arith
length-newest (e ∷ es) = elim (Bool-cases (ltb max_entries (length (e ∷ es)))) [
  | inl x ↦ rw x (length-newest es)
  | inr x ↦ rw x (not_ltb→le max_entries (length (e ∷ es)) x)
]

Rising-lower : (a b hi : ℕ) (es : List Entry) → a ≤ b → Rising b hi es → Rising a hi es
Rising-lower a b hi [] l r = omega arith
Rising-lower a b hi (e ∷ es) l (p, r) = (omega arith, r)

pub newest-Rising : (lo hi : ℕ) (es : List Entry) → Rising lo hi es → Rising lo hi (newest es)
newest-Rising lo hi [] r = r
newest-Rising lo hi (e ∷ es) (p, r) =
    if_both (Rising lo hi) (ltb max_entries (length (e ∷ es))) (newest es) (e ∷ es)
      (newest-Rising lo hi es (Rising-lower lo e.id hi es (omega arith) r)) (p, r)

-- The entries that the limit on their bytes leaves, t being the bytes of all.
abbrev pub shed : ℕ → List Entry → List Entry
shed t [] = []
shed t (e ∷ es) =
    if leb t max_total_bytes
    then e ∷ es
    else if captured_body_bytes e == 0
    then e ∷ shed t es
    else stripped e ∷ shed (t - captured_body_bytes e) es

-- Entries with rising ids are found, and changed, where they stand.
not_seen :
    (lo hi : ℕ) (x e : Entry) (pre es : List Entry)
    → Rising lo hi (x ∷ (pre ++ e ∷ es))
    → x.id < e.id
not_seen lo hi x e [] es (p, (q, r)) = q
not_seen lo hi x e (y ∷ pre) es (p, (q, r)) =
    let l = not_seen x.id hi y e pre es (q, r) in omega arith

pub find-append :
    (lo hi : ℕ) (pre : List Entry) (e : Entry) (es : List Entry)
    → Rising lo hi (pre ++ e ∷ es)
    → find e.id (pre ++ e ∷ es) ≡ some e
unfolding find
find-append lo hi [] e es r = find-first e es
find-append lo hi (x ∷ pre) e es r =
    rw (lt→not_== x.id e.id (not_seen lo hi x e pre es r)) (find-append x.id hi pre e es r.1)

pub put-append :
    (lo hi : ℕ) (pre : List Entry) (e e' : Entry) (es : List Entry)
    → e.id ≡ e'.id
    → Rising lo hi (pre ++ e ∷ es)
    → put e' (pre ++ e ∷ es) ≡ pre ++ e' ∷ es
unfolding put
put-append lo hi [] e e' es q r = put-first e e' es q
put-append lo hi (x ∷ pre) e e' es q r =
    let l : x.id < e'.id = omega (arith, not_seen lo hi x e pre es r, q) in
    rw (lt→not_== x.id e'.id l) (ap (◌∷◌ x) (put-append x.id hi pre e e' es q r.1))
