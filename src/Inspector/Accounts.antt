-- ===== src/Inspector/Accounts.antt =====
-- The store over any history of its operations: its limits and its account of bytes.
use tuzy.Shared.{
  ℕ, suc, ◌-◌, ◌≤◌, ◌≡◌, refl, sym, ap, ap₂, subst, ◌∙◌, ◌⊎◌, inl, inr, List, [], ◌∷◌, leb, ◌==◌,
  if_both, length, All, arith,
}
use tuzy.Inspector.{Entry, max_entries, max_total_bytes, captured_body_bytes}
use tuzy.Inspector.Store.{stripped, Subscriber, Store, evict_bodies, evict}
use tuzy.Inspector.Eviction.{
  ids, bytes_of, store_of, Rising, newest, evict_entries_lem, length-newest, newest-Rising, shed,
}
use tuzy.Inspector.Shedding.{evict_bodies_lem, HasNoBody, shed_fits, shed-Rising}

-- `order` lists the ids of the entries, which rise with time and were all given out; `total` is what the
-- entries hold; there are at most 500 entries, and at most 64 MiB unless no body is left at all.
pub record IsValid (s : Store) : Type 0 where
  pub listed : s.order ≡ ids s.entries
  pub counted : s.total ≡ bytes_of s.entries
  pub rising : Rising 0 s.next_id s.entries
  pub few : length s.entries ≤ max_entries
  pub light : (s.total ≤ max_total_bytes) ⊎ All HasNoBody s.entries

-- All of it but the limits.
pub record IsCounted (s : Store) : Type 0 where
  pub listed : s.order ≡ ids s.entries
  pub counted : s.total ≡ bytes_of s.entries
  pub rising : Rising 0 s.next_id s.entries

store_of_lem : (s : Store) → IsCounted s → s ≡ store_of s.next_id s.entries s.subs
store_of_lem s c = ap₂ (λ o t. record s { order = o; total = t }) c.listed c.counted

ids-shed : (t : ℕ) (es : List Entry) → ids (shed t es) ≡ ids es
unfolding stripped
ids-shed t [] = refl
ids-shed t (e ∷ es) =
    let P : List Entry → Type 0 = λ xs. ids xs ≡ ids (e ∷ es) in
    if_both P (leb t max_total_bytes) (e ∷ es) _ refl (
      if_both P (captured_body_bytes e == 0) (e ∷ shed t es) _ (ap (◌∷◌ e.id) (ids-shed t es))
        (ap (◌∷◌ e.id) (ids-shed (t - captured_body_bytes e) es)))

length-shed : (t : ℕ) (es : List Entry) → length (shed t es) ≡ length es
unfolding stripped
length-shed t [] = refl
length-shed t (e ∷ es) =
    let P : List Entry → Type 0 = λ xs. length xs ≡ length (e ∷ es) in
    if_both P (leb t max_total_bytes) (e ∷ es) _ refl (
      if_both P (captured_body_bytes e == 0) (e ∷ shed t es) _ (ap suc (length-shed t es))
        (ap suc (length-shed (t - captured_body_bytes e) es)))

-- `evictLocked` of a store whose accounts are right.
abbrev pub kept : List Entry → List Entry
kept es = shed (bytes_of (newest es)) (newest es)

evict_lem :
    (n : ℕ) (es : List Entry) (us : List Subscriber)
    → Rising 0 n es
    → evict (store_of n es us) ≡ store_of n (kept es) us
unfolding evict
evict_lem n es us r =
    ap (λ (s : Store). evict_bodies s.order s) (evict_entries_lem n es us)
    ∙ evict_bodies_lem n n (ids (newest es)) us (newest es) [] (bytes_of (newest es))
        (newest-Rising 0 n es r) refl
    ∙ ap (λ o. record (store_of n (kept es) us) { order = o })
        (sym (ids-shed (bytes_of (newest es)) (newest es)))

kept-IsValid :
    (n : ℕ) (es : List Entry) (us : List Subscriber)
    → Rising 0 n es
    → IsValid (store_of n (kept es) us)
kept-IsValid n es us r = record {
  listed = refl;
  counted = refl;
  rising = shed-Rising 0 n (bytes_of (newest es)) (newest es) (newest-Rising 0 n es r);
  few = omega (arith, length-shed (bytes_of (newest es)) (newest es), length-newest es);
  light = elim (shed_fits (bytes_of (newest es)) (newest es) 0 (omega arith)) [
    | inl l ↦ inl (omega (arith, l))
    | inr a ↦ inr a
  ];
}

pub evict-IsValid : (s : Store) → IsCounted s → IsValid (evict s)
evict-IsValid s c =
    subst IsValid
      (sym (ap evict (store_of_lem s c) ∙ evict_lem s.next_id s.entries s.subs c.rising))
      (kept-IsValid s.next_id s.entries s.subs c.rising)

pub evict-entries : (s : Store) → IsCounted s → (evict s).entries ≡ kept s.entries
evict-entries s c =
    ap (λ (s' : Store). (evict s').entries) (store_of_lem s c)
    ∙ ap (λ (s' : Store). s'.entries) (evict_lem s.next_id s.entries s.subs c.rising)
