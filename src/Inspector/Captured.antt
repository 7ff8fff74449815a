-- ===== src/Inspector/Captured.antt =====
-- What a recorder leaves of a request body in the store.
use tuzy.Shared.{
  not, ℕ, ◌+◌, ◌-◌, ◌≤◌, ◌≡◌, refl, sym, ap, ap₂, subst, ◌∙◌, ◌⊎◌, inl, inr, Bool, true, false,
  ◌||◌, Bool-cases, Option, some, List, [], ◌∷◌, ◌++◌, append-nil, ltb, ltb→lt, lt→ltb, le→not_ltb,
  not_ltb→le, leb, ◌==◌, if_both, length, length-append, take, arith,
}
use mathlib.Core.Option
use tuzy.Protocol.{Bytes}
use tuzy.Inspector.{
  Entry, content_of, max_entries, max_total_bytes, max_body_capture, captured_body_bytes,
}
use tuzy.Inspector.Bodies.{Growth, append_capped_lem, take-take-append, length-take-le, take_all}
use tuzy.Inspector.Store.{Store, find, revise, changed, mutate, mutate_found, stripped}
use tuzy.Inspector.Eviction.{bytes_of, newest, shed}
use tuzy.Inspector.Accounts.{IsValid, evict-entries}
use tuzy.Inspector.History.{revised, revised_lem, mutate-IsValid}
use tuzy.Inspector.Capture.{Recorder, Tap, fold, folded, take_request, request_body}

-- An entry as it is, or without its bodies.
abbrev pub IsKept : Entry → Option Entry → Type 0
IsKept e o = (o ≡ some e) ⊎ (o ≡ some (stripped e))

pub find-shed :
    (id t : ℕ) (es : List Entry) (e : Entry) → find id es ≡ some e → IsKept e (find id (shed t es))
unfolding find stripped
find-shed id t [] e q = inl q
find-shed id t (x ∷ es) e q =
    let P : List Entry → Type 0 = λ l. IsKept e (find id l) in
    let n : ℕ = captured_body_bytes x in
    let (free, full) : P (x ∷ shed t es) × P (stripped x ∷ shed (t - n) es) =
      elim (Bool-cases (x.id == id)) [
        | inl hit ↦
            (rw hit (inl (rw hit at q)), rw hit (inr (ap (Option.map stripped) (rw hit at q))))
        | inr miss ↦ (
          rw miss (find-shed id t es e (rw miss at q)),
          rw miss (find-shed id (t - n) es e (rw miss at q)),
        )
      ] in
    if_both P (leb t max_total_bytes) (x ∷ es) _ (inl q)
      (if_both P (n == 0) (x ∷ shed t es) (stripped x ∷ shed (t - n) es) free full)

newest_few : (es : List Entry) → length es ≤ max_entries → newest es ≡ es
newest_few [] h = refl
newest_few (e ∷ es) h = rw (le→not_ltb max_entries (length (e ∷ es)) h) refl

-- A change leaves the changed entry, or that without its bodies.
pub revise-IsKept :
    (id : ℕ) (fn : Entry → Entry) (e : Entry) (s : Store)
    → find id s.entries ≡ some e
    → IsValid s
    → IsKept (changed fn e) (find id (revise fn e s).entries)
unfolding revise
revise-IsKept id fn e s q v =
    let w = revised_lem id fn e s q v in
    let es : List Entry = (revised fn e s).entries in
    let same = newest_few es (omega (arith, w.same, v.few)) in
    subst (λ l. IsKept (changed fn e) (find id l))
      (sym (evict-entries (revised fn e s) w.counted ∙ ap (λ l. shed (bytes_of l) l) same))
      (find-shed id (bytes_of es) es (changed fn e) w.found)

-- What the bytes of a stream come to in an entry: `kept` those that the recorder could write, `lost` if
-- there were others.
abbrev pub Holds : Bytes → Bool → Recorder → Entry → Type 0
Holds kept lost r e =
    (content_of e.req_body ≡ take max_body_capture kept)
    × ((r.req_dropped || e.req_trunc) ≡ (lost || ltb max_body_capture (length kept)))

pub record Captures (size : ℕ) (kept : Bytes) (lost : Bool) (t : Tap) : Type 0 where
  pub valid : IsValid t.1
  pub entry : Entry
  pub found : find t.0.id t.1.entries ≡ some entry
  pub counted : t.0.req_size ≡ size
  pub holds : (entry.evicted ≡ true) ⊎ Holds kept lost t.0 entry

trunc_lem :
    (lost : Bool) (m k c p : ℕ)
    → c ≤ m
    → (k ≤ m → c ≡ k)
    → ((lost || ltb m k) || ltb m (c + p)) ≡ (lost || ltb m (k + p))
trunc_lem true m k c p h g = refl
trunc_lem false m k c p h g = elim (Bool-cases (ltb m k)) [
  | inl long ↦ rw (long, lt→ltb m (k + p) (omega (arith, ltb→lt m k long))) refl
  | inr short ↦ rw (short, g (not_ltb→le m k short)) refl
]

-- The change of `RequestBody` on an entry that still has its bodies.
take_request-Holds :
    (grow : Growth) (kept p : Bytes) (lost : Bool) (r : Recorder) (e : Entry)
    → e.evicted ≡ false
    → Holds kept lost r e
    → Holds (kept ++ p) lost (folded (some e) r) (changed (take_request grow r p) e)
unfolding take_request fold folded changed
take_request-Holds grow kept p lost r e live (c, t) =
    let m : ℕ = max_body_capture in
    let (b, cut) =
      append_capped_lem grow e.req_body p r.req_length
        (omega (arith, ap length c, length-take-le m kept)) in
    rw live (
      b ∙ ap (λ l. take m (l ++ p)) c ∙ take-take-append m kept p,
      ap₂ ◌||◌ t (cut ∙ ap (λ l. ltb m (length l + length p)) c)
          ∙ trunc_lem lost m (length kept) (length (take m kept)) (length p) (length-take-le m kept)
              (λ h. ap length (take_all m kept h))
          ∙ ap (λ k. lost || ltb m k) (sym (length-append kept p)),
    )

take_request-evicted :
    (grow : Growth) (p : Bytes) (r : Recorder) (e : Entry)
    → e.evicted ≡ true
    → (take_request grow r p e).evicted ≡ true
unfolding take_request fold
take_request-evicted grow p r e gone = rw gone refl

-- What is true of the changed entry is true of the one that the eviction leaves, or its bodies are gone.
pub kept-or :
    (Q : Entry → Type 0) (e : Entry) (o : Option Entry)
    → (e.evicted ≡ true) ⊎ Q e
    → IsKept e o
    → (e' : Entry) × (o ≡ some e') × ((e'.evicted ≡ true) ⊎ Q e')
unfolding stripped
kept-or Q e o h (inl same) = (e, same, h)
kept-or Q e o h (inr less) = (stripped e, less, inl refl)

wrote-Captures :
    (grow : Growth) (size : ℕ) (got p : Bytes) (lost : Bool) (r : Recorder) (s : Store) (e : Entry)
    → IsValid s
    → find r.id s.entries ≡ some e
    → r.req_size ≡ size
    → (e.evicted ≡ true) ⊎ Holds got lost r e
    → Captures size
        (got ++ p)
        lost
        (folded (some e) r, mutate_found (take_request grow r p) (some e) s)
unfolding mutate_found folded
wrote-Captures grow size got p lost r s e v q n h =
    let fn : Entry → Entry = take_request grow r p in
    let h' : (((changed fn e).evicted ≡ true)
        ⊎ Holds (got ++ p) lost (folded (some e) r) (changed fn e)) =
      elim (Bool-cases e.evicted) [
        | inl gone ↦ inl (unfold changed in take_request-evicted grow p r e gone)
        | inr live ↦ elim h [
          | inl gone ↦ inl (unfold changed in take_request-evicted grow p r e gone)
          | inr holds ↦ inr (take_request-Holds grow got p lost r e live holds)
        ]
      ] in
    let (e', f, k) =
      kept-or (Holds (got ++ p) lost (folded (some e) r)) (changed fn e)
        (find r.id (revise fn e s).entries) h' (revise-IsKept r.id fn e s q v) in
    record {
      valid = mutate-IsValid r.id fn s (some e) q v;
      entry = e';
      found = f;
      counted = n;
      holds = k;
    }

-- The chunks that the hook could write, and if there were others.
abbrev pub written : Bool → Bytes → Bytes
written true p = p
written false p = []

pub or_false : (b : Bool) → (b || false) ≡ b
or_false true = refl
or_false false = refl

lost-Holds :
    (got : Bytes) (lost : Bool) (r r' : Recorder) (e : Entry)
    → r'.req_dropped ≡ true
    → Holds got lost r e
    → Holds (got ++ []) (lost || true) r' e
lost-Holds got true r r' e d (c, t) =
    rw d (c ∙ ap (take max_body_capture) (sym (append-nil got)), refl)
lost-Holds got false r r' e d (c, t) =
    rw d (c ∙ ap (take max_body_capture) (sym (append-nil got)), refl)

pub request_body-Captures :
    (grow : Growth) (free : Bool) (p : Bytes) (size : ℕ) (got : Bytes) (lost : Bool) (t : Tap)
    → Captures size got lost t
    → Captures
        (size + length p)
        (got ++ written free p)
        (lost || not free)
        (request_body grow free p t)
unfolding request_body mutate
request_body-Captures grow true p size got lost (r', s) c =
    let r : Recorder = record r' { req_size = r'.req_size + length p } in
    let n : r.req_size ≡ size + length p = ap (λ k. k + length p) c.counted in
    let P : Option Entry → Type 0 = λ o.
      Captures (size + length p) (got ++ p) lost
        (folded o r, mutate_found (take_request grow r p) o s) in
    let w : P (some c.entry) =
      wrote-Captures grow (size + length p) got p lost r s c.entry c.valid c.found n c.holds in
    subst
      (λ l. Captures (size + length p) (got ++ p) l (
        folded (find r.id s.entries) r,
        mutate_found (take_request grow r p) (find r.id s.entries) s,
      ))
      (sym (or_false lost)) (subst P (sym c.found) w)
request_body-Captures grow false p size got lost (r', s) c = record {
  valid = c.valid;
  entry = c.entry;
  found = c.found;
  counted = ap (λ k. k + length p) c.counted;
  holds = elim c.holds [
    | inl gone ↦ inl gone
    | inr h ↦ inr (
        lost-Holds got lost r' (record r' { req_size = r'.req_size + length p; req_dropped = true })
          c.entry refl h)
  ];
}
