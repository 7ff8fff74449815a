-- ===== src/Inspector/Recorded.antt =====
-- What a recorder leaves of a request body in the store, from `Begin` to `End`.
use tuzy.Shared.{
  ℕ, ◌+◌, ◌≡◌, refl, sym, ap, subst, ◌∙◌, ◌⊎◌, inl, inr, Bool, true, false, ◌||◌, not, Option, some,
  List, [], ◌∷◌, ◌++◌, append-nil, append_assoc, ltb, if_both, length, length-append, take, arith,
}
use Prim.Native.String.{String}
use tuzy.Protocol.{Bytes}
use tuzy.Inspector.{Entry, content_of, max_entries, max_body_capture}
use tuzy.Inspector.Bodies.{Growth}
use tuzy.Inspector.Store.{
  stripped, Store, find, add, publish, update, update_found, revise, changed,
}
use tuzy.Inspector.Eviction.{bytes_of, Rising, newest, newest-Rising, shed, find-append}
use tuzy.Inspector.Accounts.{IsValid, evict-entries}
use tuzy.Inspector.History.{add-IsValid, added, added-IsCounted}
use tuzy.Inspector.Capture.{ReqHead, Tap, begin_entry, begin, fold, request_body, close_entry, end}
use tuzy.Inspector.Captured.{
  or_false, IsKept, find-shed, kept-or, revise-IsKept, Holds, Captures, written,
  request_body-Captures,
}

-- The chunks of a body, each with whether the lock of the store was free.
abbrev pub Chunks : Type 0
Chunks = List (Bool × Bytes)

abbrev pub sent : Chunks → Bytes
sent [] = []
sent ((free, p) ∷ cs) = p ++ sent cs

abbrev pub got : Chunks → Bytes
got [] = []
got ((free, p) ∷ cs) = written free p ++ got cs

abbrev pub some_lost : Chunks → Bool
some_lost [] = false
some_lost ((free, p) ∷ cs) = not free || some_lost cs

unfoldable pub feed : Growth → Chunks → Tap → Tap
feed grow [] t = t
feed grow ((free, p) ∷ cs) t = feed grow cs (request_body grow free p t)

cast-Captures :
    (m n : ℕ) (xs ys : Bytes) (a b : Bool) (t : Tap)
    → m ≡ n
    → xs ≡ ys
    → a ≡ b
    → Captures m xs a t
    → Captures n ys b t
cast-Captures m n xs ys a b t e f g c =
    subst (λ k. Captures k ys b t) e
      (subst (λ k. Captures m k b t) f (subst (λ k. Captures m xs k t) g c))

or_assoc : (a b c : Bool) → ((a || b) || c) ≡ (a || (b || c))
or_assoc true b c = refl
or_assoc false b c = refl

feed-Captures :
    (grow : Growth) (cs : Chunks) (size : ℕ) (sofar : Bytes) (lost : Bool) (t : Tap)
    → Captures size sofar lost t
    → Captures (size + length (sent cs)) (sofar ++ got cs) (lost || some_lost cs) (feed grow cs t)
unfolding feed
feed-Captures grow [] size sofar lost t c =
    cast-Captures size (size + 0) sofar (sofar ++ []) lost (lost || false) t (omega arith)
      (sym (append-nil sofar)) (sym (or_false lost)) c
feed-Captures grow ((free, p) ∷ cs) size sofar lost t c =
    let t' : Tap = request_body grow free p t in
    let w = written free p in
    cast-Captures (size + length p + length (sent cs)) (size + length (p ++ sent cs))
      ((sofar ++ w) ++ got cs) (sofar ++ (w ++ got cs)) ((lost || not free) || some_lost cs)
      (lost || (not free || some_lost cs)) (feed grow cs t')
      (omega (arith, length-append p (sent cs))) (append_assoc sofar w (got cs))
      (or_assoc lost (not free) (some_lost cs))
      (feed-Captures grow cs (size + length p) (sofar ++ w) (lost || not free) t'
        (request_body-Captures grow free p size sofar lost t c))

-- The newest entry is among those that stay.
newest-last :
    (es : List Entry) (e : Entry) → (pre : List Entry) × (newest (es ++ e ∷ []) ≡ pre ++ e ∷ [])
newest-last [] e = ([], refl)
newest-last (x ∷ es) e =
    if_both (λ l. (pre : List Entry) × (l ≡ pre ++ e ∷ []))
      (ltb max_entries (length (x ∷ (es ++ e ∷ [])))) (newest (es ++ e ∷ [])) (x ∷ (es ++ e ∷ []))
      (newest-last es e) (x ∷ es, refl)

-- What `Begin` stores is found, and has taken nothing.
add-found :
    (e : Entry) (s : Store)
    → IsValid s
    → IsKept (record e { id = s.next_id + 1 }) (find (s.next_id + 1) (add e s).0.entries)
unfolding add publish
add-found e s v =
    let e' : Entry = record e { id = s.next_id + 1 } in
    let c = added-IsCounted e s v in
    let (pre, last) = newest-last s.entries e' in
    let r : Rising 0 (s.next_id + 1) (pre ++ e' ∷ []) =
      subst (Rising 0 (s.next_id + 1)) last
        (newest-Rising 0 (s.next_id + 1) (added e s).entries c.rising) in
    subst (λ l. IsKept e' (find (s.next_id + 1) l))
      (sym (evict-entries (added e s) c ∙ ap (λ l. shed (bytes_of l) l) last))
      (find-shed (s.next_id + 1) (bytes_of (pre ++ e' ∷ [])) (pre ++ e' ∷ []) e'
        (find-append 0 (s.next_id + 1) pre e' [] r))

begin-Captures :
    (now : ℕ) (tunnel : String) (head : ReqHead) (s : Store)
    → IsValid s
    → Captures 0 [] false (begin now tunnel head s)
unfolding begin begin_entry add
begin-Captures now tunnel head s v =
    let e : Entry = begin_entry now tunnel head in
    let (r, s') : Tap = begin now tunnel head s in
    let (e', f, h) =
      kept-or (Holds [] false r) (record e { id = s.next_id + 1 }) (find (s.next_id + 1) s'.entries)
        (inr (refl, refl)) (add-found e s v) in
    record { valid = add-IsValid e s v; entry = e'; found = f; counted = refl; holds = h }

-- The entry of a stream that has ended: its size is that of the whole body; and unless its bodies were
-- dropped, it has the first megabyte of the chunks that could be written, and says if that is not all.
abbrev pub IsRecord : Chunks → Entry → Type 0
IsRecord cs e =
    (e.done ≡ true)
    × (e.req_size ≡ length (sent cs))
    × ((e.evicted ≡ true)
        ⊎ ((content_of e.req_body ≡ take max_body_capture (got cs))
            × (e.req_trunc ≡ (some_lost cs || ltb max_body_capture (length (got cs))))))

closed-IsRecord :
    (cs : Chunks) (elapsed : ℕ) (err : String) (t : Tap)
    → Captures (length (sent cs)) (got cs) (some_lost cs) t
    → (e : Entry) × (find t.0.id (end elapsed err t).1.entries ≡ some e) × IsRecord cs e
unfolding end update update_found publish close_entry fold changed stripped
closed-IsRecord cs elapsed err (r, s) c =
    let fn : Entry → Entry = close_entry elapsed err r in
    let e : Entry = changed fn c.entry in
    let k : IsKept e (find r.id (revise fn c.entry s).entries) =
      revise-IsKept r.id fn c.entry s c.found c.valid in
    let P : Option Entry → Type 0 =
      λ o. (e : Entry) × (find r.id (update_found fn o s).entries ≡ some e) × IsRecord cs e in
    subst P (sym c.found) (elim k [
      | inl same ↦ (e, same, (refl, c.counted, c.holds))
      | inr less ↦ (stripped e, less, (refl, c.counted, inl refl))
    ])

-- A store that is valid keeps a record of each stream whose hooks run alone: after `Begin`, the chunks of a
-- request body, and `End`, the entry that `Begin` added is done, and has as size that of all chunks. Unless
-- its bodies were dropped for the limit, it has the first megabyte of the chunks that were not lost to a
-- busy lock, and is flagged as cut if and only if a chunk was lost or there was more.
pub end-IsRecord :
    (grow : Growth) (now elapsed : ℕ) (tunnel err : String) (head : ReqHead) (cs : Chunks)
    (s : Store)
    → IsValid s
    → let t : Tap = feed grow cs (begin now tunnel head s) in
      (e : Entry) × (find t.0.id (end elapsed err t).1.entries ≡ some e) × IsRecord cs e
end-IsRecord grow now elapsed tunnel err head cs s v =
    let t : Tap = feed grow cs (begin now tunnel head s) in
    let c : Captures (0 + length (sent cs)) (got cs) (some_lost cs) t =
      feed-Captures grow cs 0 [] false (begin now tunnel head s)
        (begin-Captures now tunnel head s v) in
    closed-IsRecord cs elapsed err t (
      cast-Captures (0 + length (sent cs)) (length (sent cs)) (got cs) (got cs) (some_lost cs)
        (some_lost cs) t (omega arith) refl refl c)
