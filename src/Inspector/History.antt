-- ===== src/Inspector/History.antt =====
-- The store over any history of its operations.
use tuzy.Shared.{
  length-append, ℕ, ◌+◌, ◌-◌, ◌<◌, ◌≡◌, refl, sym, ap, subst, ◌∙◌, inl, inr, Bool, true, false,
  Bool-cases, Option, none, some, List, [], ◌∷◌, ◌++◌, ◌==◌, ==→≡, length, arith,
}
use tuzy.Inspector.{summary, Entry, body_bytes}
use tuzy.Inspector.Store.{
  created, receive, update_found, mutate_found, updated, cleared, offer, Event, Subscriber, Store,
  new_store, find, put, publish, evict, add, changed, revise, update, mutate, clear, subscribe,
  unsubscribe,
}
use tuzy.Inspector.Eviction.{store_of, ids, bytes_of, Rising, put-append, find-append}
use tuzy.Inspector.Shedding.{Rising-same, ids-same, bytes_of-append}
use tuzy.Inspector.Accounts.{IsValid, IsCounted, evict-IsValid}

-- The operations that change the store. The changes are any functions of an entry.
pub data Action : Type 0 where
  adds : Entry → Action
  updates : ℕ → (Entry → Entry) → Action
  mutates : Bool → ℕ → (Entry → Entry) → Action
  clears : Action
  subscribes unsubscribes receives : ℕ → Action

unfoldable pub act : Store → Action → Store
act s (adds e) = (add e s).0
act s (updates id fn) = update id fn s
act s (mutates free id fn) = (mutate free id fn s).0
act s clears = clear s
act s (subscribes key) = subscribe key s
act s (unsubscribes key) = unsubscribe key s
act s (receives key) = record s { subs = receive key s.subs }

unfoldable pub run : Store → List Action → Store
run s [] = s
run s (a ∷ as') = run (act s a) as'

Rising-snoc :
    (lo hi : ℕ) (es : List Entry) (e : Entry)
    → Rising lo hi es
    → hi < e.id
    → Rising lo e.id (es ++ e ∷ [])
Rising-snoc lo hi [] e r l = (omega arith, omega arith)
Rising-snoc lo hi (x ∷ es) e (p, r) l = (p, Rising-snoc x.id hi es e r l)

ids-append : (xs ys : List Entry) → ids (xs ++ ys) ≡ ids xs ++ ids ys
ids-append [] ys = refl
ids-append (x ∷ xs) ys = ap (◌∷◌ x.id) (ids-append xs ys)

publish-IsValid : (ev : Event) (s : Store) → IsValid s → IsValid (publish ev s)
unfolding publish
publish-IsValid ev s v = record {
  listed = v.listed;
  counted = v.counted;
  rising = v.rising;
  few = v.few;
  light = v.light;
}

-- The store that `add` passes to the eviction.
abbrev pub added : Entry → Store → Store
added e s = record s {
  next_id = s.next_id + 1;
  entries = s.entries ++ record e { id = s.next_id + 1 } ∷ [];
  order = s.order ++ (s.next_id + 1) ∷ [];
  total = s.total + body_bytes (record e { id = s.next_id + 1 });
}

pub added-IsCounted : (e : Entry) (s : Store) → IsValid s → IsCounted (added e s)
added-IsCounted e s v =
    let e' : Entry = record e { id = s.next_id + 1 } in
    record {
      listed = ap (λ o. o ++ e'.id ∷ []) v.listed ∙ sym (ids-append s.entries (e' ∷ []));
      counted = omega (arith, v.counted, bytes_of-append s.entries (e' ∷ []));
      rising = Rising-snoc 0 s.next_id s.entries e' v.rising (omega arith);
    }

pub add-IsValid : (e : Entry) (s : Store) → IsValid s → IsValid (add e s).0
unfolding add
add-IsValid e s v =
    publish-IsValid (created (summary (record e { id = s.next_id + 1 }))) (evict (added e s))
      (evict-IsValid (added e s) (added-IsCounted e s v))

-- An entry that is found stands in the list.
find-split :
    (id : ℕ) (es : List Entry) (e : Entry)
    → find id es ≡ some e
    → (pre : List Entry) × (post : List Entry) × (es ≡ pre ++ e ∷ post) × (e.id ≡ id)
unfolding find
find-split id [] e q = absurd (cc)
find-split id (x ∷ es) e q = elim (Bool-cases (x.id == id)) [
  | inl hit ↦
      let y : x ≡ e = some_inj x e (rw hit at q) in
      ([], es, ap (λ y. y ∷ es) y, ap (λ (z : Entry). z.id) (sym y) ∙ ==→≡ x.id id hit)
  | inr miss ↦
      let (pre, post, s, i) = find-split id es e (rw miss at q) in (x ∷ pre, post, ap (◌∷◌ x) s, i)
]
  where
    some_inj : (a b : Entry) → some a ≡ some b → a ≡ b
    some_inj a b q' = cc

-- The store that `revise` passes to the eviction.
abbrev pub revised : (Entry → Entry) → Entry → Store → Store
revised fn e s = record s {
  entries = put (changed fn e) s.entries;
  total = s.total + body_bytes (changed fn e) - body_bytes e;
}

-- What a change leaves of the entries, before the eviction.
pub record IsRevised (id : ℕ) (fn : Entry → Entry) (e : Entry) (s : Store) : Type 0 where
  pub counted : IsCounted (revised fn e s)
  pub same : length (revised fn e s).entries ≡ length s.entries
  pub found : find id (revised fn e s).entries ≡ some (changed fn e)

pub revised_lem :
    (id : ℕ) (fn : Entry → Entry) (e : Entry) (s : Store)
    → find id s.entries ≡ some e
    → IsValid s
    → IsRevised id fn e s
unfolding changed
revised_lem id fn e s q v =
    let (pre, post, d, i) = find-split id s.entries e q in
    let e' : Entry = changed fn e in
    let r : Rising 0 s.next_id (pre ++ e ∷ post) = subst (Rising 0 s.next_id) d v.rising in
    let r' : Rising 0 s.next_id (pre ++ e' ∷ post) = Rising-same 0 s.next_id pre e e' post refl r in
    let p : put e' s.entries ≡ pre ++ e' ∷ post =
      ap (put e') d ∙ put-append 0 s.next_id pre e e' post refl r in
    record {
      counted = record {
        listed = v.listed ∙ ap ids d ∙ ids-same pre e e' post refl ∙ ap ids (sym p);
        counted = omega (
          arith,
          v.counted,
          ap bytes_of d,
          ap bytes_of p,
          bytes_of-append pre (e ∷ post),
          bytes_of-append pre (e' ∷ post),
        );
        rising = subst (Rising 0 s.next_id) (sym p) r';
      };
      same = omega (
        arith,
        ap length d,
        ap length p,
        length-append pre (e ∷ post),
        length-append pre (e' ∷ post),
      );
      found =
          ap (λ k. find k (put e' s.entries)) (sym i)
          ∙ ap (find e.id) p
          ∙ find-append 0 s.next_id pre e' post r';
    }

pub revise-IsValid :
    (id : ℕ) (fn : Entry → Entry) (e : Entry) (s : Store)
    → find id s.entries ≡ some e
    → IsValid s
    → IsValid (revise fn e s)
unfolding revise
revise-IsValid id fn e s q v = evict-IsValid (revised fn e s) (revised_lem id fn e s q v).counted

pub update-IsValid :
    (id : ℕ) (fn : Entry → Entry) (s : Store) (o : Option Entry)
    → find id s.entries ≡ o
    → IsValid s
    → IsValid (update_found fn o s)
unfolding update_found
update-IsValid id fn s none q v = v
update-IsValid id fn s (some e) q v =
    publish-IsValid (updated (summary (changed fn e))) (revise fn e s)
      (revise-IsValid id fn e s q v)

pub mutate-IsValid :
    (id : ℕ) (fn : Entry → Entry) (s : Store) (o : Option Entry)
    → find id s.entries ≡ o
    → IsValid s
    → IsValid (mutate_found fn o s)
unfolding mutate_found
mutate-IsValid id fn s none q v = v
mutate-IsValid id fn s (some e) q v = revise-IsValid id fn e s q v

-- Nothing but the subscribers is different.
subs-IsValid : (s : Store) (us : List Subscriber) → IsValid s → IsValid (record s { subs = us })
subs-IsValid s us v = record {
  listed = v.listed;
  counted = v.counted;
  rising = v.rising;
  few = v.few;
  light = v.light;
}

empty-IsValid : (n : ℕ) (us : List Subscriber) → IsValid (store_of n [] us)
empty-IsValid n us = record {
  listed = refl;
  counted = refl;
  rising = omega arith;
  few = omega arith;
  light = inl (omega arith);
}

pub act-IsValid : (s : Store) (a : Action) → IsValid s → IsValid (act s a)
unfolding act update mutate clear subscribe unsubscribe publish
act-IsValid s (adds e) v = add-IsValid e s v
act-IsValid s (updates id fn) v = update-IsValid id fn s (find id s.entries) refl v
act-IsValid s (mutates true id fn) v = mutate-IsValid id fn s (find id s.entries) refl v
act-IsValid s (mutates false id fn) v = v
act-IsValid s clears v = empty-IsValid s.next_id (offer cleared s.subs)
act-IsValid s (subscribes key) v = subs-IsValid s _ v
act-IsValid s (unsubscribes key) v = subs-IsValid s _ v
act-IsValid s (receives key) v = subs-IsValid s _ v

run_from-IsValid : (as' : List Action) (s : Store) → IsValid s → IsValid (run s as')
unfolding run
run_from-IsValid [] s v = v
run_from-IsValid (a ∷ as') s v = run_from-IsValid as' (act s a) (act-IsValid s a v)

-- Over any history of a new store, with any changes of its entries: `order` lists the ids of the entries,
-- which rise; `total` is the sum of what the entries hold; at most 500 entries are kept; and they hold at
-- most 64 MiB, unless they hold no body at all and it is headers that go beyond.
pub run_stays_valid : (as' : List Action) → IsValid (run new_store as')
unfolding new_store
run_stays_valid as' = run_from-IsValid as' new_store (empty-IsValid 0 [])
