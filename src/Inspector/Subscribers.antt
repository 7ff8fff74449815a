-- ===== src/Inspector/Subscribers.antt =====
-- What the subscribers of the store are told.
use tuzy.Shared.{
  ℕ, ◌+◌, ◌-◌, ◌≤◌, ◌≡◌, refl, sym, ap, subst, ◌∙◌, true, false, inl, inr, Bool-cases, Option, none,
  some, List, [], ◌∷◌, ◌++◌, append-nil, append_assoc, ltb, ltb→lt, leb, ◌==◌, if_both, length,
  length-append, All, arith,
}
use tuzy.Inspector.{Entry, body_bytes, summary, captured_body_bytes, max_entries, max_total_bytes}
use tuzy.Inspector.Store.{
  Event, created, updated, cleared, Subscriber, Store, new_store, find, put, offer, publish, forget,
  evict_entries, strip, evict_bodies, evict, add, changed, revise, update, update_found, mutate,
  mutate_found, clear, subscribe, drop_sub, unsubscribe, received, receive, sub_buffer,
}
use tuzy.Inspector.History.{
  Action, adds, updates, mutates, clears, subscribes, unsubscribes, receives, act, run,
}

-- What an operation announces.
abbrev pub told_of : (Entry → Entry) → Option Entry → List Event
told_of fn none = []
told_of fn (some e) = updated (summary (changed fn e)) ∷ []

abbrev pub announced : Store → Action → List Event
announced s (adds e) = created (summary (record e { id = s.next_id + 1 })) ∷ []
announced s (updates id fn) = told_of fn (find id s.entries)
announced s (mutates free id fn) = []
announced s clears = cleared ∷ []
announced s (subscribes key) = []
announced s (unsubscribes key) = []
announced s (receives key) = []

-- All that a history announces.
unfoldable pub log : Store → List Action → List Event
log s [] = []
log s (a ∷ as') = announced s a ++ log (act s a) as'

-- A subscriber took, or has waiting, the last of the announcements, without a gap, from where it came.
record IsToldBy (Came : ℕ → List Event → Type 0) (evs : List Event) (u : Subscriber) : Type 0 where
  pub before : List Event
  pub came : Came u.key before
  pub all : evs ≡ before ++ (u.taken ++ u.buffer)
  pub few : length u.buffer ≤ sub_buffer

-- No eviction changes the subscribers.
forget-subs : (id : ℕ) (o : Option Entry) (s : Store) → (forget id o s).subs ≡ s.subs
unfolding forget
forget-subs id none s = refl
forget-subs id (some e) s = refl

strip-subs : (o : Option Entry) (s : Store) → (strip o s).subs ≡ s.subs
unfolding strip
strip-subs none s = refl
strip-subs (some e) s =
    if_both (λ (s' : Store). s'.subs ≡ s.subs) (captured_body_bytes e == 0) s _ refl refl

evict_entries-subs : (ids : List ℕ) (s : Store) → (evict_entries ids s).subs ≡ s.subs
unfolding evict_entries
evict_entries-subs [] s = refl
evict_entries-subs (id ∷ rest) s =
    let s' : Store = record s { order = rest } in
    if_both (λ (s' : Store). s'.subs ≡ s.subs) (ltb max_entries (length (id ∷ rest))) _ s
      (evict_entries-subs rest (forget id (find id s.entries) s')
        ∙ forget-subs id (find id s.entries) s')
      refl

evict_bodies-subs : (ids : List ℕ) (s : Store) → (evict_bodies ids s).subs ≡ s.subs
unfolding evict_bodies
evict_bodies-subs [] s = refl
evict_bodies-subs (id ∷ rest) s =
    if_both (λ (s' : Store). s'.subs ≡ s.subs) (leb s.total max_total_bytes) s _ refl
      (evict_bodies-subs rest (strip (find id s.entries) s) ∙ strip-subs (find id s.entries) s)

evict-subs : (s : Store) → (evict s).subs ≡ s.subs
unfolding evict
evict-subs s =
    let s' : Store = evict_entries s.order s in
    evict_bodies-subs s'.order s' ∙ evict_entries-subs s.order s

module _ (Came : ℕ → List Event → Type 0) where
  -- An event that is published reaches each subscriber that stays.
  offer-IsToldBy :
      (ev : Event) (evs : List Event) (us : List Subscriber)
      → All (IsToldBy Came evs) us
      → All (IsToldBy Came (evs ++ ev ∷ [])) (offer ev us)
  unfolding offer
  offer-IsToldBy ev evs [] h = h
  offer-IsToldBy ev evs (u ∷ us) (t, h) =
      let rest = offer-IsToldBy ev evs us h in
      elim (Bool-cases (ltb (length u.buffer) sub_buffer)) [
        | inl room ↦ rw room (
          record {
            before = t.before;
            came = t.came;
            all =
                ap (λ l. l ++ ev ∷ []) t.all
                ∙ append_assoc t.before (u.taken ++ u.buffer) (ev ∷ [])
                ∙ ap (◌++◌ t.before) (append_assoc u.taken u.buffer (ev ∷ []));
            few =
                omega (
                  arith,
                  ltb→lt (length u.buffer) sub_buffer room,
                  length-append u.buffer (ev ∷ []),
                );
          },
          rest,
        )
        | inr full ↦ rw full rest
      ]

  received-IsToldBy :
      (evs : List Event) (u : Subscriber) (buffer : List Event)
      → u.buffer ≡ buffer
      → IsToldBy Came evs u
      → IsToldBy Came evs (received u buffer)
  unfolding received
  received-IsToldBy evs u [] q t = t
  received-IsToldBy evs u (ev ∷ buffer) q t = record {
    before = t.before;
    came = t.came;
    all =
        t.all
        ∙ ap (λ b. t.before ++ (u.taken ++ b)) q
        ∙ ap (◌++◌ t.before) (sym (append_assoc u.taken (ev ∷ []) buffer));
    few = omega (arith, t.few, ap length q);
  }

  receive-IsToldBy :
      (evs : List Event) (key : ℕ) (us : List Subscriber)
      → All (IsToldBy Came evs) us
      → All (IsToldBy Came evs) (receive key us)
  unfolding receive
  receive-IsToldBy evs key [] h = h
  receive-IsToldBy evs key (u ∷ us) (t, h) =
      if_both (All (IsToldBy Came evs)) (u.key == key) (received u u.buffer ∷ us)
        (u ∷ receive key us) (received-IsToldBy evs u u.buffer refl t, h)
        (t, receive-IsToldBy evs key us h)

  drop_sub-IsToldBy :
      (evs : List Event) (key : ℕ) (us : List Subscriber)
      → All (IsToldBy Came evs) us
      → All (IsToldBy Came evs) (drop_sub key us)
  unfolding drop_sub
  drop_sub-IsToldBy evs key [] h = h
  drop_sub-IsToldBy evs key (u ∷ us) (t, h) =
      if_both (All (IsToldBy Came evs)) (u.key == key) us (u ∷ drop_sub key us) h
        (t, drop_sub-IsToldBy evs key us h)

  -- The announcements `evs` and those of one operation.
  abbrev Tells : List Event → List Subscriber → Type 0
  Tells evs us = All (IsToldBy Came evs) us

  publish-Tells :
      (ev : Event) (evs : List Event) (s : Store) (us : List Subscriber)
      → s.subs ≡ us
      → Tells evs us
      → Tells (evs ++ ev ∷ []) (publish ev s).subs
  unfolding publish
  publish-Tells ev evs s us q h = offer-IsToldBy ev evs s.subs (subst (Tells evs) (sym q) h)

  same-Tells :
      (evs : List Event) (us us' : List Subscriber)
      → us' ≡ us
      → Tells evs us
      → Tells (evs ++ []) us'
  same-Tells evs us us' q h =
      subst (λ l. Tells l us') (sym (append-nil evs)) (subst (Tells evs) (sym q) h)

  revise-subs : (fn : Entry → Entry) (e : Entry) (s : Store) → (revise fn e s).subs ≡ s.subs
  unfolding revise
  revise-subs fn e s = evict-subs (record s {
    entries = put (changed fn e) s.entries;
    total = s.total + body_bytes (changed fn e) - body_bytes e;
  })

  update-Tells :
      (evs : List Event) (fn : Entry → Entry) (o : Option Entry) (s : Store)
      → Tells evs s.subs
      → Tells (evs ++ told_of fn o) (update_found fn o s).subs
  unfolding update_found
  update-Tells evs fn none s h = same-Tells evs s.subs s.subs refl h
  update-Tells evs fn (some e) s h =
      publish-Tells (updated (summary (changed fn e))) evs (revise fn e s) s.subs
        (revise-subs fn e s) h

  mutate-subs :
      (fn : Entry → Entry) (o : Option Entry) (s : Store) → (mutate_found fn o s).subs ≡ s.subs
  unfolding mutate_found
  mutate-subs fn none s = refl
  mutate-subs fn (some e) s = revise-subs fn e s

  -- A new subscriber has heard of nothing that came before it.
  subscribe-Tells :
      (evs : List Event) (key : ℕ) (s : Store)
      → Came key evs
      → Tells evs s.subs
      → Tells (evs ++ []) (subscribe key s).subs
  unfolding subscribe
  subscribe-Tells evs key s came h = (
    record { before = evs; came = came; all = refl; few = omega arith },
    same-Tells evs s.subs s.subs refl h,
  )

  add-Tells :
      (evs : List Event) (e : Entry) (s : Store)
      → Tells evs s.subs
      → Tells (evs ++ announced s (adds e)) (add e s).0.subs
  unfolding add
  add-Tells evs e s h =
      let e' : Entry = record e { id = s.next_id + 1 } in
      let grown : Store = record s {
        next_id = s.next_id + 1;
        entries = s.entries ++ e' ∷ [];
        order = s.order ++ (s.next_id + 1) ∷ [];
        total = s.total + body_bytes e';
      } in
      publish-Tells (created (summary e')) evs (evict grown) s.subs (evict-subs grown) h

  act-Tells :
      (evs : List Event) (s : Store) (a : Action)
      → ((key : ℕ) → a ≡ subscribes key → Came key evs)
      → Tells evs s.subs
      → Tells (evs ++ announced s a) (act s a).subs
  unfolding act update mutate clear unsubscribe
  act-Tells evs s (adds e) came h = add-Tells evs e s h
  act-Tells evs s (updates id fn) came h = update-Tells evs fn (find id s.entries) s h
  act-Tells evs s (mutates true id fn) came h =
      same-Tells evs s.subs _ (mutate-subs fn (find id s.entries) s) h
  act-Tells evs s (mutates false id fn) came h = same-Tells evs s.subs s.subs refl h
  act-Tells evs s clears came h =
      publish-Tells cleared evs (record s { order = []; entries = []; total = 0 }) s.subs refl h
  act-Tells evs s (subscribes key) came h = subscribe-Tells evs key s (came key refl) h
  act-Tells evs s (unsubscribes key) came h =
      same-Tells evs (drop_sub key s.subs) _ refl (drop_sub-IsToldBy evs key s.subs h)
  act-Tells evs s (receives key) came h =
      same-Tells evs (receive key s.subs) _ refl (receive-IsToldBy evs key s.subs h)

-- Where in a history a subscriber came, with all that had been announced before.
Came : List Action → ℕ → List Event → Type 0
Came hist key before =
    (earlier : List Action) × (later : List Action) × (hist ≡ earlier ++ subscribes key ∷ later)
    × (before ≡ log new_store earlier)

come_on :
    (hist : List Action) (a : Action) (key : ℕ) (before : List Event)
    → Came hist key before
    → Came (hist ++ a ∷ []) key before
unfolding Came
come_on hist a key before (earlier, later, e, b) = (
  earlier,
  later ++ a ∷ [],
  ap (λ l. l ++ a ∷ []) e ∙ append_assoc earlier (subscribes key ∷ later) (a ∷ []),
  b,
)

Tells-come_on :
    (hist : List Action) (a : Action) (evs : List Event) (us : List Subscriber)
    → Tells (Came hist) evs us
    → Tells (Came (hist ++ a ∷ [])) evs us
Tells-come_on hist a evs [] h = tt
Tells-come_on hist a evs (u ∷ us) (t, h) = (
  record {
    before = t.before;
    came = come_on hist a u.key t.before t.came;
    all = t.all;
    few = t.few;
  },
  Tells-come_on hist a evs us h,
)

log-append : (s : Store) (xs ys : List Action) → log s (xs ++ ys) ≡ log s xs ++ log (run s xs) ys
unfolding log run
log-append s [] ys = refl
log-append s (a ∷ xs) ys =
    ap (◌++◌ (announced s a)) (log-append (act s a) xs ys)
    ∙ sym (append_assoc (announced s a) (log (act s a) xs) (log (run (act s a) xs) ys))

run-append : (s : Store) (xs ys : List Action) → run s (xs ++ ys) ≡ run (run s xs) ys
unfolding run
run-append s [] ys = refl
run-append s (a ∷ xs) ys = run-append (act s a) xs ys

run-Tells :
    (hist as' : List Action)
    → Tells (Came hist) (log new_store hist) (run new_store hist).subs
    → Tells (Came (hist ++ as')) (log new_store (hist ++ as')) (run new_store (hist ++ as')).subs
unfolding run log
run-Tells hist [] h =
    subst (λ l. Tells (Came l) (log new_store l) (run new_store l).subs) (sym (append-nil hist)) h
run-Tells hist (a ∷ as') h =
    let s : Store = run new_store hist in
    let step : Tells (Came (hist ++ a ∷ [])) (log new_store hist ++ announced s a) (act s a).subs =
      act-Tells (Came (hist ++ a ∷ [])) (log new_store hist) s a (here a)
        (Tells-come_on hist a (log new_store hist) s.subs h) in
    let l : log new_store hist ++ announced s a ≡ log new_store (hist ++ a ∷ []) =
      ap (◌++◌ (log new_store hist)) (sym (append-nil (announced s a)))
      ∙ sym (log-append new_store hist (a ∷ [])) in
    let r : act s a ≡ run new_store (hist ++ a ∷ []) = sym (run-append new_store hist (a ∷ [])) in
    subst (λ h. Tells (Came h) (log new_store h) (run new_store h).subs)
      (append_assoc hist (a ∷ []) as')
      (run-Tells (hist ++ a ∷ []) as' (
        subst (λ evs. Tells (Came (hist ++ a ∷ [])) evs (run new_store (hist ++ a ∷ [])).subs) l
          (subst
            (λ (s' : Store).
              Tells (Came (hist ++ a ∷ [])) (log new_store hist ++ announced s a) s'.subs)
            r step)))
  where
    here :
        (a : Action) (key : ℕ) → a ≡ subscribes key → Came (hist ++ a ∷ []) key (log new_store hist)
    here a key e = unfold Came in (hist, [], ap (λ x. hist ++ x ∷ []) e, refl)

-- A subscriber took, or has waiting, all that was announced since an action with its key subscribed it, in order, and
-- at most 256 wait.
pub record IsTold (hist : List Action) (u : Subscriber) : Type 0 where
  pub earlier : List Action
  pub later : List Action
  pub came : hist ≡ earlier ++ subscribes u.key ∷ later
  pub told : u.taken ++ u.buffer ≡ log (run new_store earlier) (subscribes u.key ∷ later)
  pub few : length u.buffer ≤ sub_buffer

append-cancel : (xs : List Event) {ys zs : List Event} → xs ++ ys ≡ xs ++ zs → ys ≡ zs
append-cancel [] e = e
append-cancel (x ∷ xs) e = append-cancel xs (rest e)
  where
    rest : {l m : List Event} → x ∷ l ≡ x ∷ m → l ≡ m
    rest e = cc

Tells-IsTold :
    (hist : List Action) (us : List Subscriber)
    → Tells (Came hist) (log new_store hist) us
    → All (IsTold hist) us
unfolding Came
Tells-IsTold hist [] h = tt
Tells-IsTold hist (u ∷ us) (t, h) =
    let (earlier, later, c, b) = t.came in
    (
      record {
        earlier = earlier;
        later = later;
        came = c;
        told = append-cancel (log new_store earlier) (
            ap (λ l. l ++ (u.taken ++ u.buffer)) (sym b)
            ∙ sym t.all
            ∙ ap (log new_store) c
            ∙ log-append new_store earlier (subscribes u.key ∷ later));
        few = t.few;
      },
      Tells-IsTold hist us h,
    )

-- After any history of a new store, what a subscriber that is still connected took and has waiting is, in order and
-- without a gap, all that was announced since it subscribed; at most 256 events wait. A change of the store and what it
-- publishes are one step.
pub subscribers_miss_nothing : (as' : List Action) → All (IsTold as') (run new_store as').subs
unfolding new_store run log
subscribers_miss_nothing as' = Tells-IsTold as' (run new_store as').subs (run-Tells [] as' tt)
