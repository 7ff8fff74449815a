-- ===== src/Inspector/Store.antt =====
-- internal/inspector/store.go: `Store` with its entries, its eviction and its subscribers.
-- A map key without an entry in `order` cannot be (Inspector/Accounts); `evictLocked` would fault on it, and
-- here it is passed over.
use tuzy.Shared.{
  ℕ, ◌+◌, ◌-◌, Bool, true, false, Option, none, some, List, [], ◌∷◌, ◌++◌, ltb, leb, ◌==◌,
  if◌then◌else◌, length,
}
use mathlib.Core.List.{reverse}
use tuzy.Inspector.{
  Entry, Summary, summary, fold_live, max_entries, max_total_bytes, captured_body_bytes, body_bytes,
}

-- `Event`
pub data Event : Type 0 where
  created updated : Summary → Event
  cleared : Event

-- A channel that `Subscribe` gave out: its events, and those that its reader took.
pub record Subscriber : Type 0 where
  pub key : ℕ
  pub buffer : List Event
  pub taken : List Event

-- `Store`. The map `entries` is a list in the order of its insertions.
pub record Store : Type 0 where
  pub next_id : ℕ
  pub order : List ℕ
  pub entries : List Entry
  pub total : ℕ
  pub subs : List Subscriber

-- `NewStore`
unfoldable pub new_store : Store
new_store = record { next_id = 0; order = []; entries = []; total = 0; subs = [] }

-- `s.entries[id]`, and its deletion.
unfoldable pub find : ℕ → List Entry → Option Entry
find id [] = none
find id (e ∷ es) = if e.id == id then some e else find id es

unfoldable pub delete : ℕ → List Entry → List Entry
delete id [] = []
delete id (e ∷ es) = if e.id == id then es else e ∷ delete id es

-- An entry is a pointer: a change to it is seen in the map.
unfoldable pub put : Entry → List Entry → List Entry
put e [] = []
put e (x ∷ es) = if x.id == e.id then e ∷ es else x ∷ put e es

-- The channel of a subscriber has room for 256 events.
abbrev pub sub_buffer : ℕ
sub_buffer = 256

-- `publish`: a subscriber that is behind is disconnected.
unfoldable pub offer : Event → List Subscriber → List Subscriber
offer ev [] = []
offer ev (u ∷ us) =
    if ltb (length u.buffer) sub_buffer
    then record u { buffer = u.buffer ++ ev ∷ [] } ∷ offer ev us
    else offer ev us

unfoldable pub publish : Event → Store → Store
unfolding offer
publish ev s = record s { subs = offer ev s.subs }

unfoldable pub forget : ℕ → Option Entry → Store → Store
forget id none s = s
forget id (some e) s = record s { total = s.total - body_bytes e; entries = delete id s.entries }

-- The first loop of `evictLocked`, over the ids of `order`.
unfoldable pub evict_entries : List ℕ → Store → Store
evict_entries [] s = s
evict_entries (id ∷ rest) s =
    if ltb max_entries (length (id ∷ rest))
    then evict_entries rest (forget id (find id s.entries) (record s { order = rest }))
    else s

-- The bodies of an entry are dropped.
unfoldable pub stripped : Entry → Entry
stripped e = record e { req_body = none; res_body = none; evicted = true }

unfoldable pub strip : Option Entry → Store → Store
unfolding stripped
strip none s = s
strip (some e) s =
    if captured_body_bytes e == 0
    then s
    else record s { total = s.total - captured_body_bytes e; entries = put (stripped e) s.entries }

-- The second loop of `evictLocked`.
unfoldable pub evict_bodies : List ℕ → Store → Store
evict_bodies [] s = s
evict_bodies (id ∷ rest) s =
    if leb s.total max_total_bytes then s else evict_bodies rest (strip (find id s.entries) s)

-- `evictLocked`
unfoldable pub evict : Store → Store
evict s = let s' : Store = evict_entries s.order s in evict_bodies s'.order s'

-- `add`: the store after it (no eviction changes what a summary shows), and the id that it assigns. The change
-- under the lock and the `publish` after it are one step.
unfoldable pub add : Entry → Store → Store × ℕ
unfolding publish
add e s =
    let id : ℕ = s.next_id + 1 in
    let e' : Entry = record e { id = id } in
    let s' : Store = evict (record s {
      next_id = id;
      entries = s.entries ++ e' ∷ [];
      order = s.order ++ id ∷ [];
      total = s.total + body_bytes e';
    }) in
    (publish (created (summary e')) s', id)

-- An entry after a change of it, with the id that it has.
unfoldable pub changed : (Entry → Entry) → Entry → Entry
changed fn e = record (fn e) { id = e.id }

-- The change of an entry, the account of its bytes and the eviction.
unfoldable pub revise : (Entry → Entry) → Entry → Store → Store
revise fn e s = evict (record s {
  entries = put (changed fn e) s.entries;
  total = s.total + body_bytes (changed fn e) - body_bytes e;
})

-- `update`
unfoldable pub update_found : (Entry → Entry) → Option Entry → Store → Store
update_found fn none s = s
update_found fn (some e) s =
    let s' : Store = revise fn e s in publish (updated (summary (changed fn e))) s'

unfoldable pub update : ℕ → (Entry → Entry) → Store → Store
update id fn s = update_found fn (find id s.entries) s

-- `mutate`. The Boolean says if the lock was free; without it the change is lost and the result is false.
unfoldable pub mutate_found : (Entry → Entry) → Option Entry → Store → Store
mutate_found fn none s = s
mutate_found fn (some e) s = revise fn e s

unfoldable pub mutate : Bool → ℕ → (Entry → Entry) → Store → Store × Bool
mutate false id fn s = (s, false)
mutate true id fn s = (mutate_found fn (find id s.entries) s, true)

-- `Get`
unfoldable pub get : ℕ → Store → Option Entry
get id s = elim (find id s.entries) [ none ↦ none | some e ↦ some (fold_live e) ]

-- `Clear`
unfoldable pub clear : Store → Store
unfolding publish
clear s = publish cleared (record s { order = []; entries = []; total = 0 })

-- `Subscribe`, with a new key for its channel, and the function that it returns.
unfoldable pub subscribe : ℕ → Store → Store
subscribe key s = record s { subs = record { key = key; buffer = []; taken = [] } ∷ s.subs }

unfoldable pub drop_sub : ℕ → List Subscriber → List Subscriber
drop_sub key [] = []
drop_sub key (u ∷ us) = if u.key == key then us else u ∷ drop_sub key us

unfoldable pub unsubscribe : ℕ → Store → Store
unfolding drop_sub
unsubscribe key s = record s { subs = drop_sub key s.subs }

-- The reader of a channel takes the event that has waited longest.
unfoldable pub received : Subscriber → List Event → Subscriber
received u [] = u
received u (ev ∷ evs) = record u { buffer = evs; taken = u.taken ++ ev ∷ [] }

unfoldable pub receive : ℕ → List Subscriber → List Subscriber
unfolding received
receive key [] = []
receive key (u ∷ us) = if u.key == key then received u u.buffer ∷ us else u ∷ receive key us

-- The entries that `List` looks at, in its order, from the last id of `order` to the first.
unfoldable pub shown : (Entry → Bool) → Option Entry → List Summary
shown match none = []
shown match (some e) = if match e then summary e ∷ [] else []

unfoldable pub listed : (Entry → Bool) → List ℕ → Store → List Summary
listed match [] s = []
listed match (id ∷ ids) s = shown match (find id s.entries) ++ listed match ids s

-- `List`
unfoldable pub list : (Entry → Bool) → Store → List Summary
list match s = listed match (reverse s.order) s
