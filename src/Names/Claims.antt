-- ===== src/Names/Claims.antt =====
-- What a `Resolver` reserves.
use tuzy.Shared.{
  same_bytes→≡, same_bytes, ℕ, zero, suc, ◌≡◌, refl, sym, subst, ◌∙◌, ◌⊎◌, inl, inr, Bool, true,
  false, ◌||◌, Bool-cases, Option, none, some, List, [], ◌∷◌, ◌==◌, if◌then◌else◌, if_both,
}
use text.Mathlib.Text.{◌==◌ as same_text}
use tuzy.Protocol.{Bytes}
use tuzy.Names.Resolver.{
  ApiError, refused, failed, Owned, OnHold, NameList, Service, ResolveError, by_api, no_scope,
  was_renamed, on_hold, none_chosen, Answer, is_empty, scope_hint, is_taken, claimed, default_of,
  first_of, is_owned, find_held, held_error, auto_name, claim_free, explicit, try_claim, try_answer,
  try_suggestion, or_again, attempts, first_name, or_first, or_default, resolve_listed, resolve,
}

abbrev pub Has : Bytes → List Bytes → Type 0
Has n [] = ⊥
Has n (m ∷ ms) = (m ≡ n) ⊎ Has n ms

abbrev pub names_of : List Owned → List Bytes
names_of [] = []
names_of (n ∷ ns) = n.name ∷ names_of ns

is_owned-Has : (name : Bytes) (ns : List Owned) → is_owned name ns ≡ true → Has name (names_of ns)
unfolding is_owned
is_owned-Has name [] q = absurd (cc)
is_owned-Has name (n ∷ ns) q = elim (Bool-cases (same_bytes n.name name)) [
  | inl same ↦ inl (same_bytes→≡ n.name name same)
  | inr other ↦ inr (is_owned-Has name ns (rw other at q))
]

-- A name that is found is one of the account.
IsFound : List Owned → Option Bytes → Type 0
IsFound ns none = Unit {0}
IsFound ns (some n) = Has n (names_of ns)

later-IsFound : (n : Owned) (ns : List Owned) (o : Option Bytes) → IsFound ns o → IsFound (n ∷ ns) o
unfolding IsFound
later-IsFound n ns none h = tt
later-IsFound n ns (some m) h = inr h

default_of-IsFound : (ns : List Owned) → IsFound ns (default_of ns)
unfolding IsFound default_of
default_of-IsFound [] = tt
default_of-IsFound (n ∷ ns) =
    if_both (IsFound (n ∷ ns)) n.default (some n.name) (default_of ns) (inl refl)
      (later-IsFound n ns (default_of ns) (default_of-IsFound ns))

first_of-IsFound : (ns : List Owned) → IsFound ns (first_of ns)
unfolding IsFound first_of
first_of-IsFound [] = tt
first_of-IsFound (n ∷ ns) = inl refl

module _ {ℓ} {W : Type ℓ} (names : W → List Bytes) where
  -- What the service promises of a call that adds a name. Of a call that failed on the way nothing is known.
  abbrev pub Added : List Bytes → W × (ApiError ⊎ Bytes) → Type 0
  Added ns (w', inl (refused status code)) = names w' ≡ ns
  Added ns (w', inl (failed t)) = Unit {0}
  Added ns (w', inr n) = names w' ≡ n ∷ ns

  abbrev pub Listed : List Bytes → W × (ApiError ⊎ NameList) → Type 0
  Listed ns (w', inl e) = names w' ≡ ns
  Listed ns (w', inr list) = (names w' ≡ ns) × (names_of list.names ≡ ns)

  -- The service: a list is that of the account's names, only `AddName` changes them.
  pub record IsService (api : Service W) : Type ℓ where
    pub lists : (w : W) → Listed (names w) (api.list_names w)
    pub suggests : (w : W) → names (api.suggest_name w).0 ≡ names w
    pub asks : (n : Bytes) (w : W) → names (api.ask n w).0 ≡ names w
    pub adds : (n : Bytes) (w : W) → Added (names w) (api.add_name n w)

  -- An answer: the name is one of the account, which has at most this one in addition; after an error it
  -- has none, unless the call failed on the way.
  abbrev pub Resolved : List Bytes → W × Answer → Type 0
  Resolved ns (w', inr n) = Has n (names w') × ((names w' ≡ ns) ⊎ (names w' ≡ n ∷ ns))
  Resolved ns (w', inl (by_api (failed t))) = Unit {0}
  Resolved ns (w', inl (by_api (refused status code))) = names w' ≡ ns
  Resolved ns (w', inl (no_scope e)) = names w' ≡ ns
  Resolved ns (w', inl (was_renamed n)) = names w' ≡ ns
  Resolved ns (w', inl on_hold) = names w' ≡ ns
  Resolved ns (w', inl none_chosen) = names w' ≡ ns

  same-Resolved :
      (ns : List Bytes) (w : W) (e : ResolveError) → names w ≡ ns → Resolved ns (w, inl e)
  same-Resolved ns w (by_api (failed t)) q = tt
  same-Resolved ns w (by_api (refused status code)) q = q
  same-Resolved ns w (no_scope e) q = q
  same-Resolved ns w (was_renamed n) q = q
  same-Resolved ns w on_hold q = q
  same-Resolved ns w none_chosen q = q

  new-Resolved : (ns : List Bytes) (w : W) (n : Bytes) → names w ≡ n ∷ ns → Resolved ns (w, inr n)
  new-Resolved ns w n q = (subst (Has n) (sym q) (inl refl), inr q)

  failed-Resolved :
      (ns : List Bytes) (w : W) (e : ApiError)
      → Added ns (w, inl e)
      → Resolved ns (w, inl (scope_hint e))
  unfolding scope_hint
  failed-Resolved ns w (failed t) h = tt
  failed-Resolved ns w (refused status code) h =
      if_both (λ e. Resolved ns (w, inl e)) (same_text code "insufficient_scope")
        (no_scope (refused status code)) (by_api (refused status code)) h h

  claimed-Resolved :
      (ns : List Bytes) (r : W × (ApiError ⊎ Bytes)) → Added ns r → Resolved ns (r.0, claimed r.1)
  unfolding claimed
  claimed-Resolved ns (w, inl e) h = failed-Resolved ns w e h
  claimed-Resolved ns (w, inr n) h = new-Resolved ns w n h

  -- An attempt that ends has an answer, and one that does not end changes nothing.
  Tried : List Bytes → W × Option Answer → Type 0
  Tried ns (w, none) = names w ≡ ns
  Tried ns (w, some a) = Resolved ns (w, a)

  try_claim-Tried :
      (api : Service W) (ns : List Bytes) (r : W × (ApiError ⊎ Bytes))
      → Added ns r
      → Tried ns (try_claim api r)
  unfolding Tried try_claim is_taken scope_hint
  try_claim-Tried api ns (w, inr n) h = new-Resolved ns w n h
  try_claim-Tried api ns (w, inl (failed t)) h = tt
  try_claim-Tried api ns (w, inl (refused status code)) h =
      if_both (λ o. Tried ns (w, o)) ((status == 400) || (status == 409)) none
        (some (inl (scope_hint (refused status code)))) h
        (failed-Resolved ns w (refused status code) h)

  module _ (api : Service W) (law : IsService api) where
    auto_name-Resolved : (ns : List Bytes) (w : W) → names w ≡ ns → Resolved ns (auto_name api w)
    unfolding auto_name
    auto_name-Resolved ns w q =
        claimed-Resolved ns (api.add_name [] w)
          (subst (λ l. Added l (api.add_name [] w)) q (law.adds [] w))

    try_answer-Tried :
        (ns : List Bytes) (suggestion : Bytes) (r : W × Option Bytes)
        → names r.0 ≡ ns
        → Tried ns (try_answer api suggestion r)
    unfolding try_answer Tried
    try_answer-Tried ns suggestion (w, none) q = auto_name-Resolved ns w q
    try_answer-Tried ns suggestion (w, some answer) q =
        let n : Bytes = if is_empty answer then suggestion else answer in
        try_claim-Tried api ns (api.add_name n w)
          (subst (λ l. Added l (api.add_name n w)) q (law.adds n w))

    try_suggestion-Tried :
        (ns : List Bytes) (r : W × (ApiError ⊎ Bytes))
        → names r.0 ≡ ns
        → Tried ns (try_suggestion api r)
    unfolding try_suggestion Tried
    try_suggestion-Tried ns (w, inl e) q = same-Resolved ns w (by_api e) q
    try_suggestion-Tried ns (w, inr s) q = try_answer-Tried ns s (api.ask s w) (law.asks s w ∙ q)

    or_again-Resolved :
        (ns : List Bytes) (again : W → W × Answer) (r : W × Option Answer)
        → ((w : W) → names w ≡ ns → Resolved ns (again w))
        → Tried ns r
        → Resolved ns (or_again api again r)
    unfolding or_again Tried
    or_again-Resolved ns again (w, some a) f h = h
    or_again-Resolved ns again (w, none) f h = f w h

    attempts-Resolved :
        (ns : List Bytes) (k : ℕ) (w : W) → names w ≡ ns → Resolved ns (attempts api k w)
    unfolding attempts
    attempts-Resolved ns zero w q = q
    attempts-Resolved ns (suc k) w q =
        or_again-Resolved ns (attempts api k) (try_suggestion api (api.suggest_name w))
          (attempts-Resolved ns k)
          (try_suggestion-Tried ns (api.suggest_name w) (law.suggests w ∙ q))

    first_name-Resolved :
        (ns : List Bytes) (i : Bool) (w : W) → names w ≡ ns → Resolved ns (first_name api i w)
    unfolding first_name
    first_name-Resolved ns false w q = auto_name-Resolved ns w q
    first_name-Resolved ns true w q = attempts-Resolved ns 5 w q

    owned-Resolved :
        (ns : List Bytes) (list : List Owned) (n : Bytes) (w : W)
        → (names w ≡ ns) × (names_of list ≡ ns)
        → Has n (names_of list)
        → Resolved ns (w, inr n)
    owned-Resolved ns list n w (q, l) h = (subst (Has n) (l ∙ sym q) h, inl q)

    or_first-Resolved :
        (ns : List Bytes) (i : Bool) (list : List Owned) (o : Option Bytes) (w : W)
        → (names w ≡ ns) × (names_of list ≡ ns)
        → IsFound list o
        → Resolved ns (or_first api i o w)
    unfolding or_first IsFound
    or_first-Resolved ns i list none w h f = first_name-Resolved ns i w h.0
    or_first-Resolved ns i list (some n) w h f = owned-Resolved ns list n w h f

    or_default-Resolved :
        (ns : List Bytes) (i : Bool) (list : NameList) (o : Option Bytes) (w : W)
        → (names w ≡ ns) × (names_of list.names ≡ ns)
        → IsFound list.names o
        → Resolved ns (or_default api i list o w)
    unfolding or_default IsFound
    or_default-Resolved ns i list none w h f =
        or_first-Resolved ns i list.names (first_of list.names) w h (first_of-IsFound list.names)
    or_default-Resolved ns i list (some n) w h f = owned-Resolved ns list.names n w h f

    claim_free-Resolved :
        (ns : List Bytes) (n : Bytes) (o : Option OnHold) (w : W)
        → names w ≡ ns
        → Resolved ns (claim_free api n o w)
    unfolding claim_free
    claim_free-Resolved ns n (some h) w q = same-Resolved ns w (held_error h) q
    claim_free-Resolved ns n none w q =
        claimed-Resolved ns (api.add_name n w)
          (subst (λ l. Added l (api.add_name n w)) q (law.adds n w))

    explicit-Resolved :
        (ns : List Bytes) (list : NameList) (n : Bytes) (w : W)
        → (names w ≡ ns) × (names_of list.names ≡ ns)
        → Resolved ns (explicit api list n w)
    unfolding explicit
    explicit-Resolved ns list n w h = elim (Bool-cases (is_owned n list.names)) [
      | inl mine ↦ rw mine (owned-Resolved ns list.names n w h (is_owned-Has n list.names mine))
      | inr other ↦ rw other (claim_free-Resolved ns n (find_held n list.held) w h.0)
    ]

    resolve_listed-Resolved :
        (ns : List Bytes) (i : Bool) (name : Bytes) (r : W × (ApiError ⊎ NameList))
        → Listed ns r
        → Resolved ns (resolve_listed api i name r)
    unfolding resolve_listed
    resolve_listed-Resolved ns i name (w, inl e) q = same-Resolved ns w (by_api e) q
    resolve_listed-Resolved ns i name (w, inr list) h =
        if_both (Resolved ns) (is_empty name) (or_default api i list (default_of list.names) w)
          (explicit api list name w)
          (or_default-Resolved ns i list (default_of list.names) w h
            (default_of-IsFound list.names))
          (explicit-Resolved ns list name w h)

    -- If the service keeps its promises, `Resolve` gives a name of the account, and it reserves that name
    -- or none; after an error it has reserved none, unless a call failed on the way.
    pub resolve-Resolved :
        (interactive : Bool) (name : Bytes) (w : W)
        → Resolved (names w) (resolve api interactive name w)
    unfolding resolve
    resolve-Resolved i name w =
        resolve_listed-Resolved (names w) i name (api.list_names w) (law.lists w)
