-- ===== src/Names/Resolver.antt =====
-- internal/names/resolve.go: `Resolver`. What it prints is left out. The service, and the reader of answers,
-- are parameters that act on a world.
use tuzy.Shared.{
  same_bytes, ℕ, zero, suc, ◌⊎◌, inl, inr, Bool, true, false, ◌||◌, Option, none, some, List, [],
  ◌∷◌, ◌==◌, if◌then◌else◌,
}
use Prim.Native.String.{String}
use text.Mathlib.Text.{◌==◌ as same_text}
use tuzy.Protocol.{Bytes}

-- The errors of a call: `api.Error`, and others.
pub data ApiError : Type 0 where
  refused : ℕ → String → ApiError
  failed : String → ApiError

-- A name of the account, and one that is on hold for it.
pub record Owned : Type 0 where
  pub name : Bytes
  pub default : Bool

pub record OnHold : Type 0 where
  pub name : Bytes
  pub renamed_to : Option Bytes

pub record NameList : Type 0 where
  pub names : List Owned
  pub held : List OnHold

-- `API`, and the parameters of a `Resolver`. An answer is none if there is no input.
pub record Service {ℓ} (W : Type ℓ) : Type ℓ where
  pub list_names : W → W × (ApiError ⊎ NameList)
  pub suggest_name : W → W × (ApiError ⊎ Bytes)
  pub add_name : Bytes → W → W × (ApiError ⊎ Bytes)
  pub ask : Bytes → W → W × Option Bytes

-- The errors of `Resolve`.
pub data ResolveError : Type 0 where
  by_api no_scope : ApiError → ResolveError
  was_renamed : Bytes → ResolveError
  on_hold none_chosen : ResolveError

abbrev pub Answer : Type 0
Answer = ResolveError ⊎ Bytes

abbrev pub is_empty : Bytes → Bool
is_empty [] = true
is_empty (b ∷ bs) = false

-- `scopeHint`
unfoldable pub scope_hint : ApiError → ResolveError
scope_hint (failed t) = by_api (failed t)
scope_hint (refused status code) =
    if same_text code "insufficient_scope"
    then no_scope (refused status code)
    else by_api (refused status code)

-- A name that was refused, so that another is asked for.
unfoldable pub is_taken : ApiError → Bool
is_taken (failed t) = false
is_taken (refused status code) = (status == 400) || (status == 409)

unfoldable pub claimed : ApiError ⊎ Bytes → Answer
unfolding scope_hint
claimed (inl e) = inl (scope_hint e)
claimed (inr n) = inr n

-- The default, or the first name.
unfoldable pub default_of : List Owned → Option Bytes
default_of [] = none
default_of (n ∷ ns) = let rest = default_of ns in if n.default then some n.name else rest

unfoldable pub first_of : List Owned → Option Bytes
first_of [] = none
first_of (n ∷ ns) = some n.name

unfoldable pub is_owned : Bytes → List Owned → Bool
is_owned name [] = false
is_owned name (n ∷ ns) = let rest = is_owned name ns in same_bytes n.name name || rest

unfoldable pub find_held : Bytes → List OnHold → Option OnHold
find_held name [] = none
find_held name (h ∷ hs) =
    let rest = find_held name hs in if same_bytes h.name name then some h else rest

unfoldable pub held_error : OnHold → ResolveError
held_error h = elim h.renamed_to [ none ↦ on_hold | some new ↦ was_renamed new ]

module _ {ℓ} {W : Type ℓ} (api : Service W) where
  -- `autoName`
  unfoldable pub auto_name : W → W × Answer
  unfolding claimed
  auto_name w = let (w', a) = api.add_name [] w in (w', claimed a)

  -- `explicit`, once the list is known.
  unfoldable pub claim_free : Bytes → Option OnHold → W → W × Answer
  unfolding claimed held_error
  claim_free name (some h) w = (w, inl (held_error h))
  claim_free name none w = let (w', a) = api.add_name name w in (w', claimed a)

  unfoldable pub explicit : NameList → Bytes → W → W × Answer
  unfolding claim_free
  explicit list name w =
      if is_owned name list.names
      then (w, inr name)
      else claim_free name (find_held name list.held) w

  -- One attempt of `firstName`: the world, and none if there is to be another attempt.
  unfoldable pub try_claim : W × (ApiError ⊎ Bytes) → W × Option Answer
  unfolding is_taken scope_hint
  try_claim (w, inr n) = (w, some (inr n))
  try_claim (w, inl e) = (w, if is_taken e then none else some (inl (scope_hint e)))

  unfoldable pub try_answer : Bytes → W × Option Bytes → W × Option Answer
  unfolding auto_name try_claim
  try_answer suggestion (w, none) = let (w', a) = auto_name w in (w', some a)
  try_answer suggestion (w, some answer) =
      try_claim (api.add_name (if is_empty answer then suggestion else answer) w)

  unfoldable pub try_suggestion : W × (ApiError ⊎ Bytes) → W × Option Answer
  unfolding try_answer
  try_suggestion (w, inl e) = (w, some (inl (by_api e)))
  try_suggestion (w, inr suggestion) = try_answer suggestion (api.ask suggestion w)

  -- The loop of `firstName`, of so many attempts.
  unfoldable pub or_again : (W → W × Answer) → W × Option Answer → W × Answer
  or_again again (w, some a) = (w, a)
  or_again again (w, none) = again w

  unfoldable pub attempts : ℕ → W → W × Answer
  unfolding or_again try_suggestion
  attempts zero w = (w, inl none_chosen)
  attempts (suc n) w = or_again (attempts n) (try_suggestion (api.suggest_name w))

  -- `firstName`; `interactive` says that there is a terminal and a way to ask.
  unfoldable pub first_name : Bool → W → W × Answer
  unfolding auto_name attempts
  first_name false w = auto_name w
  first_name true w = attempts 5 w

  unfoldable pub or_first : Bool → Option Bytes → W → W × Answer
  unfolding first_name
  or_first interactive (some name) w = (w, inr name)
  or_first interactive none w = first_name interactive w

  unfoldable pub or_default : Bool → NameList → Option Bytes → W → W × Answer
  unfolding or_first
  or_default interactive list (some name) w = (w, inr name)
  or_default interactive list none w = or_first interactive (first_of list.names) w

  unfoldable pub resolve_listed : Bool → Bytes → W × (ApiError ⊎ NameList) → W × Answer
  unfolding explicit or_default
  resolve_listed interactive name (w, inl e) = (w, inl (by_api e))
  resolve_listed interactive name (w, inr list) =
      if is_empty name
      then or_default interactive list (default_of list.names) w
      else explicit list name w

  -- `Resolve`
  unfoldable pub resolve : Bool → Bytes → W → W × Answer
  unfolding resolve_listed
  resolve interactive name w = resolve_listed interactive name (api.list_names w)
