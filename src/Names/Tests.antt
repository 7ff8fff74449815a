-- ===== src/Names/Tests.antt =====
-- Runs of the rule for names and of the resolver.
use tuzy.Shared.{same_bytes, ap, ◌≡◌, refl, ◌⊎◌, inl, inr, Bool, true, false, some, List, [], ◌∷◌}
use tuzy.Protocol.{Bytes}
use tuzy.Names.{valid}
use tuzy.Names.Rule.{name_rule, valid_lem}
use tuzy.Names.Resolver.{
  ApiError, none_chosen, default_of, first_of, refused, Owned, Service, resolve, none_chosen,
  default_of, first_of,
}
use tuzy.Names.Claims.{IsService, Added, Resolved, names_of, resolve-Resolved}

abbrev web : Bytes
web = 119 ∷ 101 ∷ 98 ∷ []

valid_lem_example : valid web ≡ name_rule web
valid_lem_example = valid_lem web

-- An account whose world is the list of its names. The name `web` is taken by another.
abbrev owned : Bytes → Owned
owned n = record { name = n; default = false }

abbrev all_owned : List Bytes → List Owned
all_owned [] = []
all_owned (n ∷ ns) = owned n ∷ all_owned ns

abbrev reserve : Bool → Bytes → List Bytes → List Bytes × (ApiError ⊎ Bytes)
reserve true n ns = (ns, inl (refused 409 "taken"))
reserve false n ns = (n ∷ ns, inr n)

abbrev account : Service (List Bytes)
account = record {
  list_names = λ ns. (ns, inr (record { names = all_owned ns; held = [] }));
  suggest_name = λ ns. (ns, inr web);
  add_name = λ n ns. reserve (same_bytes n web) n ns;
  ask = λ n ns. (ns, some []);
}

all_owned-names : (ns : List Bytes) → names_of (all_owned ns) ≡ ns
all_owned-names [] = refl
all_owned-names (n ∷ ns) = ap (◌∷◌ n) (all_owned-names ns)

reserve-Added :
    (b : Bool) (n : Bytes) (ns : List Bytes) → Added (λ (l : List Bytes). l) ns (reserve b n ns)
reserve-Added true n ns = refl
reserve-Added false n ns = refl

account-IsService : IsService (λ (l : List Bytes). l) account
account-IsService = record {
  lists = λ ns. (refl, all_owned-names ns);
  suggests = λ ns. refl;
  asks = λ n ns. refl;
  adds = λ n ns. reserve-Added (same_bytes n web) n ns;
}

resolve-Resolved_example :
    Resolved (λ (l : List Bytes). l) [] (resolve account true (104 ∷ 105 ∷ 33 ∷ []) [])
resolve-Resolved_example =
    resolve-Resolved (λ (l : List Bytes). l) account account-IsService true (104 ∷ 105 ∷ 33 ∷ []) []

-- Whoever accepts the suggestion that is taken is asked five times, and gets no name.
asked_in_vain : resolve account true [] [] ≡ ([], inl none_chosen)
unfolding resolve default_of first_of
asked_in_vain = refl
