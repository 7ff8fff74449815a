-- ===== src/Inspector/Listing.antt =====
-- What `List` and `Get` show.
use tuzy.Shared.{
  ℕ, ◌≡◌, refl, sym, ap, ap₂, subst, ◌∙◌, Bool, some, List, [], ◌∷◌, ◌++◌, append-nil, append_assoc,
  if◌then◌else◌,
}
use mathlib.Core.List.{reverse, reverse-cons}
use tuzy.Inspector.{Entry, Summary, summary}
use tuzy.Inspector.Store.{Store, find, listed, list, shown}
use tuzy.Inspector.Eviction.{ids, Rising, find-append}
use tuzy.Inspector.Accounts.{IsValid}

-- The entries that match, the newest first.
abbrev pub newest_first : (Entry → Bool) → List Entry → List Summary
newest_first match [] = []
newest_first match (e ∷ es) = newest_first match es ++ (if match e then summary e ∷ [] else [])

listed-append :
    (match : Entry → Bool) (xs ys : List ℕ) (s : Store)
    → listed match (xs ++ ys) s ≡ listed match xs s ++ listed match ys s
unfolding listed
listed-append match [] ys s = refl
listed-append match (x ∷ xs) ys s =
    ap (◌++◌ (shown match (find x s.entries))) (listed-append match xs ys s)
    ∙ sym (append_assoc (shown match (find x s.entries)) (listed match xs s) (listed match ys s))

-- The entries that stand before those looked at have other ids.
listed_lem :
    (match : Entry → Bool) (n : ℕ) (pre es : List Entry) (s : Store)
    → s.entries ≡ pre ++ es
    → Rising 0 n (pre ++ es)
    → listed match (reverse (ids es)) s ≡ newest_first match es
unfolding listed shown
listed_lem match n pre [] s q r = refl
listed_lem match n pre (e ∷ es) s q r =
    let f : find e.id s.entries ≡ some e = ap (find e.id) q ∙ find-append 0 n pre e es r in
    ap (λ xs. listed match xs s) (reverse-cons e.id (ids es))
    ∙ listed-append match (reverse (ids es)) (e.id ∷ []) s
    ∙ ap₂ (◌++◌)
        (listed_lem match n (pre ++ e ∷ []) es s (q ∙ sym (append_assoc pre (e ∷ []) es))
          (subst (Rising 0 n) (sym (append_assoc pre (e ∷ []) es)) r))
        (ap (λ o. shown match o ++ []) f ∙ append-nil (shown match (some e)))

-- Of a store that is valid `List` shows the summaries of all entries that match, the newest first.
pub list_shows :
    (match : Entry → Bool) (s : Store) → IsValid s → list match s ≡ newest_first match s.entries
unfolding list
list_shows match s v =
    ap (λ o. listed match (reverse o) s) v.listed
    ∙ listed_lem match s.next_id [] s.entries s refl v.rising
