-- ===== src/Names.antt =====
-- internal/names/names.go: the rule for the names of tunnels, over bytes.
pub mod Rule
pub mod Resolver
pub mod Claims
mod Tests
use tuzy.Shared.{
  ℕ, zero, suc, Bool, true, false, ◌&&◌, ◌||◌, not, List, [], ◌∷◌, leb, ◌==◌, if◌then◌else◌,
}
use tuzy.Protocol.{Bytes}

-- The classes of the regular expression `labelRE`.
unfoldable pub is_alnum : ℕ → Bool
is_alnum b = (leb 97 b && leb b 122) || (leb 48 b && leb b 57)

unfoldable pub is_inner : ℕ → Bool
unfolding is_alnum
is_inner b = is_alnum b || (b == 45)

-- The end of the expression: one of the first class, then the end of the text.
unfoldable pub matches_last : Bytes → Bool
matches_last [] = false
matches_last (b ∷ []) = is_alnum b
matches_last (b ∷ c ∷ bs) = false

-- From `least` to `least + more` of the second class, then the end.
unfoldable pub matches_more : ℕ → Bytes → Bool
unfolding matches_last is_inner
matches_more zero bs = matches_last bs
matches_more (suc more) [] = matches_last []
matches_more (suc more) (b ∷ bs) =
    let rest = matches_more more bs in matches_last (b ∷ bs) || (is_inner b && rest)

-- `labelRE`
unfoldable pub matches_label : Bytes → Bool
unfolding matches_more
matches_label [] = false
matches_label (a ∷ []) = false
matches_label (a ∷ b ∷ bs) = is_alnum a && (is_inner b && matches_more 29 bs)

-- `strings.Contains(name, "--")`
unfoldable pub has_dashes : Bytes → Bool
has_dashes [] = false
has_dashes (a ∷ []) = false
has_dashes (a ∷ b ∷ bs) = let rest = has_dashes (b ∷ bs) in ((a == 45) && (b == 45)) || rest

-- `Valid`
unfoldable pub valid : Bytes → Bool
unfolding matches_label has_dashes
valid name = matches_label name && not (has_dashes name)
