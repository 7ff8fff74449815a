-- ===== src/Names/Rule.antt =====
-- The rule for names, against its description.
use tuzy.Shared.{
  ℕ, zero, suc, ◌≡◌, refl, sym, ap, ◌∙◌, Bool, true, false, ◌&&◌, ◌||◌, not, [], ◌∷◌, leb, ◌==◌,
  length, arith,
}
use tuzy.Protocol.{Bytes}
use tuzy.Names.{is_alnum, is_inner, matches_last, matches_more, matches_label, has_dashes, valid}

-- A text of letters, digits and dashes, with no dash at either end or beside another.
abbrev pub ends_well : Bytes → Bool
ends_well [] = false
ends_well (b ∷ []) = is_alnum b
ends_well (b ∷ c ∷ bs) = is_inner b && ends_well (c ∷ bs)

abbrev pub starts_well : Bytes → Bool
starts_well [] = false
starts_well (b ∷ bs) = is_alnum b

-- 3 to 32 letters, digits and dashes, a letter or a digit at both ends, and no two dashes side by side.
abbrev pub name_rule : Bytes → Bool
name_rule name =
    (leb 3 (length name) && leb (length name) 32)
    && ((starts_well name && ends_well name) && not (has_dashes name))

or_and : (x y : Bool) → (x || (y && false)) ≡ x
or_and true y = refl
or_and false true = refl
or_and false false = refl

and_swap : (x y z : Bool) → (x && (y && z)) ≡ (y && (x && z))
and_swap true true z = refl
and_swap true false z = refl
and_swap false true z = refl
and_swap false false z = refl

leb-suc : (m n : ℕ) → leb m n ≡ leb (suc m) (suc n)
leb-suc m n = ground arith

more_than : (n : ℕ) → leb (suc (suc n)) 1 ≡ false
more_than n = ground arith

one_fits : (n : ℕ) → leb 1 (suc n) ≡ true
one_fits n = ground arith

matches_more_lem :
    (more : ℕ) (bs : Bytes) → matches_more more bs ≡ (leb (length bs) (suc more) && ends_well bs)
unfolding matches_more matches_last
matches_more_lem zero [] = refl
matches_more_lem zero (b ∷ []) = refl
matches_more_lem zero (b ∷ c ∷ bs) = rw (more_than (length bs)) refl
matches_more_lem (suc more) [] = ground arith
matches_more_lem (suc more) (b ∷ []) =
    ap (λ z. is_alnum b || (is_inner b && z)) (matches_more_lem more [] ∙ no_end more)
    ∙ or_and (is_alnum b) (is_inner b)
    ∙ ap (λ z. z && is_alnum b) (sym (one_fits (suc more)))
  where
    no_end : (k : ℕ) → (leb 0 (suc k) && false) ≡ false
    no_end k = ground arith
matches_more_lem (suc more) (b ∷ c ∷ bs) =
    ap (λ z. is_inner b && z) (matches_more_lem more (c ∷ bs))
    ∙ and_swap (is_inner b) (leb (suc (length bs)) (suc more)) (ends_well (c ∷ bs))
    ∙ ap (λ z. z && (is_inner b && ends_well (c ∷ bs))) (leb-suc (suc (length bs)) (suc more))

and_false : (x y : Bool) → (x && (y && false)) ≡ false
and_false true true = refl
and_false true false = refl
and_false false y = refl

-- The first is of the second class too.
regroup : (x d y l e : Bool) → (x && (y && (l && e))) ≡ (l && (x && ((x || d) && (y && e))))
regroup true d true l e = refl
regroup true d false true e = refl
regroup true d false false e = refl
regroup false d y true e = refl
regroup false d y false e = refl

long_enough : (n : ℕ) → leb 3 (suc (suc (suc n))) ≡ true
long_enough n = ground arith

fits : (n : ℕ) → leb (suc n) 30 ≡ leb (suc (suc (suc n))) 32
fits n = ground arith

label_rule : Bytes → Bool
label_rule name =
    (leb 3 (length name) && leb (length name) 32) && (starts_well name && ends_well name)

matches_label_lem : (name : Bytes) → matches_label name ≡ label_rule name
unfolding matches_label label_rule is_inner
matches_label_lem [] = refl
matches_label_lem (a ∷ []) = refl
matches_label_lem (a ∷ b ∷ []) =
    ap (λ z. is_alnum a && (is_inner b && z)) (matches_more_lem 29 [])
    ∙ and_false (is_alnum a) (is_inner b)
matches_label_lem (a ∷ b ∷ c ∷ bs) =
    let n : ℕ = length bs in
    let e : Bool = ends_well (c ∷ bs) in
    ap (λ z. is_alnum a && (is_inner b && z)) (matches_more_lem 29 (c ∷ bs))
    ∙ regroup (is_alnum a) (a == 45) (is_inner b) (leb (suc n) 30) e
    ∙ rw (long_enough n, fits n) refl

and_assoc : (x y z : Bool) → ((x && y) && z) ≡ (x && (y && z))
and_assoc true y z = refl
and_assoc false y z = refl

-- `Valid` is the rule for names: 3 to 32 letters, digits and dashes, a letter or a digit at both ends, and
-- no two dashes side by side.
pub valid_lem : (name : Bytes) → valid name ≡ name_rule name
unfolding valid label_rule
valid_lem name =
    ap (λ z. z && not (has_dashes name)) (matches_label_lem name)
    ∙ and_assoc (leb 3 (length name) && leb (length name) 32) (starts_well name && ends_well name)
        (not (has_dashes name))
