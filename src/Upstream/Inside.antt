-- ===== src/Upstream/Inside.antt =====
-- `ResolveProjectDir`: the directory of a project file is inside the project.
use tuzy.Shared.{
  ℕ, List, ◌==◌, ==→≡, ◌≢◌, All, ap, not_same→≢, arith, ◌≡◌, refl, sym, subst, ◌∙◌, Bool, true,
  false, ◌&&◌, not, Bool-cases, ◌⊎◌, inl, inr, Option, none, some, [], ◌∷◌, ◌++◌, same_bytes,
  same_bytes→≡, starts_with, if◌then◌else◌,
}
use tuzy.Protocol.{Bytes}
use tuzy.Upstream.{
  Dirs, DirError, not_relative, escapes, up, stays, within_dir, stat_dir, check_dir, and_dir,
  inside_or_escapes, on_joined, on_real, on_base, resolve_project_dir,
}

-- The first segment of a path between separators, and the others.
unfoldable pub segments_of : ℕ → Bytes → Bytes × List Bytes
segments_of sep [] = ([], [])
segments_of sep (b ∷ bs) =
    let (first, others) : Bytes × List Bytes = segments_of sep bs in
    if b == sep then ([], first ∷ others) else (b ∷ first, others)

abbrev pub IsStep : Bytes → Type 0
IsStep seg = seg ≢ up

-- A way that does not climb: no segment is "..".
abbrev pub IsDown : Bytes × List Bytes → Type 0
IsDown (first, others) = All IsStep (first ∷ others)

-- A cleaned way: all of its ".." come first.
abbrev pub IsCleaned : List Bytes → Type 0
IsCleaned [] = Unit {0}
IsCleaned (seg ∷ segs) = ((seg ≡ up) × IsCleaned segs) ⊎ All IsStep (seg ∷ segs)

-- A place is an absolute path that is cleaned: a join with nothing leaves it.
abbrev pub IsPlace : Dirs → Bytes → Type 0
IsPlace os b = (os.is_abs b ≡ true) × (os.join b [] ≡ b)

-- What is relied on of `path/filepath`, on a system that tells upper from lower case: `Abs` gives places and
-- `EvalSymlinks` keeps them, as both clean their result; the way from a place to another that `Rel` gives leads there
-- when it is joined; and that way is cleaned.
pub record IsPaths (os : Dirs) : Type 0 where
  pub abs_place : (d b : Bytes) → os.abs d ≡ some b → IsPlace os b
  pub eval_place : (d b : Bytes) → IsPlace os d → os.eval_symlinks d ≡ some b → IsPlace os b
  pub rel_joins :
      (base target way : Bytes)
      → IsPlace os base
      → IsPlace os target
      → os.rel base target ≡ some way
      → os.join base way ≡ target
  pub rel_cleaned :
      (base target way : Bytes)
      → os.rel base target ≡ some way
      → IsCleaned ((segments_of os.separator way).0 ∷ (segments_of os.separator way).1)

-- The target is the base, or it is the base joined with a way that has no segment "..".
abbrev pub IsInside : Dirs → Bytes → Bytes → Type 0
IsInside os base target =
    (base ≡ target)
    ⊎ ((way : Bytes) × (os.join base way ≡ target) × IsDown (segments_of os.separator way))

-- A way is its first segment, or begins with that and a separator.
first_segment :
    (sep : ℕ) (way : Bytes)
    → (way ≡ (segments_of sep way).0)
      ⊎ (starts_with ((segments_of sep way).0 ++ sep ∷ []) way ≡ true)
unfolding segments_of
first_segment sep [] = inl refl
first_segment sep (b ∷ bs) = elim (Bool-cases (b == sep)) [
  | inl h ↦ rw h (inr (here b (==→≡ b sep h)))
  | inr h ↦ rw h (on (segments_of sep bs).0 (first_segment sep bs))
]
  where
    same : (n : ℕ) → (n == n) ≡ true
    same n = ground arith

    here : (b : ℕ) → b ≡ sep → starts_with (sep ∷ []) (b ∷ bs) ≡ true
    here b e = subst (λ n. starts_with (sep ∷ []) (n ∷ bs) ≡ true) (sym e) (rw (same sep) refl)

    on :
        (first : Bytes)
        → (bs ≡ first) ⊎ (starts_with (first ++ sep ∷ []) bs ≡ true)
        → (b ∷ bs ≡ b ∷ first) ⊎ (starts_with ((b ∷ first) ++ sep ∷ []) (b ∷ bs) ≡ true)
    on first (inl e) = inl (ap (λ l. b ∷ l) e)
    on first (inr e) = inr (rw (same b) e)

-- A cleaned way that neither is ".." nor begins with "../" does not climb.
stays-IsDown :
    (sep : ℕ) (way : Bytes)
    → IsCleaned ((segments_of sep way).0 ∷ (segments_of sep way).1)
    → same_bytes way up ≡ false
    → starts_with (up ++ sep ∷ []) way ≡ false
    → IsDown (segments_of sep way)
stays-IsDown sep way (inr down) a b = down
stays-IsDown sep way (inl (climbs, c)) a b = absurd (by_first (first_segment sep way))
  where
    differ : true ≡ false → ⊥
    differ e = cc

    by_first :
        (way ≡ (segments_of sep way).0)
          ⊎ (starts_with ((segments_of sep way).0 ++ sep ∷ []) way ≡ true)
        → ⊥
    by_first (inl e) = not_same→≢ way up a (e ∙ climbs)
    by_first (inr e) = differ (sym (ap (λ p. starts_with (p ++ sep ∷ []) way) (sym climbs) ∙ e) ∙ b)

both : (a b : Bool) → (not a && not b) ≡ true → (a ≡ false) × (b ≡ false)
both true b e = absurd (cc)
both false true e = absurd (cc)
both false false e = (refl, refl)

stays-Inside :
    (os : Dirs) (base target : Bytes) (o : Option Bytes)
    → IsPaths os
    → IsPlace os base
    → IsPlace os target
    → os.rel base target ≡ o
    → stays os.separator o ≡ true
    → IsInside os base target
unfolding stays
stays-Inside os base target none law p q e s = absurd (cc)
stays-Inside os base target (some way) law p q e s =
    let (a, b) = both (same_bytes way up) (starts_with (up ++ os.separator ∷ []) way) s in
    inr (
      way,
      law.rel_joins base target way p q e,
      stays-IsDown os.separator way (law.rel_cleaned base target way e) a b,
    )

within_dir-IsInside :
    (os : Dirs) (base target : Bytes)
    → IsPaths os
    → IsPlace os base
    → IsPlace os target
    → within_dir os base target ≡ true
    → IsInside os base target
unfolding within_dir
within_dir-IsInside os base target law p q w = elim (Bool-cases (same_bytes base target)) [
  | inl e ↦ inl (same_bytes→≡ base target e)
  | inr e ↦ stays-Inside os base target (os.rel base target) law p q refl (sym (rw e refl) ∙ w)
]

and_dir-gives :
    (o : Option Bytes) (f : Bytes → DirError ⊎ Bytes) (r : Bytes)
    → and_dir o f ≡ inr r
    → (d : Bytes) × (o ≡ some d) × (f d ≡ inr r)
unfolding and_dir
and_dir-gives none f r e = absurd (cc)
and_dir-gives (some d) f r e = (d, refl, e)

inside_or_escapes-gives :
    (os : Dirs) (base target : Bytes) (f : Bytes → DirError ⊎ Bytes) (r : Bytes)
    → inside_or_escapes os base target f ≡ inr r
    → (within_dir os base target ≡ true) × (f target ≡ inr r)
unfolding inside_or_escapes
inside_or_escapes-gives os base target f r e = by_case (within_dir os base target) e
  where
    by_case :
        (b : Bool) → (if b then f target else inl escapes) ≡ inr r → (b ≡ true) × (f target ≡ inr r)
    by_case true e = (refl, e)
    by_case false e = absurd (cc)

stat_dir-gives : (d r : Bytes) (o : Option Bool) → stat_dir d o ≡ inr r → (d ≡ r) × (o ≡ some true)
unfolding stat_dir
stat_dir-gives d r none e = absurd (cc)
stat_dir-gives d r (some false) e = absurd (cc)
stat_dir-gives d r (some true) e = (cc, refl)

relative-gives :
    (b : Bool) (x : DirError ⊎ Bytes) (r : Bytes)
    → (if b then inl not_relative else x) ≡ inr r
    → (b ≡ false) × (x ≡ inr r)
relative-gives true x r e = absurd (cc)
relative-gives false x r e = (refl, e)

-- The directory that a project file is served from: a directory that is there, named by a relative path, and, with all
-- links resolved, the project's own directory or one that a way without ".." leads to from it.
abbrev pub IsOfProject : Dirs → Bytes → Bytes → Bytes → Type 0
IsOfProject os project dir r =
    (os.is_abs dir ≡ false)
    × (os.stat r ≡ some true)
    × (base : Bytes) × (real : Bytes) × (os.abs project ≡ some base)
    × (os.eval_symlinks base ≡ some real)
    × IsInside os real r

-- `ResolveProjectDir` gives only a directory of the project, provided that `path/filepath` keeps what it promises.
pub resolve_project_dir-IsOfProject :
    (os : Dirs) (project dir r : Bytes)
    → IsPaths os
    → resolve_project_dir os project dir ≡ inr r
    → IsOfProject os project dir r
unfolding resolve_project_dir on_base on_real on_joined check_dir
resolve_project_dir-IsOfProject os project dir r law e =
    let (relative, e₁) =
      relative-gives (os.is_abs dir) (and_dir (os.abs project) (on_base os dir)) r e in
    let (base, b, e₂) = and_dir-gives (os.abs project) (on_base os dir) r e₁ in
    let (real, l, e₃) = and_dir-gives (os.eval_symlinks base) (on_real os base dir) r e₂ in
    let (joined, j, e₄) =
      and_dir-gives (os.abs (os.join base dir))
        (λ t. inside_or_escapes os base t (on_joined os real)) r e₃ in
    let (w, e₅) = inside_or_escapes-gives os base joined (on_joined os real) r e₄ in
    let (resolved, k, e₆) =
      and_dir-gives (os.eval_symlinks joined) (λ t. inside_or_escapes os real t (check_dir os)) r
        e₅ in
    let (w', e₇) = inside_or_escapes-gives os real resolved (check_dir os) r e₆ in
    let (same, there) = stat_dir-gives resolved r (os.stat resolved) e₇ in
    (
      relative,
      subst (λ d. os.stat d ≡ some true) same there,
      base,
      real,
      b,
      l,
      subst (IsInside os real) same (
          within_dir-IsInside os real resolved law
            (law.eval_place base real (law.abs_place project base b) l)
            (law.eval_place joined resolved (law.abs_place (os.join base dir) joined j) k) w'),
    )
