-- ===== src/FileServer/Resolve.antt =====
-- Where a name leads to, with the target of each link taken by its text, against what the walk says of it.
use tuzy.Shared.{
  ℕ, zero, suc, ◌≡◌, refl, sym, ap, subst, ◌∙◌, inl, inr, true, false, Bool-cases, some, List, [],
  ◌∷◌, ◌++◌, same_bytes, ◌⊎◌, All, All-append,
}
use tuzy.Protocol.{Bytes}
use tuzy.FileServer.{
  split, Os, dot, dot_dot, join, clean, escapes, blocked, hidden_segment, below, joined_onto, plain,
  link, Root, segments, leads, target_of, max_symlink_hops, Follow, walk_on, follow_link, go_to,
  walk, hidden_via_symlink,
}

abbrev pub joined : List Bytes → Bytes
joined segs = joined_onto [] segs

joined_onto-snoc :
    (path : Bytes) (segs : List Bytes) (seg : Bytes)
    → joined_onto path (segs ++ seg ∷ []) ≡ below (joined_onto path segs) seg
joined_onto-snoc path [] seg = refl
joined_onto-snoc path (x ∷ segs) seg = joined_onto-snoc (below path x) segs seg

module _ (os : Os) (root : Root) where
  -- From `cur`, over the segments that are left, to the segments of the path where the name ends.
  pub data Resolves : List Bytes → List Bytes → List Bytes → Type 0 where
    ends : (cur : List Bytes) → Resolves cur [] cur
    enters :
        (cur : List Bytes) (seg : Bytes) (rest out : List Bytes)
        → root.lstat (joined (cur ++ seg ∷ [])) ≡ some plain
        → Resolves (cur ++ seg ∷ []) rest out
        → Resolves cur (seg ∷ rest) out
    follows :
        (cur : List Bytes) (seg : Bytes) (rest out : List Bytes) (next : Bytes)
        → root.lstat (joined (cur ++ seg ∷ [])) ≡ some link
        → target_of os (joined cur) (root.readlink (joined (cur ++ seg ∷ []))) ≡ leads next
        → Resolves [] (segments next ++ rest) out
        → Resolves cur (seg ∷ rest) out

  -- The target of a link below `cur` is absolute, or cleaned by its text it is above the root.
  abbrev pub IsOutside : List Bytes → Bytes → Type 0
  IsOutside cur target =
      let next : Bytes = clean (join (joined cur) (os.to_slash target)) in
      (os.is_abs target ≡ true)
      ⊎ ((next ≡ dot_dot) ⊎ ((tail : Bytes) × (next ≡ 46 ∷ 46 ∷ 47 ∷ tail)))

  -- From `cur`, over the segments that are left, there is a link that leads outside.
  pub data Leaves : List Bytes → List Bytes → Type 0 where
    leaves :
        (cur : List Bytes) (seg : Bytes) (rest : List Bytes) (target : Bytes)
        → root.lstat (joined (cur ++ seg ∷ [])) ≡ some link
        → root.readlink (joined (cur ++ seg ∷ [])) ≡ some target
        → IsOutside cur target
        → Leaves cur (seg ∷ rest)
    enters_on :
        (cur : List Bytes) (seg : Bytes) (rest : List Bytes)
        → root.lstat (joined (cur ++ seg ∷ [])) ≡ some plain
        → Leaves (cur ++ seg ∷ []) rest
        → Leaves cur (seg ∷ rest)
    follows_on :
        (cur : List Bytes) (seg : Bytes) (rest : List Bytes) (next : Bytes)
        → root.lstat (joined (cur ++ seg ∷ [])) ≡ some link
        → target_of os (joined cur) (root.readlink (joined (cur ++ seg ∷ []))) ≡ leads next
        → Leaves [] (segments next ++ rest)
        → Leaves cur (seg ∷ rest)

  abbrev pub Visible : Bytes → Type 0
  Visible seg = hidden_segment os seg ≡ false

  -- What the walk does at a link, if it may follow so many.
  follow_of : ℕ → Follow
  follow_of zero resolved path rest = true
  follow_of (suc hops) resolved path rest =
      follow_link os root (walk os root hops) resolved path rest

  walk-follow_of :
      (hops : ℕ) (segs : List Bytes)
      → walk os root hops segs ≡ walk_on os root (follow_of hops) [] segs
  unfolding walk follow_of
  walk-follow_of zero segs = refl
  walk-follow_of (suc hops) segs = refl

  step-Visible :
      (follow : Follow) (resolved seg : Bytes) (rest : List Bytes)
      → walk_on os root follow resolved (seg ∷ rest) ≡ false
      → Visible seg
  unfolding walk_on
  step-Visible follow resolved seg rest q = elim (Bool-cases (hidden_segment os seg)) [
    | inl h ↦ absurd (differ (rw h at q))
    | inr v ↦ v
  ]
    where
      differ : true ≡ false → ⊥
      differ e = cc

  step_enters :
      (follow : Follow) (resolved seg : Bytes) (rest : List Bytes)
      → root.lstat (below resolved seg) ≡ some plain
      → walk_on os root follow resolved (seg ∷ rest) ≡ false
      → walk_on os root follow (below resolved seg) rest ≡ false
  unfolding walk_on
  step_enters follow resolved seg rest e q =
      let v = step-Visible follow resolved seg rest q in rw (v, e) at q

  step_follows :
      (follow : Follow) (resolved seg : Bytes) (rest : List Bytes)
      → root.lstat (below resolved seg) ≡ some link
      → walk_on os root follow resolved (seg ∷ rest) ≡ false
      → follow resolved (below resolved seg) rest ≡ false
  unfolding walk_on
  step_follows follow resolved seg rest e q =
      let v = step-Visible follow resolved seg rest q in rw (v, e) at q

  followed :
      (hops : ℕ) (resolved path next : Bytes) (rest : List Bytes)
      → target_of os resolved (root.readlink path) ≡ leads next
      → follow_of (suc hops) resolved path rest ≡ false
      → walk_on os root (follow_of hops) [] (segments next ++ rest) ≡ false
  unfolding follow_of follow_link go_to
  followed hops resolved path next rest t q =
      sym (walk-follow_of hops (segments next ++ rest))
      ∙ ap (go_to (walk os root hops) rest) (sym t)
      ∙ q

  never_followed :
      (resolved path : Bytes) (rest : List Bytes) → follow_of zero resolved path rest ≡ false → ⊥
  unfolding follow_of
  never_followed resolved path rest q = cc

  resolves-Visible :
      (hops : ℕ) {cur rest out : List Bytes}
      → Resolves cur rest out
      → walk_on os root (follow_of hops) (joined cur) rest ≡ false
      → All Visible cur
      → All Visible out
  resolves-Visible hops (ends cur) q h = h
  resolves-Visible hops (enters cur seg rest out e r) q h =
      let snoc = joined_onto-snoc [] cur seg in
      resolves-Visible hops r
        (subst (λ path. walk_on os root (follow_of hops) path rest ≡ false) (sym snoc)
          (step_enters (follow_of hops) (joined cur) seg rest (ap root.lstat (sym snoc) ∙ e) q))
        (All-append Visible cur (seg ∷ []) h
          (step-Visible (follow_of hops) (joined cur) seg rest q, tt))
  resolves-Visible zero (follows cur seg rest out next e t r) q h =
      let snoc = joined_onto-snoc [] cur seg in
      absurd (
        never_followed (joined cur) (below (joined cur) seg) rest
          (step_follows (follow_of zero) (joined cur) seg rest (ap root.lstat (sym snoc) ∙ e) q))
  resolves-Visible (suc hops) (follows cur seg rest out next e t r) q h =
      let snoc = joined_onto-snoc [] cur seg in
      resolves-Visible hops r
        (followed hops (joined cur) (below (joined cur) seg) next rest
          (ap (λ path. target_of os (joined cur) (root.readlink path)) (sym snoc) ∙ t)
          (step_follows (follow_of (suc hops)) (joined cur) seg rest (ap root.lstat (sym snoc) ∙ e)
            q))
        tt

  outside-escapes :
      (next : Bytes)
      → (next ≡ dot_dot) ⊎ ((tail : Bytes) × (next ≡ 46 ∷ 46 ∷ 47 ∷ tail))
      → escapes next ≡ true
  unfolding escapes
  outside-escapes next (inl e) = rw e refl
  outside-escapes next (inr (tail, e)) = rw e refl

  outside_blocked :
      (cur : List Bytes) (target : Bytes)
      → IsOutside cur target
      → target_of os (joined cur) (some target) ≡ blocked
  unfolding target_of
  outside_blocked cur target (inl a) = rw a refl
  outside_blocked cur target (inr o) =
      let e = outside-escapes (clean (join (joined cur) (os.to_slash target))) o in
      elim (Bool-cases (os.is_abs target)) [ inl a ↦ rw a refl | inr r ↦ rw (r, e) refl ]

  never_blocked :
      (hops : ℕ) (resolved path : Bytes) (rest : List Bytes)
      → target_of os resolved (root.readlink path) ≡ blocked
      → follow_of hops resolved path rest ≡ false
      → ⊥
  unfolding follow_of follow_link go_to
  never_blocked zero resolved path rest t q = cc
  never_blocked (suc hops) resolved path rest t q = differ (rw t at q)
    where
      differ : true ≡ false → ⊥
      differ e = cc

  never_Leaves :
      (hops : ℕ) {cur rest : List Bytes}
      → Leaves cur rest
      → walk_on os root (follow_of hops) (joined cur) rest ≡ false
      → ⊥
  never_Leaves hops (leaves cur seg rest target e t o) q =
      let snoc = joined_onto-snoc [] cur seg in
      never_blocked hops (joined cur) (below (joined cur) seg) rest
        (ap (target_of os (joined cur)) (ap root.readlink (sym snoc) ∙ t)
          ∙ outside_blocked cur target o)
        (step_follows (follow_of hops) (joined cur) seg rest (ap root.lstat (sym snoc) ∙ e) q)
  never_Leaves hops (enters_on cur seg rest e r) q =
      let snoc = joined_onto-snoc [] cur seg in
      never_Leaves hops r (
        subst (λ path. walk_on os root (follow_of hops) path rest ≡ false) (sym snoc)
          (step_enters (follow_of hops) (joined cur) seg rest (ap root.lstat (sym snoc) ∙ e) q))
  never_Leaves zero (follows_on cur seg rest next e t r) q =
      let snoc = joined_onto-snoc [] cur seg in
      never_followed (joined cur) (below (joined cur) seg) rest
        (step_follows (follow_of zero) (joined cur) seg rest (ap root.lstat (sym snoc) ∙ e) q)
  never_Leaves (suc hops) (follows_on cur seg rest next e t r) q =
      let snoc = joined_onto-snoc [] cur seg in
      never_Leaves hops r (
        followed hops (joined cur) (below (joined cur) seg) next rest
          (ap (λ path. target_of os (joined cur) (root.readlink path)) (sym snoc) ∙ t)
          (step_follows (follow_of (suc hops)) (joined cur) seg rest (ap root.lstat (sym snoc) ∙ e)
            q))

  -- A name that the walk lets pass leads by no link outside.
  pub passes-never_Leaves :
      (name : Bytes) → hidden_via_symlink os root name ≡ false → Leaves [] (segments name) → ⊥
  unfolding hidden_via_symlink
  passes-never_Leaves name q r = elim (Bool-cases (same_bytes name dot)) [
    | inl top ↦ at_top (rw top at r)
    | inr other ↦
        never_Leaves max_symlink_hops (rw other at r)
          (sym (walk-follow_of max_symlink_hops (split name)) ∙ (rw other at q))
  ]
    where
      at_top : Leaves [] [] → ⊥
      at_top = elim [ ]

  -- A name that the walk lets pass leads to no hidden segment.
  pub passes-Visible :
      (name : Bytes) (out : List Bytes)
      → hidden_via_symlink os root name ≡ false
      → Resolves [] (segments name) out
      → All Visible out
  unfolding hidden_via_symlink
  passes-Visible name out q r = elim (Bool-cases (same_bytes name dot)) [
    | inl top ↦ at_top out (rw top at r)
    | inr other ↦
        resolves-Visible max_symlink_hops (rw other at r)
          (sym (walk-follow_of max_symlink_hops (split name)) ∙ (rw other at q)) tt
  ]
    where
      at_top : (out : List Bytes) → Resolves [] [] out → All Visible out
      at_top out (ends _) = tt
