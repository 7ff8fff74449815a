-- ===== src/FileServer.antt =====
-- internal/fileserver/fileserver.go: which names are hidden, also through symbolic links. A name is a text
-- in bytes, with "/" between its segments.
pub mod Resolve
pub mod Files
pub mod Open
pub mod Writer
mod Tests
use tuzy.Shared.{
  starts_with, ℕ, zero, suc, ◌+◌, Bool, true, false, ◌&&◌, ◌||◌, Option, none, some, List, [], ◌∷◌,
  ◌++◌, leb, ◌==◌, same_bytes, if◌then◌else◌,
}
use mathlib.Core.List.{reverse}
use tuzy.Protocol.{Bytes}

-- `strings.Split(name, "/")`
abbrev pub onto_first : ℕ → List Bytes → List Bytes
onto_first b [] = (b ∷ []) ∷ []
onto_first b (seg ∷ segs) = (b ∷ seg) ∷ segs

unfoldable pub split : Bytes → List Bytes
split [] = [] ∷ []
split (b ∷ bs) = let segs = split bs in if b == 47 then [] ∷ segs else onto_first b segs

-- What the library says of the system it runs on.
pub record Os : Type 0 where
  pub windows : Bool
  pub is_abs : Bytes → Bool
  pub to_slash : Bytes → Bytes

-- `shortName8dot3`: a tilde with a digit after it.
unfoldable pub has_short_name : Bytes → Bool
has_short_name [] = false
has_short_name (a ∷ []) = false
has_short_name (a ∷ b ∷ bs) =
    let rest = has_short_name (b ∷ bs) in ((a == 126) && (leb 48 b && leb b 57)) || rest

abbrev pub starts_with_dot : Bytes → Bool
starts_with_dot [] = false
starts_with_dot (b ∷ bs) = b == 46

abbrev pub dot : Bytes
dot = 46 ∷ []

abbrev pub dot_dot : Bytes
dot_dot = 46 ∷ 46 ∷ []

-- `hiddenSegment`
unfoldable pub hidden_segment : Os → Bytes → Bool
unfolding has_short_name
hidden_segment os name =
    if same_bytes name [] || same_bytes name dot
    then false
    else starts_with_dot name || (os.windows && has_short_name name)

-- `hidden`
unfoldable pub any_hidden : Os → List Bytes → Bool
any_hidden os [] = false
any_hidden os (seg ∷ segs) = let rest = any_hidden os segs in hidden_segment os seg || rest

unfoldable pub hidden : Os → Bytes → Bool
unfolding any_hidden split
hidden os name = if same_bytes name dot then false else any_hidden os (split name)

-- `path.Clean`: the segments that are kept, the last in front.
unfoldable pub pop : Bool → List Bytes → List Bytes
pop true [] = []
pop false [] = dot_dot ∷ []
pop rooted (seg ∷ kept) = if same_bytes seg dot_dot then dot_dot ∷ seg ∷ kept else kept

unfoldable pub clean_onto : Bool → List Bytes → List Bytes → List Bytes
unfolding pop
clean_onto rooted kept [] = reverse kept
clean_onto rooted kept (seg ∷ segs) =
    clean_onto rooted
      (if same_bytes seg [] || same_bytes seg dot
        then kept
        else if same_bytes seg dot_dot
        then pop rooted kept
        else seg ∷ kept)
      segs

-- A segment below a path.
abbrev pub below : Bytes → Bytes → Bytes
below [] seg = seg
below (b ∷ bs) seg = (b ∷ bs) ++ 47 ∷ seg

abbrev pub joined_onto : Bytes → List Bytes → Bytes
joined_onto path [] = path
joined_onto path (seg ∷ segs) = joined_onto (below path seg) segs

abbrev pub or_dot : Bytes → Bytes
or_dot [] = dot
or_dot (b ∷ bs) = b ∷ bs

abbrev pub is_rooted : Bytes → Bool
is_rooted [] = false
is_rooted (b ∷ bs) = b == 47

unfoldable pub clean : Bytes → Bytes
unfolding clean_onto split
clean path =
    let kept : Bytes = joined_onto [] (clean_onto (is_rooted path) [] (split path)) in
    if is_rooted path then 47 ∷ kept else or_dot kept

-- `path.Join` of two elements, where an empty one is left out.
unfoldable pub join : Bytes → Bytes → Bytes
unfolding clean
join [] [] = []
join [] (b ∷ bs) = clean (b ∷ bs)
join (a ∷ as') [] = clean (a ∷ as')
join (a ∷ as') (b ∷ bs) = clean ((a ∷ as') ++ 47 ∷ b ∷ bs)

-- `next == ".." || strings.HasPrefix(next, "../")`
unfoldable pub escapes : Bytes → Bool
escapes next = same_bytes next dot_dot || starts_with (46 ∷ 46 ∷ 47 ∷ []) next

-- What `os.Root` says of a path: none for an error.
pub data Entry : Type 0 where
  plain link : Entry

pub record Root : Type 0 where
  pub lstat : Bytes → Option Entry
  pub readlink : Bytes → Option Bytes

-- The segments of what a link leads to.
abbrev pub segments : Bytes → List Bytes
segments next = if same_bytes next dot then [] else split next

-- Where a link leads to, as `hiddenViaSymlink` goes on from it.
pub data Link : Type 0 where
  blocked unreadable : Link
  leads : Bytes → Link

unfoldable pub target_of : Os → Bytes → Option Bytes → Link
unfolding join clean escapes
target_of os resolved none = unreadable
target_of os resolved (some target) =
    let next : Bytes = clean (join resolved (os.to_slash target)) in
    if os.is_abs target then blocked else if escapes next then blocked else leads next

abbrev pub max_symlink_hops : ℕ
max_symlink_hops = 40

-- The loop of `hiddenViaSymlink` up to the next link; `follow` goes on from there, by the path before the
-- link, that of the link, and the segments after it.
abbrev pub Follow : Type 0
Follow = Bytes → Bytes → List Bytes → Bool

unfoldable pub walk_on : Os → Root → Follow → Bytes → List Bytes → Bool
unfolding hidden_segment
walk_on os root follow resolved [] = false
walk_on os root follow resolved (seg ∷ rest) =
    let path : Bytes = below resolved seg in
    let go_on : Bool = walk_on os root follow path rest in
    if hidden_segment os seg then true else elim (root.lstat path) [
      | none ↦ false
      | some plain ↦ go_on
      | some link ↦ follow resolved path rest
    ]

-- A link is followed; `again` is the loop from its target on.
unfoldable pub go_to : (List Bytes → Bool) → List Bytes → Link → Bool
unfolding split
go_to again rest blocked = true
go_to again rest unreadable = false
go_to again rest (leads next) = again (segments next ++ rest)

unfoldable pub follow_link : Os → Root → (List Bytes → Bool) → Follow
unfolding go_to
follow_link os root again resolved path rest =
    go_to again rest (target_of os resolved (root.readlink path))

-- The loop, with so many links that it may follow.
unfoldable pub walk : Os → Root → ℕ → List Bytes → Bool
unfolding walk_on follow_link
walk os root zero segs = walk_on os root (λ resolved path rest. true) [] segs
walk os root (suc hops) segs = walk_on os root (follow_link os root (walk os root hops)) [] segs

-- `hiddenViaSymlink`
unfoldable pub hidden_via_symlink : Os → Root → Bytes → Bool
unfolding walk split
hidden_via_symlink os root name =
    if same_bytes name dot then false else walk os root max_symlink_hops (split name)
