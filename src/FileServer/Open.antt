-- ===== src/FileServer/Open.antt =====
-- What can be opened, and what is listed.
use tuzy.Shared.{
  ℕ, zero, suc, ◌≡◌, refl, sym, ap, subst, ◌⊎◌, inl, inr, Bool, true, false, Bool-cases, List, [],
  ◌∷◌, ◌++◌, ltb, ltb→lt, ◌<◌, ◌≤◌, take, arith, if◌then◌else◌, if_both, length, take-append-drop,
  All,
}
use tuzy.Protocol.{Bytes}
use tuzy.FileServer.{Os, Root, segments, hidden, hidden_via_symlink}
use tuzy.FileServer.Resolve.{Resolves, Leaves, Visible, passes-Visible, passes-never_Leaves}
use tuzy.FileServer.Files.{
  FsError, not_exist, permission, other, DirEntry, File, Fs, not_found_unless_known, DirFile,
  Opened, a_file, a_dir, fails_open, no_listing, on_stat, on_open, open_file, is_left_out, load,
  Read, some_entries, at_end, page, next_page, on_listing, read_dir,
}

-- A name that leads to no hidden segment, and by no link out of the root; the target of each link is taken by its
-- text.
abbrev pub IsSafe : Os → Root → Bytes → Type 0
IsSafe os root name =
    ((out : List Bytes) → Resolves os root [] (segments name) out → All (Visible os root) out)
    × (Leaves os root [] (segments name) → ⊥)

-- An answer of `Open`: what it finds is at a safe name, and its errors say that there is no such file, or no
-- permission. Only for a directory that cannot list, at a safe name again, is there an error of its own.
abbrev pub IsGuarded : Os → Root → Bytes → Opened → Type 0
IsGuarded os root name (a_file f) = IsSafe os root name
IsGuarded os root name (a_dir d) = (d.dir ≡ name) × IsSafe os root name
IsGuarded os root name (fails_open e) = (e ≡ not_exist) ⊎ (e ≡ permission)
IsGuarded os root name no_listing = IsSafe os root name

known_error :
    (e : FsError) → (not_found_unless_known e ≡ not_exist) ⊎ (not_found_unless_known e ≡ permission)
unfolding not_found_unless_known
known_error not_exist = inl refl
known_error permission = inr refl
known_error other = inl refl

module _ (os : Os) (root : Root) (name : Bytes)
    (passes : hidden_via_symlink os root name ≡ false) where
  passes-IsSafe : IsSafe os root name
  passes-IsSafe =
      (λ out r. passes-Visible os root name out passes r, passes-never_Leaves os root name passes)

  on_stat-IsGuarded : (f : File) (s : FsError ⊎ Bool) → IsGuarded os root name (on_stat name f s)
  unfolding on_stat
  on_stat-IsGuarded f (inl e) = known_error e
  on_stat-IsGuarded f (inr false) = passes-IsSafe
  on_stat-IsGuarded f (inr true) =
      if_both (IsGuarded os root name) f.lists
        (a_dir (record { dir = name; listing = f.listing; entries = []; loaded = false }))
        no_listing (refl, passes-IsSafe) passes-IsSafe

  on_open-IsGuarded : (o : FsError ⊎ File) → IsGuarded os root name (on_open name o)
  unfolding on_open
  on_open-IsGuarded (inl e) = known_error e
  on_open-IsGuarded (inr f) = on_stat-IsGuarded f f.stat

-- Whatever the file system answers: a file or directory that `Open` gives is at the end of a path with no hidden
-- segment, and no link on the way is absolute or leads above the root, where the target of each link is taken by
-- its text; and an error says no more than that there is no such file or no permission, but for a directory that
-- passes the same and cannot list.
pub open_file-IsGuarded :
    (os : Os) (root : Root) (fs : Fs) (name : Bytes)
    → IsGuarded os root name (open_file os root fs name)
unfolding open_file
open_file-IsGuarded os root fs name = elim (Bool-cases (hidden os name)) [
  | inl h ↦ rw h (inl refl)
  | inr h ↦ elim (Bool-cases (hidden_via_symlink os root name)) [
    | inl l ↦ rw (h, l) (inl refl)
    | inr l ↦ rw (h, l) (on_open-IsGuarded os root name l (fs name))
  ]
]

-- The reads of a directory, one after the other.
unfoldable pub reads : Os → Root → List ℕ → DirFile → List Read
reads os root [] d = []
reads os root (n ∷ ns) d =
    let (d', r) : DirFile × Read = read_dir os root n d in
    let rs : List Read = reads os root ns d' in r ∷ rs

-- One read of at most so many entries, or of all for 0, where the first list is still to come, and the second after it.
abbrev pub IsPage : List DirEntry → ℕ → Read → List DirEntry → Type 0
IsPage es zero r rest = (r ≡ some_entries es) × (rest ≡ [])
IsPage [] (suc n) r rest = (r ≡ at_end) × (rest ≡ [])
IsPage (e ∷ es) (suc n) r rest =
    (out : List DirEntry) × (r ≡ some_entries out)
    × (out ++ rest ≡ e ∷ es)
    × (0 < length out)
    × (length out ≤ suc n)

-- The reads of a listing, page after page.
pub data IsPaged : List DirEntry → List ℕ → List Read → Type 0 where
  done : (es : List DirEntry) → IsPaged es [] []
  reading :
      (es rest : List DirEntry) (n : ℕ) (ns : List ℕ) (r : Read) (rs : List Read)
      → IsPage es n r rest
      → IsPaged rest ns rs
      → IsPaged es (n ∷ ns) (r ∷ rs)

-- The second list has, in order, the entries of the first that may be shown.
pub data IsShown (os : Os) (root : Root) (dir : Bytes)
    : List DirEntry → List DirEntry → Type 0 where
  ends : IsShown os root dir [] []
  keeps :
      (e : DirEntry) (es out : List DirEntry)
      → is_left_out os root dir e ≡ false
      → IsShown os root dir es out
      → IsShown os root dir (e ∷ es) (e ∷ out)
  skips :
      (e : DirEntry) (es out : List DirEntry)
      → is_left_out os root dir e ≡ true
      → IsShown os root dir es out
      → IsShown os root dir (e ∷ es) out

load-IsShown :
    (os : Os) (root : Root) (dir : Bytes) (es : List DirEntry)
    → IsShown os root dir es (load os root dir es)
unfolding load
load-IsShown os root dir [] = ends
load-IsShown os root dir (e ∷ es) = elim (Bool-cases (is_left_out os root dir e)) [
  | inl out ↦ rw out (skips e es (load os root dir es) out (load-IsShown os root dir es))
  | inr shown ↦ rw shown (keeps e es (load os root dir es) shown (load-IsShown os root dir es))
]

length-take_le : (k : ℕ) (es : List DirEntry) → length (take k es) ≤ k
length-take_le zero es = ground arith
length-take_le (suc k) [] = ground arith
length-take_le (suc k) (e ∷ es) = let h = length-take_le k es in ground (arith, h)

take_some : (k : ℕ) (e : DirEntry) (es : List DirEntry) → 0 < length (take (suc k) (e ∷ es))
take_some k e es = ground arith

-- A page is as asked for, and leaves the listing loaded.
abbrev Pages : ℕ → List DirEntry → DirFile × Read → Type 0
Pages n es (d', r) = IsPage es n r d'.entries × (d'.loaded ≡ true)

page-Pages : (n : ℕ) (d : DirFile) → d.loaded ≡ true → Pages n d.entries (page n d d.entries)
unfolding page
page-Pages n d l = by_entries n d.entries refl
  where
    small : {a b c : ℕ} → a ≤ b → b < c → a ≤ c
    small h k = omega (arith, h, k)

    by_entries : (n : ℕ) (es : List DirEntry) → d.entries ≡ es → Pages n es (page n d es)
    by_entries zero es q = ((refl, refl), l)
    by_entries (suc n) [] q = ((refl, q), l)
    by_entries (suc n) (e ∷ es) q = elim (Bool-cases (ltb (length (e ∷ es)) (suc n))) [
      | inl h ↦ rw h (
        (
          take (length (e ∷ es)) (e ∷ es),
          refl,
          take-append-drop (length (e ∷ es)) (e ∷ es),
          take_some (length es) e es,
          small (length-take_le (length (e ∷ es)) (e ∷ es)) (ltb→lt (length (e ∷ es)) (suc n) h),
        ),
        l,
      )
      | inr h ↦ rw h (
        (
          take (suc n) (e ∷ es),
          refl,
          take-append-drop (suc n) (e ∷ es),
          take_some n e es,
          length-take_le (suc n) (e ∷ es),
        ),
        l,
      )
    ]

loaded-IsPaged :
    (os : Os) (root : Root) (ns : List ℕ) (d : DirFile)
    → d.loaded ≡ true
    → IsPaged d.entries ns (reads os root ns d)
unfolding reads read_dir next_page
loaded-IsPaged os root [] d l = done d.entries
loaded-IsPaged os root (n ∷ ns) d l =
    let (p, l') = page-Pages n d l in
    subst (λ (x : DirFile × Read). IsPaged d.entries (n ∷ ns) (x.1 ∷ reads os root ns x.0))
      (sym (ap (λ b. if b then page n d d.entries else on_listing os root n d d.listing) l))
      (reading d.entries (page n d d.entries).0.entries n ns (page n d d.entries).1
        (reads os root ns (page n d d.entries).0) p
        (loaded-IsPaged os root ns (page n d d.entries).0 l'))

-- The directory that `Open` gives, however its reads are cut into pages: the entries of the file system that are not
-- left out come in their order, each once. A read of n > 0 entries gives between 1 and n of them as long as there
-- are any, and then the end; a read with n ≤ 0 gives all that are left.
pub reads_lem :
    (os : Os) (root : Root) (dir : Bytes) (all : List DirEntry) (ns : List ℕ)
    → let d : DirFile = record { dir = dir; listing = inr all; entries = []; loaded = false } in
      (shown : List DirEntry) × IsShown os root dir all shown
      × IsPaged shown ns (reads os root ns d)
unfolding reads read_dir on_listing next_page
reads_lem os root dir all ns = (load os root dir all, load-IsShown os root dir all, paged ns)
  where
    paged :
        (ns : List ℕ)
        → IsPaged (load os root dir all) ns (
            reads os root ns
              (record { dir = dir; listing = inr all; entries = []; loaded = false }))
    paged [] = done (load os root dir all)
    paged (n ∷ ns) =
        let d : DirFile = record {
          dir = dir;
          listing = inr all;
          entries = load os root dir all;
          loaded = true;
        } in
        let (p, l) = page-Pages n d refl in
        reading (load os root dir all) (page n d d.entries).0.entries n ns (page n d d.entries).1
          (reads os root ns (page n d d.entries).0) p
          (loaded-IsPaged os root ns (page n d d.entries).0 l)
