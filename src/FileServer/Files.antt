-- ===== src/FileServer/Files.antt =====
-- internal/fileserver/fileserver.go: `hideFS.Open` and `hideDirFile.ReadDir`. What the library's file system
-- does is a parameter.
use tuzy.Shared.{
  ℕ, zero, suc, ◌⊎◌, inl, inr, Bool, true, false, ◌&&◌, ◌||◌, List, [], ◌∷◌, ◌++◌, ltb, same_bytes,
  if◌then◌else◌, length, take, drop,
}
use tuzy.Protocol.{Bytes}
use tuzy.FileServer.{Os, Root, dot, hidden_segment, hidden, hidden_via_symlink}

pub data FsError : Type 0 where
  not_exist permission other : FsError

pub record DirEntry : Type 0 where
  pub name : Bytes
  pub is_link : Bool

-- An open file: what `Stat` says, with true for a directory, if it can list, and what `ReadDir(-1)` gives.
pub record File : Type 0 where
  pub stat : FsError ⊎ Bool
  pub lists : Bool
  pub listing : FsError ⊎ List DirEntry

abbrev pub Fs : Type 0
Fs = Bytes → FsError ⊎ File

-- `notFoundUnlessKnown`
unfoldable pub not_found_unless_known : FsError → FsError
not_found_unless_known not_exist = not_exist
not_found_unless_known permission = permission
not_found_unless_known other = not_exist

-- `hideDirFile`
pub record DirFile : Type 0 where
  pub dir : Bytes
  pub listing : FsError ⊎ List DirEntry
  pub entries : List DirEntry
  pub loaded : Bool

pub data Opened : Type 0 where
  a_file : File → Opened
  a_dir : DirFile → Opened
  fails_open : FsError → Opened
  no_listing : Opened

unfoldable pub on_stat : Bytes → File → FsError ⊎ Bool → Opened
unfolding not_found_unless_known
on_stat name f (inl e) = fails_open (not_found_unless_known e)
on_stat name f (inr false) = a_file f
on_stat name f (inr true) =
    if f.lists
    then a_dir (record { dir = name; listing = f.listing; entries = []; loaded = false })
    else no_listing

unfoldable pub on_open : Bytes → FsError ⊎ File → Opened
unfolding on_stat not_found_unless_known
on_open name (inl e) = fails_open (not_found_unless_known e)
on_open name (inr f) = on_stat name f f.stat

-- `Open`
unfoldable pub open_file : Os → Root → Fs → Bytes → Opened
unfolding on_open
open_file os root fs name =
    if hidden os name || hidden_via_symlink os root name
    then fails_open not_exist
    else on_open name (fs name)

-- The path of an entry.
unfoldable pub entry_path : Bytes → Bytes → Bytes
entry_path dir name = if same_bytes dir dot || same_bytes dir [] then name else dir ++ 47 ∷ name

-- An entry that `ReadDir` leaves out.
unfoldable pub is_left_out : Os → Root → Bytes → DirEntry → Bool
unfolding entry_path
is_left_out os root dir e =
    hidden_segment os e.name || (e.is_link && hidden_via_symlink os root (entry_path dir e.name))

unfoldable pub load : Os → Root → Bytes → List DirEntry → List DirEntry
load os root dir [] = []
load os root dir (e ∷ es) =
    let rest = load os root dir es in if is_left_out os root dir e then rest else e ∷ rest

pub data Read : Type 0 where
  some_entries : List DirEntry → Read
  at_end : Read
  fails_read : FsError → Read

-- `ReadDir`, once the entries are loaded; zero stands for every n ≤ 0.
unfoldable pub page : ℕ → DirFile → List DirEntry → DirFile × Read
page zero d es = (record d { entries = [] }, some_entries es)
page (suc n) d [] = (d, at_end)
page (suc n) d (e ∷ es) =
    let k : ℕ = if ltb (length (e ∷ es)) (suc n) then length (e ∷ es) else suc n in
    (record d { entries = drop k (e ∷ es) }, some_entries (take k (e ∷ es)))

unfoldable pub next_page : ℕ → DirFile → DirFile × Read
unfolding page
next_page n d = page n d d.entries

unfoldable pub on_listing : Os → Root → ℕ → DirFile → FsError ⊎ List DirEntry → DirFile × Read
unfolding load next_page
on_listing os root n d (inl e) = (d, fails_read e)
on_listing os root n d (inr all) =
    next_page n (record d { entries = d.entries ++ load os root d.dir all; loaded = true })

-- `ReadDir`
unfoldable pub read_dir : Os → Root → ℕ → DirFile → DirFile × Read
unfolding on_listing next_page
read_dir os root n d = if d.loaded then next_page n d else on_listing os root n d d.listing
