-- ===== src/Update/Swap.antt =====
-- internal/update/update.go: `Install`, `swap`, `retry` and `CleanupOld`, on a disk of files by their paths.
-- The random part of a name is an argument.
use tuzy.Shared.{
  ℕ, zero, suc, Bool, true, false, ◌&&◌, ◌||◌, Option, none, some, List, [], ◌∷◌, ◌++◌, same_bytes,
  starts_with, if◌then◌else◌,
}
use tuzy.Protocol.{Bytes}
use tuzy.Tunnel.CloseReason.{ascii_bytes}
use tuzy.Update.{Updater, is_windows, trim_first}

abbrev pub Disk : Type 0
Disk = Bytes → Option Bytes

-- What the system says to each change that is tried: true if it lets it happen; with nothing left, it does
-- not.
abbrev pub Moods : Type 0
Moods = List Bool

unfoldable pub put : Bytes → Option Bytes → Disk → Disk
put path content d p = if same_bytes p path then content else d p

-- `os.Rename`
unfoldable pub renamed : Bytes → Bytes → Option Bytes → Disk → Bool × Disk
unfolding put
renamed from to none d = (false, d)
renamed from to (some content) d = (true, put to (some content) (put from none d))

unfoldable pub rename : Bytes → Bytes → Disk → Moods → Bool × Disk × Moods
unfolding renamed
rename from to d [] = (false, d, [])
rename from to d (false ∷ ms) = (false, d, ms)
rename from to d (true ∷ ms) = let (done, d') = renamed from to (d from) d in (done, d', ms)

-- `retry` of a rename.
unfoldable pub or_retry :
    (Disk → Moods → Bool × Disk × Moods) → Bool × Disk × Moods → Bool × Disk × Moods
or_retry again (true, d, ms) = (true, d, ms)
or_retry again (false, d, ms) = again d ms

unfoldable pub retry : ℕ → Bytes → Bytes → Disk → Moods → Bool × Disk × Moods
unfolding rename or_retry
retry zero from to d ms = (false, d, ms)
retry (suc n) from to d ms = or_retry (retry n from to) (rename from to d ms)

-- `CleanupOld`: a file that is in use stays.
unfoldable pub is_old : Bytes → Bytes → Bool
is_old exe path = starts_with (exe ++ ascii_bytes ".old-") path

unfoldable pub cleanup_old : Bytes → (Bytes → Bool) → Disk → Disk
unfolding is_old
cleanup_old exe removable d p = if is_old exe p && removable p then none else d p

-- How `swap` and `Install` end. The last says where the previous binary is.
pub data Outcome : Type 0 where
  installed failed_to_swap no_executable no_room broken_binary : Outcome
  previous_at : Bytes → Outcome

unfoldable pub after_back : Bytes → Bool × Disk × Moods → Outcome × Disk
after_back old (true, d, ms) = (failed_to_swap, d)
after_back old (false, d, ms) = (previous_at old, d)

unfoldable pub after_new : Bytes → Bytes → Bool × Disk × Moods → Outcome × Disk
unfolding after_back
after_new exe old (true, d, ms) = (installed, d)
after_new exe old (false, d, ms) = after_back old (retry 5 old exe d ms)

unfoldable pub after_old : Bytes → Bytes → Bytes → Bool × Disk × Moods → Outcome × Disk
unfolding after_new retry
after_old exe tmp old (false, d, ms) = (failed_to_swap, d)
after_old exe tmp old (true, d, ms) = after_new exe old (retry 5 tmp exe d ms)

unfoldable pub after_rename : Bool × Disk × Moods → Outcome × Disk
after_rename (true, d, ms) = (installed, d)
after_rename (false, d, ms) = (failed_to_swap, d)

abbrev pub old_name : Bytes → Bytes → Bytes
old_name exe random = exe ++ (ascii_bytes ".old-" ++ random)

-- `swap`
unfoldable pub swap : Bool → Bytes → Bytes → Bytes → (Bytes → Bool) → Disk → Moods → Outcome × Disk
unfolding after_old after_rename cleanup_old rename retry
swap false exe tmp random removable d ms = after_rename (rename tmp exe d ms)
swap true exe tmp random removable d ms =
    let old : Bytes = old_name exe random in
    after_old exe tmp old (retry 5 exe old (cleanup_old exe removable d) ms)

-- `strings.Contains`
unfoldable pub contains : Bytes → Bytes → Bool
contains part [] = starts_with part []
contains part (b ∷ bs) = let rest = contains part bs in starts_with part (b ∷ bs) || rest

-- What `Install` meets: if the new file can be written, what it prints when it is run with none for a
-- failure, which old files can be removed, and the moods of the system.
pub record Machine : Type 0 where
  pub can_write : Bool
  pub output : Bytes → Option Bytes
  pub removable : Bytes → Bool
  pub moods : Moods

unfoldable pub reports : Bytes → Option Bytes → Bool
unfolding contains trim_first
reports version none = false
reports version (some out) = contains (trim_first 118 version) out

-- The deferred removal of the temporary file.
unfoldable pub remove_tmp : Bytes → Outcome × Disk → Outcome × Disk
unfolding put
remove_tmp tmp (o, d) = (o, put tmp none d)

unfoldable pub install_over :
    Machine → Updater → Bytes → Bytes → Bytes → Bytes → Option Bytes → Disk → Outcome × Disk
unfolding put reports swap remove_tmp
install_over m u tmp random bin version none d = (no_executable, d)
install_over m u tmp random bin version (some current) d =
    if m.can_write
    then remove_tmp tmp (
        let d' : Disk = put tmp (some bin) d in
        if reports version (m.output bin)
        then swap (is_windows u.goos) u.exe tmp random m.removable d' m.moods
        else (broken_binary, d'))
    else (no_room, d)

-- `Install`
unfoldable pub install : Machine → Updater → Bytes → Bytes → Bytes → Bytes → Disk → Outcome × Disk
unfolding install_over
install m u tmp random bin version d = install_over m u tmp random bin version (d u.exe) d
