-- ===== src/Update.antt =====
-- internal/update: `tuzy update`, by what it checks before it trusts a release. Texts are bytes. The
-- library's codecs, digests, archives and versions are parameters.
pub mod Release
pub mod Trust
pub mod Swap
pub mod Rollback
pub mod Notice
pub mod OncePerDay
mod Tests
use tuzy.Shared.{
  ℕ, ◌+◌, ◌*◌, ◌^◌, Bool, ◌&&◌, ◌||◌, Option, none, some, List, [], ◌∷◌, ◌++◌, map, leb, ◌==◌,
  same_bytes, if◌then◌else◌,
}
use tuzy.Protocol.{Bytes}
use tuzy.Tunnel.CloseReason.{ascii_bytes}

abbrev pub max_archive : ℕ
max_archive = 200 * 2 ^ 20

abbrev pub max_checksum : ℕ
max_checksum = 64 * 2 ^ 10

-- `canonical`
unfoldable pub canonical : Bytes → Bytes
canonical [] = []
canonical (b ∷ bs) = if b == 118 then b ∷ bs else 118 ∷ b ∷ bs

-- `strings.TrimPrefix` of one byte.
unfoldable pub trim_first : ℕ → Bytes → Bytes
trim_first c [] = []
trim_first c (b ∷ bs) = if b == c then bs else b ∷ bs

-- What the library knows of versions: `semver.IsValid`, and `semver.Compare` above 0.
pub record Semver : Type 0 where
  pub is_valid : Bytes → Bool
  pub is_above : Bytes → Bytes → Bool

-- `Updater`
pub record Updater : Type 0 where
  pub base : Bytes
  pub current : Bytes
  pub goos : Bytes
  pub goarch : Bytes
  pub exe : Bytes
  pub keys : List Bytes

abbrev pub is_windows : Bytes → Bool
is_windows goos = same_bytes goos (ascii_bytes "windows")

-- `Newer`
unfoldable pub newer : Semver → Updater → Bytes → Bool
newer lib u version = lib.is_valid u.current && lib.is_above version u.current

-- `AssetName`
unfoldable pub asset_name : Updater → Bytes → Bytes
unfolding trim_first
asset_name u version =
    ascii_bytes "tuzy_"
    ++ (trim_first 118 version
        ++ (95
            ∷ (u.goos
                ++ (95
                    ∷ (u.goarch
                        ++ (if is_windows u.goos
                            then ascii_bytes ".zip"
                            else ascii_bytes ".tar.gz"))))))

-- White space, and the ASCII letters in lower case.
abbrev pub is_space : ℕ → Bool
is_space b = (leb 9 b && leb b 13) || (b == 32)

abbrev pub lower : ℕ → ℕ
lower b = if leb 65 b && leb b 90 then b + 32 else b

-- `strings.Fields`, of ASCII text; the field that is being read comes first.
abbrev pub push : Bytes → List Bytes → List Bytes
push [] fs = fs
push (b ∷ bs) fs = (b ∷ bs) ∷ fs

unfoldable pub fields_onto : Bytes → Bytes → List Bytes
fields_onto field [] = push field []
fields_onto field (b ∷ bs) =
    let after = fields_onto [] bs in
    let more = fields_onto (field ++ b ∷ []) bs in if is_space b then push field after else more

unfoldable pub fields : Bytes → List Bytes
unfolding fields_onto
fields line = fields_onto [] line

-- The lines of `bufio.Scanner`, without the carriage return at an end.
unfoldable pub drop_return : Bytes → Bytes
drop_return [] = []
drop_return (b ∷ []) = if b == 13 then [] else b ∷ []
drop_return (b ∷ c ∷ bs) = b ∷ drop_return (c ∷ bs)

unfoldable pub lines_onto : Bytes → Bytes → List Bytes
unfolding drop_return
lines_onto line [] = map drop_return (push line [])
lines_onto line (b ∷ bs) =
    let after = lines_onto [] bs in
    let more = lines_onto (line ++ b ∷ []) bs in if b == 10 then drop_return line ∷ after else more

-- The sum of a line of checksums.txt, if it is that of the asset.
unfoldable pub sum_of : Bytes → List Bytes → Option Bytes
unfolding trim_first
sum_of asset (sum ∷ name ∷ []) =
    if same_bytes (trim_first 42 name) asset then some (map lower sum) else none
sum_of asset _ = none

unfoldable pub first_sum : Bytes → List Bytes → Option Bytes
unfolding fields sum_of
first_sum asset [] = none
first_sum asset (line ∷ lines) =
    let rest = first_sum asset lines in
    elim (sum_of asset (fields line)) [ none ↦ rest | some sum ↦ some sum ]

-- `checksumFor`
unfoldable pub checksum_for : Bytes → Bytes → Option Bytes
unfolding first_sum lines_onto
checksum_for sums asset = first_sum asset (lines_onto [] sums)
