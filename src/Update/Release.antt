-- ===== src/Update/Release.antt =====
-- internal/update/update.go: `get`, `VerifySignature`, `extract` and `Download`.
use tuzy.Shared.{
  ℕ, ◌⊎◌, inl, inr, Bool, true, false, ◌&&◌, Option, none, some, List, [], ◌∷◌, ◌++◌, ltb, ◌==◌,
  same_bytes, if◌then◌else◌, length,
}
use tuzy.Protocol.{Bytes}
use tuzy.Tunnel.CloseReason.{ascii_bytes}
use tuzy.Update.{max_archive, max_checksum, Updater, is_windows, asset_name, checksum_for}

-- What stops an update.
pub data UpdateError : Type 0 where
  no_release_key no_response bad_status broken_body too_large : UpdateError
  malformed_signature wrong_signature not_listed sum_mismatch : UpdateError
  bad_archive not_in_archive : UpdateError

abbrev pub Result : Type 0 → Type 0
Result A = UpdateError ⊎ A

abbrev pub bind : {A B : Type 0} → Result A → (A → Result B) → Result B
bind (inl e) f = inl e
bind (inr a) f = f a

abbrev pub or_error : {A : Type 0} → UpdateError → Option A → Result A
or_error e none = inl e
or_error e (some a) = inr a

abbrev pub ok_if : Bool → UpdateError → Result (Unit {0})
ok_if true e = inr tt
ok_if false e = inl e

-- A file of an archive, with none if it cannot be read.
pub record Member : Type 0 where
  pub is_regular : Bool
  pub name : Bytes
  pub content : Option Bytes

-- The members of a tar archive as they are met.
pub data Tar : Type 0 where
  tar_end tar_error : Tar
  member : Member → Tar → Tar

-- The library.
pub record Library : Type 0 where
  pub base64 : Bytes → Option Bytes
  pub trim_space : Bytes → Bytes
  pub verify : Bytes → Bytes → Bytes → Bool
  pub sha256 : Bytes → Bytes
  pub hex : Bytes → Bytes
  pub base_name : Bytes → Bytes
  pub unzip : Bytes → Option (List Member)
  pub untar : Bytes → Option Tar

-- An answer of the web: the status, and the body with none for a read that fails.
abbrev pub Web : Type 0
Web = Bytes → Option (ℕ × Option Bytes)

-- `get`
unfoldable pub within : ℕ → Bytes → Result Bytes
within limit b = if ltb limit (length b) then inl too_large else inr b

unfoldable pub on_answer : ℕ → ℕ × Option Bytes → Result Bytes
unfolding within
on_answer limit (status, body) =
    if status == 200 then bind (or_error broken_body body) (within limit) else inl bad_status

unfoldable pub get : Web → Bytes → ℕ → Result Bytes
unfolding on_answer
get web url limit = bind (or_error no_response (web url)) (on_answer limit)

-- `VerifySignature`
unfoldable pub is_signed_by : Library → Bytes → Bytes → Option Bytes → Bool
is_signed_by lib data_ raw none = false
is_signed_by lib data_ raw (some key) = (length key == 32) && lib.verify key data_ raw

unfoldable pub is_signed : Library → List Bytes → Bytes → Bytes → Bool
unfolding is_signed_by
is_signed lib [] data_ raw = false
is_signed lib (k ∷ ks) data_ raw =
    let rest = is_signed lib ks data_ raw in
    if is_signed_by lib data_ raw (lib.base64 k) then true else rest

unfoldable pub verify_raw : Library → List Bytes → Bytes → Bytes → Result (Unit {0})
unfolding is_signed
verify_raw lib keys data_ raw =
    if length raw == 64
    then ok_if (is_signed lib keys data_ raw) wrong_signature
    else inl malformed_signature

unfoldable pub verify_signature : Library → List Bytes → Bytes → Bytes → Result (Unit {0})
unfolding verify_raw
verify_signature lib keys data_ sig =
    bind (or_error malformed_signature (lib.base64 (lib.trim_space sig)))
      (verify_raw lib keys data_)

-- `readCapped`
unfoldable pub read_capped : Option Bytes → Result Bytes
unfolding within
read_capped content = bind (or_error broken_body content) (within max_archive)

-- `extract`
unfoldable pub is_binary : Library → Bytes → Member → Bool
is_binary lib name m = m.is_regular && same_bytes (lib.base_name m.name) name

unfoldable pub from_zip : Library → List Member → Result Bytes
unfolding is_binary read_capped
from_zip lib [] = inl not_in_archive
from_zip lib (m ∷ ms) =
    let rest = from_zip lib ms in
    if is_binary lib (ascii_bytes "tuzy.exe") m then read_capped m.content else rest

unfoldable pub from_tar : Library → Tar → Result Bytes
unfolding is_binary read_capped
from_tar lib tar_end = inl not_in_archive
from_tar lib tar_error = inl bad_archive
from_tar lib (member m ms) =
    let rest = from_tar lib ms in
    if is_binary lib (ascii_bytes "tuzy") m then read_capped m.content else rest

unfoldable pub extract : Library → Bytes → Bytes → Result Bytes
unfolding from_zip from_tar
extract lib archive goos =
    if is_windows goos
    then bind (or_error bad_archive (lib.unzip archive)) (from_zip lib)
    else bind (or_error bad_archive (lib.untar archive)) (from_tar lib)

abbrev pub release_dir : Updater → Bytes → Bytes
release_dir u version = u.base ++ (ascii_bytes "/download/" ++ (version ++ 47 ∷ []))

abbrev pub is_nil : List Bytes → Bool
is_nil [] = true
is_nil (k ∷ ks) = false

-- `Download` once the checksums are trusted.
unfoldable pub download_archive : Library → Web → Updater → Bytes → Bytes → Result Bytes
unfolding get extract checksum_for
download_archive lib web u version sums =
    let asset : Bytes = asset_name u version in
    bind (or_error not_listed (checksum_for sums asset)) λ want.
      bind (get web (release_dir u version ++ asset) max_archive) λ archive.
        bind (ok_if (same_bytes (lib.hex (lib.sha256 archive)) want) sum_mismatch)
          λ checked. extract lib archive u.goos

-- `Download`
unfoldable pub download : Library → Web → Updater → Bytes → Result Bytes
unfolding get verify_signature download_archive
download lib web u version =
    let dir : Bytes = release_dir u version in
    if is_nil u.keys
    then inl no_release_key
    else bind (get web (dir ++ ascii_bytes "checksums.txt") max_checksum) λ sums.
      bind (get web (dir ++ ascii_bytes "checksums.txt.sig") 1024) λ sig.
        bind (verify_signature lib u.keys sums sig)
          λ verified. download_archive lib web u version sums
