-- ===== src/Update/Tests.antt =====
-- Runs of the updater.
use tuzy.Shared.{
  ℕ, ◌+◌, zero, suc, ◌*◌, ◌^◌, ◌≡◌, refl, inr, true, none, some, List, [], ◌∷◌, same_bytes,
  if◌then◌else◌,
}
use tuzy.Protocol.{Bytes}
use tuzy.Tunnel.CloseReason.{ascii_bytes}
use tuzy.Update.{Semver, Updater, asset_name, newer}
use tuzy.Update.Release.{Library, member, tar_end, Web, download}
use tuzy.Update.Trust.{IsTrusted, download-IsTrusted}
use tuzy.Update.Swap.{Disk, contains, Machine, previous_at, old_name, install, reports, is_old}
use tuzy.Update.Rollback.{Keeps, install-Keeps}
use tuzy.Update.Notice.{Cache, Call, Notices, starts, ends, asks, land, call, told}
use tuzy.Update.OncePerDay.{Spaced, told-Spaced}

abbrev filled : ℕ → Bytes
filled zero = []
filled (suc n) = 75 ∷ filled n

abbrev new_binary : Bytes
new_binary = 1 ∷ 2 ∷ []

abbrev toy : Library
toy = record {
  base64 = λ b. some b;
  trim_space = λ b. b;
  verify = λ key text raw. true;
  sha256 = λ b. b;
  hex = λ b. b;
  base_name = λ b. b;
  unzip = λ b. none;
  untar = λ b. some (
      member (record { is_regular = true; name = ascii_bytes "tuzy"; content = some new_binary })
        tar_end);
}

abbrev updater : Updater
updater = record {
  base = [];
  current = ascii_bytes "v1";
  goos = ascii_bytes "linux";
  goarch = ascii_bytes "arm64";
  exe = ascii_bytes "/bin/tuzy";
  keys = filled 32 ∷ [];
}

abbrev web : Web
web url =
    if contains (ascii_bytes ".sig") url
    then some (200, some (filled 64))
    else if contains (ascii_bytes "checksums.txt") url
    then some (200, some (ascii_bytes "abc  tuzy_2_linux_arm64.tar.gz"))
    else some (200, some (ascii_bytes "abc"))

abbrev version : Bytes
version = ascii_bytes "v2"

downloads : download toy web updater version ≡ inr new_binary
unfolding download contains asset_name
downloads = refl

download-IsTrusted_example : IsTrusted toy web updater version new_binary
download-IsTrusted_example = download-IsTrusted toy web updater version new_binary downloads

abbrev disk : Disk
disk path = if same_bytes path (ascii_bytes "/bin/tuzy") then some (0 ∷ []) else none

abbrev tmp : Bytes
tmp = ascii_bytes "/bin/.tuzy-update-0"

-- On Windows, where the new binary cannot be moved into place, nor the old one back.
abbrev windows : Updater
windows = record updater { goos = ascii_bytes "windows" }

abbrev stubborn : Machine
stubborn = record {
  can_write = true;
  output = λ bin. some (ascii_bytes "tuzy 2");
  removable = λ path. true;
  moods = true ∷ [];
}

install-Keeps_example :
    Keeps
      (ascii_bytes "/bin/tuzy")
      (old_name (ascii_bytes "/bin/tuzy") (7 ∷ []))
      (0 ∷ [])
      new_binary
      (install stubborn windows tmp (7 ∷ []) new_binary version disk)
unfolding is_old
install-Keeps_example =
    install-Keeps windows tmp (7 ∷ []) (0 ∷ []) new_binary refl refl stubborn version disk refl

lost_and_named :
    (install stubborn windows tmp (7 ∷ []) new_binary version disk).0
    ≡ previous_at (old_name (ascii_bytes "/bin/tuzy") (7 ∷ []))
unfolding install reports contains
lost_and_named = refl

abbrev versions : Semver
versions = record { is_valid = λ v. true; is_above = λ v w. true }

abbrev cache : Cache
cache = record { checked_at = 0; latest = none; notified_at = 0 }

abbrev day : ℕ
day = 24 * 3600 * 10 ^ 9

abbrev calls : List Call
calls =
    starts day
    ∷ ends 0 (some version) true
    ∷ asks day true
    ∷ asks (25 * 3600 * 10 ^ 9) true
    ∷ asks (48 * 3600 * 10 ^ 9) true
    ∷ []

abbrev unread : Notices
unread = record { cache = cache; flights = [] }

told-Spaced_example : Spaced 0 (told versions updater unread calls)
told-Spaced_example =
    told-Spaced versions updater calls cache
      (unfold call land in (refl, refl, (refl, refl, (refl, refl, tt))))

told_twice : told versions updater unread calls ≡ day ∷ 48 * 3600 * 10 ^ 9 ∷ []
unfolding told call land newer
told_twice = refl

-- A question between the read and the write of a lookup: what it writes is lost, and the next question tells again.
told_again :
    told versions updater
      (record { cache = record cache { latest = some version }; flights = [] })
      (starts day ∷ asks day true ∷ ends 0 (some version) true ∷ asks (day + 1) true ∷ [])
    ≡ day ∷ (day + 1) ∷ []
unfolding told call land newer
told_again = refl
