-- ===== src/Update/Trust.antt =====
-- The chain of trust of a download.
use tuzy.Shared.{
  ==→≡, ℕ, ◌≤◌, ◌≡◌, refl, ap, ap₂, subst, ◌∙◌, ◌⊎◌, inl, inr, Bool, true, false, ◌&&◌, Bool-cases,
  Option, none, some, List, [], ◌∷◌, ◌++◌, ◌==◌, map, same_bytes, same_bytes→≡, ltb, not_ltb→le,
  if◌then◌else◌, length,
}
use tuzy.Protocol.{Bytes}
use tuzy.Tunnel.CloseReason.{ascii_bytes}
use tuzy.Update.{
  max_archive, max_checksum, is_windows, lower, trim_first, Updater, asset_name, fields, lines_onto,
  sum_of, first_sum, checksum_for,
}
use tuzy.Update.Release.{
  no_release_key, no_response, bad_status, broken_body, too_large, bad_archive, malformed_signature,
  wrong_signature, not_listed, sum_mismatch, UpdateError, Result, bind, or_error, ok_if, Member,
  Tar, tar_end, tar_error, member, Library, Web, within, on_answer, is_signed_by, is_signed,
  verify_raw, verify_signature, read_capped, is_binary, from_zip, from_tar, extract, release_dir,
  is_nil, get, download_archive, download,
}

-- What a call that succeeded went through.
bind-inr :
    {A B : Type 0} (r : Result A) (f : A → Result B) (b : B)
    → bind r f ≡ inr b
    → (a : A) × (r ≡ inr a) × (f a ≡ inr b)
bind-inr (inl e) f b q = absurd (cc)
bind-inr (inr a) f b q = (a, refl, q)

or_error-inr :
    {A : Type 0} (e : UpdateError) (o : Option A) (a : A) → or_error e o ≡ inr a → o ≡ some a
or_error-inr e none a q = absurd (cc)
or_error-inr e (some x) a q = cc

ok_if-inr : (b : Bool) (e : UpdateError) (u : Unit {0}) → ok_if b e ≡ inr u → b ≡ true
ok_if-inr true e u q = refl
ok_if-inr false e u q = absurd (cc)

-- A key of the build, decoded, by which the data is signed.
abbrev pub SignedBy : Library → List Bytes → Bytes → Bytes → Type 0
SignedBy lib [] text raw = ⊥
SignedBy lib (k ∷ ks) text raw =
    ((key : Bytes) × (lib.base64 k ≡ some key) × (lib.verify key text raw ≡ true))
    ⊎ SignedBy lib ks text raw

signed_by :
    (lib : Library) (text raw : Bytes) (o : Option Bytes)
    → is_signed_by lib text raw o ≡ true
    → (key : Bytes) × (o ≡ some key) × (lib.verify key text raw ≡ true)
unfolding is_signed_by
signed_by lib text raw none q = absurd (cc)
signed_by lib text raw (some key) q =
    (key, refl, both (length key == 32) (lib.verify key text raw) q)
  where
    both : (x y : Bool) → (x && y) ≡ true → y ≡ true
    both true y h = h
    both false y h = absurd (cc)

is_signed-SignedBy :
    (lib : Library) (keys : List Bytes) (text raw : Bytes)
    → is_signed lib keys text raw ≡ true
    → SignedBy lib keys text raw
unfolding is_signed
is_signed-SignedBy lib [] text raw q = absurd (cc)
is_signed-SignedBy lib (k ∷ ks) text raw q =
    elim (Bool-cases (is_signed_by lib text raw (lib.base64 k))) [
      | inl here ↦ inl (signed_by lib text raw (lib.base64 k) here)
      | inr later ↦ inr (is_signed-SignedBy lib ks text raw (rw later at q))
    ]

same_if :
    {A : Type 0} (c : Bool) (e : UpdateError) (r : Result A) (a : A)
    → (if c then r else inl e) ≡ inr a
    → (c ≡ true) × (r ≡ inr a)
same_if true e r a q = (refl, q)
same_if false e r a q = absurd (cc)

-- The checksums list the sum, in lower case, for an asset: a line has the two alone, where a star may stand before
-- the name.
abbrev pub Lists : Bytes → Bytes → List Bytes → Type 0
Lists asset sum [] = ⊥
Lists asset sum (line ∷ lines) =
    ((first : Bytes) × (name : Bytes) × (fields line ≡ first ∷ name ∷ [])
      × (trim_first 42 name ≡ asset)
      × (sum ≡ map lower first))
    ⊎ Lists asset sum lines

sum_of-some :
    (asset sum : Bytes) (fs : List Bytes)
    → sum_of asset fs ≡ some sum
    → (first : Bytes) × (name : Bytes) × (fs ≡ first ∷ name ∷ [])
      × (trim_first 42 name ≡ asset)
      × (sum ≡ map lower first)
unfolding sum_of
sum_of-some asset sum [] q = absurd (cc)
sum_of-some asset sum (first ∷ []) q = absurd (cc)
sum_of-some asset sum (first ∷ name ∷ x ∷ fs) q = absurd (cc)
sum_of-some asset sum (first ∷ name ∷ []) q =
    elim (Bool-cases (same_bytes (trim_first 42 name) asset)) [
      | inl h ↦ (first, name, refl, same_bytes→≡ (trim_first 42 name) asset h, some_eq (rw h at q))
      | inr h ↦ absurd (none_some (rw h at q))
    ]
  where
    some_eq : {a b : Bytes} → some a ≡ some b → b ≡ a
    some_eq e = cc

    none_some : {b : Bytes} → none ≡ some b → ⊥
    none_some e = cc

first_sum-Lists :
    (asset sum : Bytes) (lines : List Bytes)
    → first_sum asset lines ≡ some sum
    → Lists asset sum lines
unfolding first_sum
first_sum-Lists asset sum [] q = absurd (cc)
first_sum-Lists asset sum (line ∷ lines) q =
    found (sum_of asset (fields line)) refl (first_sum-Lists asset sum lines) q
  where
    found :
        (o : Option Bytes)
        → sum_of asset (fields line) ≡ o
        → (first_sum asset lines ≡ some sum → Lists asset sum lines)
        → (elim o [ none ↦ first_sum asset lines | some sum ↦ some sum ]) ≡ some sum
        → Lists asset sum (line ∷ lines)
    found none e later q = inr (later q)
    found (some s) e later q = inl (sum_of-some asset sum (fields line) (e ∙ q))

-- What the web gives, in its limits.
Fetched : Web → Bytes → ℕ → Bytes → Type 0
Fetched web url limit b = (web url ≡ some (200, some b)) × (length b ≤ limit)

within-inr : (limit : ℕ) (b b' : Bytes) → within limit b ≡ inr b' → (b ≡ b') × (length b' ≤ limit)
unfolding within
within-inr limit b b' q = elim (Bool-cases (ltb limit (length b))) [
  | inl h ↦ absurd (large (rw h at q))
  | inr h ↦
      let e : b ≡ b' = same (rw h at q) in
      (e, subst (λ x. length x ≤ limit) e (not_ltb→le limit (length b) h))
]
  where
    large : inl too_large ≡ inr b' → ⊥
    large e = cc

    good : Bytes → Result Bytes
    good x = inr x

    same : good b ≡ good b' → b ≡ b'
    same e = cc

get-Fetched :
    (web : Web) (url : Bytes) (limit : ℕ) (b : Bytes)
    → get web url limit ≡ inr b
    → Fetched web url limit b
unfolding get on_answer Fetched
get-Fetched web url limit b q =
    let ((status, body), a, q1) = bind-inr (or_error no_response (web url)) (on_answer limit) b q in
    let (s, q2) =
      same_if (status == 200) bad_status (bind (or_error broken_body body) (within limit)) b q1 in
    let (c, d, q3) = bind-inr (or_error broken_body body) (within limit) b q2 in
    let (e, l) = within-inr limit c b q3 in
    (
      or_error-inr no_response (web url) (status, body) a
          ∙ ap₂ (λ n o. some (n, o)) (==→≡ status 200 s)
              (or_error-inr broken_body body c d ∙ ap (λ x. some x) e),
      l,
    )

read_capped-le : (o : Option Bytes) (b : Bytes) → read_capped o ≡ inr b → length b ≤ max_archive
unfolding read_capped
read_capped-le o b q =
    let (c, d, q1) = bind-inr (or_error broken_body o) (within max_archive) b q in
    let (e, l) = within-inr max_archive c b q1 in l

from_zip-le :
    (lib : Library) (ms : List Member) (b : Bytes)
    → from_zip lib ms ≡ inr b
    → length b ≤ max_archive
unfolding from_zip
from_zip-le lib [] b q = absurd (cc)
from_zip-le lib (m ∷ ms) b q =
    let name : Bytes = ascii_bytes "tuzy.exe" in
    elim (Bool-cases (is_binary lib name m)) [
      | inl h ↦ read_capped-le m.content b (rw h at q)
      | inr h ↦ from_zip-le lib ms b (rw h at q)
    ]

from_tar-le :
    (lib : Library) (t : Tar) (b : Bytes) → from_tar lib t ≡ inr b → length b ≤ max_archive
unfolding from_tar
from_tar-le lib tar_end b q = absurd (cc)
from_tar-le lib tar_error b q = absurd (cc)
from_tar-le lib (member m ms) b q =
    let name : Bytes = ascii_bytes "tuzy" in
    elim (Bool-cases (is_binary lib name m)) [
      | inl h ↦ read_capped-le m.content b (rw h at q)
      | inr h ↦ from_tar-le lib ms b (rw h at q)
    ]

extract-le :
    (lib : Library) (archive goos b : Bytes)
    → extract lib archive goos ≡ inr b
    → length b ≤ max_archive
unfolding extract
extract-le lib archive goos b q = elim (Bool-cases (is_windows goos)) [
  | inl h ↦
      let (ms, a, q1) =
        bind-inr (or_error bad_archive (lib.unzip archive)) (from_zip lib) b (rw h at q) in
      from_zip-le lib ms b q1
  | inr h ↦
      let (t, a, q1) =
        bind-inr (or_error bad_archive (lib.untar archive)) (from_tar lib) b (rw h at q) in
      from_tar-le lib t b q1
]

-- Why the bytes of a binary are trusted.
pub record IsTrusted (lib : Library) (web : Web) (u : Updater) (version binary : Bytes)
    : Type 0 where
  pub sums : Bytes
  pub raw : Bytes
  pub sum : Bytes
  pub archive : Bytes
  pub sums_fetched :
      web (release_dir u version ++ ascii_bytes "checksums.txt") ≡ some (200, some sums)
  pub sums_small : length sums ≤ max_checksum
  pub fetched : web (release_dir u version ++ asset_name u version) ≡ some (200, some archive)
  pub small : length archive ≤ max_archive
  pub signed : SignedBy lib u.keys sums raw
  pub whole : length raw ≡ 64
  pub listed : Lists (asset_name u version) sum (lines_onto [] sums)
  pub same : lib.hex (lib.sha256 archive) ≡ sum
  pub extracted : extract lib archive u.goos ≡ inr binary
  pub binary_small : length binary ≤ max_archive

verify_signature-SignedBy :
    (lib : Library) (keys : List Bytes) (sums sig : Bytes) (v : Unit {0})
    → verify_signature lib keys sums sig ≡ inr v
    → (raw : Bytes) × (length raw ≡ 64) × SignedBy lib keys sums raw
unfolding verify_signature verify_raw
verify_signature-SignedBy lib keys sums sig v q =
    let (raw, d, w) =
      bind-inr (or_error malformed_signature (lib.base64 (lib.trim_space sig)))
        (verify_raw lib keys sums) v q in
    let (l, s) =
      same_if (length raw == 64) malformed_signature
        (ok_if (is_signed lib keys sums raw) wrong_signature) v w in
    (
      raw,
      ==→≡ (length raw) 64 l,
      is_signed-SignedBy lib keys sums raw (ok_if-inr _ wrong_signature v s),
    )

-- The archive is that of the trusted sums.
archive-IsTrusted :
    (lib : Library) (web : Web) (u : Updater) (version sums raw binary : Bytes)
    → length raw ≡ 64
    → SignedBy lib u.keys sums raw
    → Fetched web (release_dir u version ++ ascii_bytes "checksums.txt") max_checksum sums
    → download_archive lib web u version sums ≡ inr binary
    → IsTrusted lib web u version binary
unfolding download_archive checksum_for Fetched
archive-IsTrusted lib web u version sums raw binary l s (f, g) q =
    let asset : Bytes = asset_name u version in
    let rest : Bytes → Bytes → Result Bytes = λ want archive.
      bind (ok_if (same_bytes (lib.hex (lib.sha256 archive)) want) sum_mismatch)
        λ checked. extract lib archive u.goos in
    let (sum, a, q1) =
      bind-inr (or_error not_listed (checksum_for sums asset))
        (λ want. bind (get web (release_dir u version ++ asset) max_archive) (rest want)) binary
        q in
    let (archive, b, q2) =
      bind-inr (get web (release_dir u version ++ asset) max_archive) (rest sum) binary q1 in
    let (c, d, q3) =
      bind-inr (ok_if (same_bytes (lib.hex (lib.sha256 archive)) sum) sum_mismatch)
        (λ checked. extract lib archive u.goos) binary q2 in
    let (e, m) = get-Fetched web (release_dir u version ++ asset) max_archive archive b in
    record {
      sums = sums;
      raw = raw;
      sum = sum;
      archive = archive;
      sums_fetched = f;
      sums_small = g;
      fetched = e;
      small = m;
      signed = s;
      whole = l;
      listed =
          first_sum-Lists asset sum (lines_onto [] sums)
            (or_error-inr not_listed (checksum_for sums asset) sum a);
      same = same_bytes→≡ (lib.hex (lib.sha256 archive)) sum (ok_if-inr _ sum_mismatch c d);
      extracted = q3;
      binary_small = extract-le lib archive u.goos binary q3;
    }

-- A binary that `Download` gives is taken out of the archive that the web has for this system, of at most 200 MiB,
-- and is itself at most as large; the SHA-256 of that archive stands, in lower case, in a line of checksums.txt with
-- the archive's name and nothing else; and those checksums, of at most 64 KiB, are what the web has for the version,
-- and a key of the build signed them.
pub download-IsTrusted :
    (lib : Library) (web : Web) (u : Updater) (version binary : Bytes)
    → download lib web u version ≡ inr binary
    → IsTrusted lib web u version binary
unfolding download
download-IsTrusted lib web u version binary q = elim (Bool-cases (is_nil u.keys)) [
  | inl empty ↦ absurd (no_key (rw empty at q))
  | inr keys ↦
      let dir : Bytes = release_dir u version in
      let after : Bytes → Bytes → Result Bytes = λ sums sig.
        bind (verify_signature lib u.keys sums sig)
          λ verified. download_archive lib web u version sums in
      let q0 : bind (get web (dir ++ ascii_bytes "checksums.txt") max_checksum)
            (λ sums. bind (get web (dir ++ ascii_bytes "checksums.txt.sig") 1024) (after sums))
          ≡ inr binary =
        rw keys at q in
      let (sums, a, q1) =
        bind-inr (get web (dir ++ ascii_bytes "checksums.txt") max_checksum)
          (λ sums. bind (get web (dir ++ ascii_bytes "checksums.txt.sig") 1024) (after sums)) binary
          q0 in
      let (sig, b, q2) =
        bind-inr (get web (dir ++ ascii_bytes "checksums.txt.sig") 1024) (after sums) binary q1 in
      let (v, c, q3) =
        bind-inr (verify_signature lib u.keys sums sig)
          (λ verified. download_archive lib web u version sums) binary q2 in
      let (raw, l, s) = verify_signature-SignedBy lib u.keys sums sig v c in
      archive-IsTrusted lib web u version sums raw binary l s
        (get-Fetched web (dir ++ ascii_bytes "checksums.txt") max_checksum sums a) q3
]
  where
    no_key : inl no_release_key ≡ inr binary → ⊥
    no_key e = cc
