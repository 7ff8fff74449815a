-- ===== src/Update/Rollback.antt =====
-- No update loses the binary.
use tuzy.Shared.{
  if_both, ==_refl, append_assoc, ℕ, zero, suc, ◌≡◌, ◌≢◌, refl, sym, ap, subst, ◌∙◌, Bool, true,
  false, Option, none, some, [], ◌∷◌, ◌++◌, same_bytes, same_bytes_refl, not_same→≢, ≢→not_same,
  starts_with, if◌then◌else◌,
}
use tuzy.Protocol.{Bytes}
use tuzy.Tunnel.CloseReason.{ascii_bytes}
use tuzy.Update.{Updater, is_windows}
use tuzy.Update.Swap.{
  Disk, Moods, put, renamed, rename, or_retry, retry, is_old, cleanup_old, Outcome, installed,
  failed_to_swap, no_executable, no_room, broken_binary, previous_at, after_back, after_new,
  after_old, after_rename, old_name, swap, Machine, reports, remove_tmp, install_over, install,
}

put_same : (p : Bytes) (v : Option Bytes) (d : Disk) → put p v d p ≡ v
unfolding put
put_same p v d = rw (same_bytes_refl p) refl

put_other : (p q : Bytes) (v : Option Bytes) (d : Disk) → q ≢ p → put p v d q ≡ d q
unfolding put
put_other p q v d n = rw (≢→not_same q p n) refl

-- A file that was renamed, or a disk as before.
abbrev Moved : Bytes → Bytes → Disk → Bool × Disk × Moods → Type 0
Moved from to d (true, d', ms) =
    (c : Bytes) × (d from ≡ some c) × (d' ≡ put to (some c) (put from none d))
Moved from to d (false, d', ms) = d' ≡ d

renamed-Moved :
    (from to : Bytes) (o : Option Bytes) (d : Disk) (ms : Moods)
    → d from ≡ o
    → Moved from to d ((renamed from to o d).0, (renamed from to o d).1, ms)
unfolding renamed
renamed-Moved from to none d ms q = refl
renamed-Moved from to (some c) d ms q = (c, q, refl)

rename-Moved : (from to : Bytes) (d : Disk) (ms : Moods) → Moved from to d (rename from to d ms)
unfolding rename
rename-Moved from to d [] = refl
rename-Moved from to d (false ∷ ms) = refl
rename-Moved from to d (true ∷ ms) = renamed-Moved from to (d from) d ms refl

or_retry-Moved :
    (from to : Bytes) (d : Disk) (again : Disk → Moods → Bool × Disk × Moods)
    (r : Bool × Disk × Moods)
    → ((ms : Moods) → Moved from to d (again d ms))
    → Moved from to d r
    → Moved from to d (or_retry again r)
unfolding or_retry
or_retry-Moved from to d again (true, d', ms) f m = m
or_retry-Moved from to d again (false, d', ms) f m =
    subst (λ x. Moved from to d (again x ms)) (sym m) (f ms)

retry-Moved :
    (n : ℕ) (from to : Bytes) (d : Disk) (ms : Moods) → Moved from to d (retry n from to d ms)
unfolding retry
retry-Moved zero from to d ms = refl
retry-Moved (suc n) from to d ms =
    or_retry-Moved from to d (retry n from to) (rename from to d ms) (retry-Moved n from to d)
      (rename-Moved from to d ms)

-- The new binary is in place, or the one before is still there, or where the error says.
abbrev pub Keeps : Bytes → Bytes → Bytes → Bytes → Outcome × Disk → Type 0
Keeps exe old current new (installed, d) = d exe ≡ some new
Keeps exe old current new (previous_at p, d) = (p ≡ old) × (d old ≡ some current)
Keeps exe old current new (failed_to_swap, d) = d exe ≡ some current
Keeps exe old current new (no_executable, d) = d exe ≡ some current
Keeps exe old current new (no_room, d) = d exe ≡ some current
Keeps exe old current new (broken_binary, d) = d exe ≡ some current

module _ (exe tmp old current new : Bytes) (exe_tmp : exe ≢ tmp) (exe_old : exe ≢ old)
    (old_tmp : old ≢ tmp) where
  after_back-Keeps :
      (d : Disk) (r : Bool × Disk × Moods)
      → d old ≡ some current
      → Moved old exe d r
      → Keeps exe old current new (after_back old r)
  unfolding after_back
  after_back-Keeps d (true, d', ms) q (c, p, e) =
      ap (λ (x : Disk). x exe) e ∙ put_same exe (some c) (put old none d) ∙ sym p ∙ q
  after_back-Keeps d (false, d', ms) q e = (refl, ap (λ (x : Disk). x old) e ∙ q)

  after_new-Keeps :
      (d : Disk) (r : Bool × Disk × Moods)
      → d old ≡ some current
      → d tmp ≡ some new
      → Moved tmp exe d r
      → Keeps exe old current new (after_new exe old r)
  unfolding after_new
  after_new-Keeps d (true, d', ms) q t (c, p, e) =
      ap (λ (x : Disk). x exe) e ∙ put_same exe (some c) (put tmp none d) ∙ sym p ∙ t
  after_new-Keeps d (false, d', ms) q t e =
      after_back-Keeps d' (retry 5 old exe d' ms) (ap (λ (x : Disk). x old) e ∙ q)
        (retry-Moved 5 old exe d' ms)

  after_old-Keeps :
      (d : Disk) (r : Bool × Disk × Moods)
      → d exe ≡ some current
      → d tmp ≡ some new
      → Moved exe old d r
      → Keeps exe old current new (after_old exe tmp old r)
  unfolding after_old
  after_old-Keeps d (false, d', ms) q t e = ap (λ (x : Disk). x exe) e ∙ q
  after_old-Keeps d (true, d', ms) q t (c, p, e) =
      after_new-Keeps d' (retry 5 tmp exe d' ms)
        (ap (λ (x : Disk). x old) e ∙ put_same old (some c) (put exe none d) ∙ sym p ∙ q)
        (ap (λ (x : Disk). x tmp) e
          ∙ put_other old tmp (some c) (put exe none d) (λ s. old_tmp (sym s))
          ∙ put_other exe tmp none d (λ s. exe_tmp (sym s))
          ∙ t)
        (retry-Moved 5 tmp exe d' ms)

  after_rename-Keeps :
      (d : Disk) (r : Bool × Disk × Moods)
      → d exe ≡ some current
      → d tmp ≡ some new
      → Moved tmp exe d r
      → Keeps exe old current new (after_rename r)
  unfolding after_rename
  after_rename-Keeps d (true, d', ms) q t (c, p, e) =
      ap (λ (x : Disk). x exe) e ∙ put_same exe (some c) (put tmp none d) ∙ sym p ∙ t
  after_rename-Keeps d (false, d', ms) q t e = ap (λ (x : Disk). x exe) e ∙ q

  -- The removal of the temporary file touches neither.
  remove_tmp-Keeps :
      (r : Outcome × Disk)
      → Keeps exe old current new r
      → Keeps exe old current new (remove_tmp tmp r)
  unfolding remove_tmp
  remove_tmp-Keeps (installed, d) k = put_other tmp exe none d exe_tmp ∙ k
  remove_tmp-Keeps (previous_at p, d) (e, k) = (e, put_other tmp old none d old_tmp ∙ k)
  remove_tmp-Keeps (failed_to_swap, d) k = put_other tmp exe none d exe_tmp ∙ k
  remove_tmp-Keeps (no_executable, d) k = put_other tmp exe none d exe_tmp ∙ k
  remove_tmp-Keeps (no_room, d) k = put_other tmp exe none d exe_tmp ∙ k
  remove_tmp-Keeps (broken_binary, d) k = put_other tmp exe none d exe_tmp ∙ k

-- A name that goes on after another is not that name.
starts_with_self : (a b : Bytes) → starts_with a (a ++ b) ≡ true
starts_with_self [] b = refl
starts_with_self (x ∷ a) b = rw (==_refl x) (starts_with_self a b)

starts_with_longer : (a : Bytes) (b : ℕ) (c : Bytes) → starts_with (a ++ b ∷ c) a ≡ false
starts_with_longer [] b c = refl
starts_with_longer (x ∷ a) b c = rw (==_refl x) (starts_with_longer a b c)

is_old-exe : (exe : Bytes) → is_old exe exe ≡ false
unfolding is_old
is_old-exe exe = starts_with_longer exe 46 (111 ∷ 108 ∷ 100 ∷ 45 ∷ [])

is_old-old_name : (exe random : Bytes) → is_old exe (old_name exe random) ≡ true
unfolding is_old
is_old-old_name exe random =
    ap (starts_with (exe ++ ascii_bytes ".old-"))
      (sym (append_assoc exe (ascii_bytes ".old-") random))
    ∙ starts_with_self (exe ++ ascii_bytes ".old-") random

not_old→≢ : (exe random p : Bytes) → is_old exe p ≡ false → old_name exe random ≢ p
not_old→≢ exe random p q e =
    absurd (clash (sym (is_old-old_name exe random) ∙ ap (is_old exe) e ∙ q))
  where
    clash : true ≡ false → ⊥
    clash x = cc

cleanup_old-stays :
    (exe p : Bytes) (removable : Bytes → Bool) (d : Disk)
    → is_old exe p ≡ false
    → cleanup_old exe removable d p ≡ d p
unfolding cleanup_old
cleanup_old-stays exe p removable d q = rw q refl

module _ (u : Updater) (tmp random current new : Bytes) (exe_tmp : same_bytes u.exe tmp ≡ false)
    (tmp_old : is_old u.exe tmp ≡ false) where
  apart : u.exe ≢ tmp
  apart = not_same→≢ u.exe tmp exe_tmp

  swap-Keeps :
      (w : Bool) (removable : Bytes → Bool) (d : Disk) (ms : Moods)
      → d u.exe ≡ some current
      → d tmp ≡ some new
      → Keeps u.exe (old_name u.exe random) current new (swap w u.exe tmp random removable d ms)
  unfolding swap
  swap-Keeps false removable d ms q t =
      after_rename-Keeps u.exe tmp (old_name u.exe random) current new apart
        (λ e. not_old→≢ u.exe random u.exe (is_old-exe u.exe) (sym e))
        (not_old→≢ u.exe random tmp tmp_old) d (rename tmp u.exe d ms) q t
        (rename-Moved tmp u.exe d ms)
  swap-Keeps true removable d ms q t =
      let old : Bytes = old_name u.exe random in
      let d' : Disk = cleanup_old u.exe removable d in
      after_old-Keeps u.exe tmp old current new apart
        (λ e. not_old→≢ u.exe random u.exe (is_old-exe u.exe) (sym e))
        (not_old→≢ u.exe random tmp tmp_old) d' (retry 5 u.exe old d' ms)
        (cleanup_old-stays u.exe u.exe removable d (is_old-exe u.exe) ∙ q)
        (cleanup_old-stays u.exe tmp removable d tmp_old ∙ t) (retry-Moved 5 u.exe old d' ms)

  installs_over-Keeps :
      (m : Machine) (version : Bytes) (d : Disk)
      → d u.exe ≡ some current
      → Keeps u.exe
          (old_name u.exe random)
          current
          new
          (install_over m u tmp random new version (some current) d)
  unfolding install_over
  installs_over-Keeps m version d q =
      let old : Bytes = old_name u.exe random in
      let d' : Disk = put tmp (some new) d in
      let q' : d' u.exe ≡ some current = put_other tmp u.exe (some new) d apart ∙ q in
      let K : Outcome × Disk → Type 0 = Keeps u.exe old current new in
      let s : Outcome × Disk = swap (is_windows u.goos) u.exe tmp random m.removable d' m.moods in
      if_both K m.can_write
        (remove_tmp tmp (if reports version (m.output new) then s else (broken_binary, d')))
        (no_room, d)
        (remove_tmp-Keeps u.exe tmp old current new apart
          (λ e. not_old→≢ u.exe random u.exe (is_old-exe u.exe) (sym e))
          (not_old→≢ u.exe random tmp tmp_old)
          (if reports version (m.output new) then s else (broken_binary, d'))
          (if_both K (reports version (m.output new)) s (broken_binary, d')
            (swap-Keeps (is_windows u.goos) m.removable d' m.moods q' (put_same tmp (some new) d))
            q'))
        q

  -- Whatever the machine lets happen and in whatever order it fails: after `Install` the executable is the new
  -- binary if it reports success, and the one before otherwise, or that is at the name which the error gives.
  -- It needs a temporary name that is neither the executable's nor that of an old one.
  pub install-Keeps :
      (m : Machine) (version : Bytes) (d : Disk)
      → d u.exe ≡ some current
      → Keeps u.exe (old_name u.exe random) current new (install m u tmp random new version d)
  unfolding install
  install-Keeps m version d q =
      subst
        (λ o.
          Keeps u.exe (old_name u.exe random) current new
            (install_over m u tmp random new version o d))
        (sym q) (installs_over-Keeps m version d q)
