-- ===== src/Update/Notice.antt =====
-- internal/update/notice.go: `RefreshNotice` and `PendingNotice`, over the cache file. The first reads the file, looks
-- up the latest release, and writes the file: two steps, with those of other calls between them. Times are in
-- nanoseconds.
use tuzy.Shared.{
  ℕ, zero, suc, ◌++◌, ◌-◌, ◌*◌, ◌^◌, Bool, ◌||◌, not, Option, none, some, List, [], ◌∷◌, ltb,
  if◌then◌else◌,
}
use tuzy.Protocol.{Bytes}
use tuzy.Update.{Semver, Updater, newer}

abbrev pub notice_interval : ℕ
notice_interval = 24 * 3600 * 10 ^ 9

-- `noticeCache`; a text that is empty is none.
pub record Cache : Type 0 where
  pub checked_at : ℕ
  pub latest : Option Bytes
  pub notified_at : ℕ

-- `now.Sub(t) < NoticeInterval`, which holds of a time to come too.
abbrev pub is_recent : ℕ → ℕ → Bool
is_recent now t = ltb (now - t) notice_interval

-- `RefreshNotice`, by the answer of `Latest`.
abbrev pub learned : Option Bytes → Option Bytes → Option Bytes
learned none old = old
learned (some v) old = some v

-- A call of `RefreshNotice` that has read the cache and waits for the lookup.
pub record Flight : Type 0 where
  pub now : ℕ
  pub read : Cache

-- The cache file, and the calls of `RefreshNotice` that are under way.
pub record Notices : Type 0 where
  pub cache : Cache
  pub flights : List Flight

-- `RefreshNotice` up to the lookup.
unfoldable pub start_refresh : ℕ → Notices → Notices
start_refresh now s =
    if is_recent now s.cache.checked_at
    then s
    else record s { flights = s.flights ++ record { now = now; read = s.cache } ∷ [] }

-- `RefreshNotice` from the lookup on, by the answer of `Latest`: it writes what it read back, changed. The Boolean
-- says if the cache could be written.
unfoldable pub end_refresh : Option Bytes → Bool → Cache → Flight → Cache
end_refresh latest saved c f =
    if saved then record f.read { checked_at = f.now; latest = learned latest f.read.latest } else c

-- The call under way with this index, and the others.
abbrev pub take_at : ℕ → List Flight → Option (Flight × List Flight)
take_at n [] = none
take_at zero (f ∷ fs) = some (f, fs)
take_at (suc n) (f ∷ fs) = elim (take_at n fs) [ none ↦ none | some (g, gs) ↦ some (g, f ∷ gs) ]

-- `PendingNotice`: the cache after it, and the version that it tells of. The Boolean says if the cache could
-- be written.
unfoldable pub pending : Semver → Updater → ℕ → Bool → Cache → Option Bytes → Cache × Option Bytes
pending lib u now saved c none = (c, none)
pending lib u now saved c (some v) =
    if not (newer lib u v) || is_recent now c.notified_at
    then (c, none)
    else (if saved then record c { notified_at = now } else c, some v)

unfoldable pub pending_notice : Semver → Updater → ℕ → Bool → Cache → Cache × Option Bytes
unfolding pending
pending_notice lib u now saved c = pending lib u now saved c c.latest

-- What the runs of the program do with the cache: a call of `RefreshNotice` starts, or the one with this index ends; a
-- call of `PendingNotice` is one step. The Booleans say if the cache could be written.
pub data Call : Type 0 where
  starts : ℕ → Call
  ends : ℕ → Option Bytes → Bool → Call
  asks : ℕ → Bool → Call

unfoldable pub land : Option Bytes → Bool → Notices → Option (Flight × List Flight) → Notices
unfolding end_refresh
land latest saved s none = s
land latest saved s (some (f, fs)) = record {
  cache = end_refresh latest saved s.cache f;
  flights = fs;
}

-- One call, with the version that the user is told.
unfoldable pub call : Semver → Updater → Notices → Call → Notices × Option Bytes
unfolding start_refresh land pending_notice
call lib u s (starts now) = (start_refresh now s, none)
call lib u s (ends n latest saved) = (land latest saved s (take_at n s.flights), none)
call lib u s (asks now saved) =
    let (c, v) : Cache × Option Bytes = pending_notice lib u now saved s.cache in
    (record s { cache = c }, v)

abbrev pub time_of : Call → ℕ
time_of (starts now) = now
time_of (ends n latest saved) = 0
time_of (asks now saved) = now

abbrev pub told_at : ℕ → Option Bytes → List ℕ → List ℕ
told_at now none rest = rest
told_at now (some v) rest = now ∷ rest

-- The calls in their order, and the times at which the user was told.
unfoldable pub told : Semver → Updater → Notices → List Call → List ℕ
unfolding call
told lib u s [] = []
told lib u s (c ∷ cs) =
    let (s', v) : Notices × Option Bytes = call lib u s c in
    let rest : List ℕ = told lib u s' cs in told_at (time_of c) v rest
