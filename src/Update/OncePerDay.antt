-- ===== src/Update/OncePerDay.antt =====
-- The notice of an update.
use tuzy.Shared.{
  ℕ, ◌+◌, ◌-◌, ◌≤◌, ◌≡◌, refl, sym, zero, suc, All, All-append, Bool, subst, inl, inr, true,
  Bool-cases, Option, none, some, List, [], ◌∷◌, not_ltb→le, if_both, arith,
}
use tuzy.Protocol.{Bytes}
use tuzy.Update.{Semver, Updater, newer}
use tuzy.Update.Notice.{
  notice_interval, Cache, is_recent, start_refresh, end_refresh, take_at, land, call, Flight,
  Notices, starts, ends, pending, pending_notice, Call, asks, told_at, told,
}

-- Times a day apart, the first a day after the last one before.
abbrev pub Spaced : ℕ → List ℕ → Type 0
Spaced last [] = Unit {0}
Spaced last (t ∷ ts) = (last + notice_interval ≤ t) × Spaced t ts

-- No question falls between the two steps of a lookup, and each that tells of an update can be written down.
abbrev pub IsApart : Semver → Updater → Notices → List Call → Type 0
IsApart lib u s [] = Unit {0}
IsApart lib u s (starts now ∷ cs) = IsApart lib u (call lib u s (starts now)).0 cs
IsApart lib u s (ends n latest saved ∷ cs) = IsApart lib u (call lib u s (ends n latest saved)).0 cs
IsApart lib u s (asks now saved ∷ cs) =
    (s.flights ≡ []) × (saved ≡ true) × IsApart lib u (call lib u s (asks now saved)).0 cs

-- The calls under way read the time of the last notice that the file has.
abbrev Fresh : ℕ → List Flight → Type 0
Fresh last fs = All (λ (f : Flight). f.read.notified_at ≡ last) fs

-- The file has the time of the last notice, and no call under way will undo it.
abbrev IsTold : ℕ → Notices → Type 0
IsTold last s = (s.cache.notified_at ≡ last) × Fresh last s.flights

start_refresh-IsTold :
    (now last : ℕ) (s : Notices) → IsTold last s → IsTold last (start_refresh now s)
unfolding start_refresh
start_refresh-IsTold now last s (t, f) =
    if_both (IsTold last) (is_recent now s.cache.checked_at) s _ (t, f)
      (
        t,
        All-append (λ (g : Flight). g.read.notified_at ≡ last) s.flights
            (record { now = now; read = s.cache } ∷ []) f (t, tt),
      )

-- A call that is taken out was fresh, and so are the others.
Taken : ℕ → Option (Flight × List Flight) → Type 0
Taken last none = Unit {0}
Taken last (some (f, fs)) = (f.read.notified_at ≡ last) × Fresh last fs

take_at-Taken : (last n : ℕ) (fs : List Flight) → Fresh last fs → Taken last (take_at n fs)
unfolding Taken
take_at-Taken last n [] h = tt
take_at-Taken last zero (f ∷ fs) h = (h.0, h.1)
take_at-Taken last (suc n) (f ∷ fs) (h, hs) = keep (take_at n fs) (take_at-Taken last n fs hs)
  where
    keep :
        (o : Option (Flight × List Flight))
        → Taken last o
        → Taken last (elim o [ none ↦ none | some (g, gs) ↦ some (g, f ∷ gs) ])
    keep none k = tt
    keep (some (g, gs)) (k, ks) = (k, (h, ks))

land-IsTold :
    (last : ℕ) (latest : Option Bytes) (saved : Bool) (s : Notices)
    (o : Option (Flight × List Flight))
    → IsTold last s
    → Taken last o
    → IsTold last (land latest saved s o)
unfolding land end_refresh Taken
land-IsTold last latest saved s none h t = h
land-IsTold last latest saved s (some (f, fs)) (h, k) (t, ts) =
    (if_both (λ (c : Cache). c.notified_at ≡ last) saved _ s.cache t h, ts)

-- Nothing is told, or a newer version, a day after the last time.
Told : Semver → Updater → ℕ → Cache → Cache × Option Bytes → Type 0
Told lib u now c (c', none) = c'.notified_at ≡ c.notified_at
Told lib u now c (c', some v) =
    (c'.notified_at ≡ now) × (c.notified_at + notice_interval ≤ now) × (newer lib u v ≡ true)

pending-Told :
    (lib : Semver) (u : Updater) (now : ℕ) (c : Cache) (o : Option Bytes)
    → Told lib u now c (pending lib u now true c o)
unfolding pending Told
pending-Told lib u now c none = refl
pending-Told lib u now c (some v) = elim (Bool-cases (newer lib u v)) [
  | inr old ↦ rw old refl
  | inl new ↦ elim (Bool-cases (is_recent now c.notified_at)) [
    | inl recent ↦ rw (new, recent) refl
    | inr late ↦
        rw (new, late)
          (
            refl,
            spaced (now - c.notified_at) (not_ltb→le (now - c.notified_at) notice_interval late)
                refl,
            new,
          )
  ]
]
  where
    spaced :
        (k : ℕ)
        → notice_interval ≤ k
        → k ≡ now - c.notified_at
        → c.notified_at + notice_interval ≤ now
    spaced k h e = omega (arith, h, e)

told_at-Spaced :
    (lib : Semver) (u : Updater) (now : ℕ) (c : Cache) (r : Cache × Option Bytes) (rest : List ℕ)
    → Told lib u now c r
    → Spaced r.0.notified_at rest
    → Spaced c.notified_at (told_at now r.1 rest)
unfolding Told
told_at-Spaced lib u now c (c', none) rest t s = subst (λ l. Spaced l rest) t s
told_at-Spaced lib u now c (c', some v) rest (n, d, w) s = (d, subst (λ l. Spaced l rest) n s)

IsApart-Spaced :
    (lib : Semver) (u : Updater) (cs : List Call) (s : Notices) (last : ℕ)
    → IsApart lib u s cs
    → IsTold last s
    → Spaced last (told lib u s cs)
unfolding told call pending_notice
IsApart-Spaced lib u [] s last a h = tt
IsApart-Spaced lib u (starts now ∷ cs) s last a h =
    IsApart-Spaced lib u cs (start_refresh now s) last a (start_refresh-IsTold now last s h)
IsApart-Spaced lib u (ends n latest saved ∷ cs) s last a h =
    IsApart-Spaced lib u cs (land latest saved s (take_at n s.flights)) last a
      (land-IsTold last latest saved s (take_at n s.flights) h (take_at-Taken last n s.flights h.1))
IsApart-Spaced lib u (asks now saved ∷ cs) s last (none_under_way, w, a) (t, f) =
    let r : Cache × Option Bytes = pending lib u now saved s.cache s.cache.latest in
    let p : Told lib u now s.cache r =
      subst (λ b. Told lib u now s.cache (pending lib u now b s.cache s.cache.latest)) (sym w)
        (pending-Told lib u now s.cache s.cache.latest) in
    let rest =
      IsApart-Spaced lib u cs (record s { cache = r.0 }) r.0.notified_at a
        (refl, subst (Fresh r.0.notified_at) (sym none_under_way) tt) in
    subst (λ l. Spaced l (told_at now r.1 (told lib u (record s { cache = r.0 }) cs))) t
      (told_at-Spaced lib u now s.cache r (told lib u (record s { cache = r.0 }) cs) p rest)

-- Whatever the clock says, the user is told of an update at most once in 24 hours, if no question falls between the
-- read and the write of a lookup and the cache can be written at each question. A question's own read and write are
-- one step.
pub told-Spaced :
    (lib : Semver) (u : Updater) (cs : List Call) (c : Cache)
    → IsApart lib u (record { cache = c; flights = [] }) cs
    → Spaced c.notified_at (told lib u (record { cache = c; flights = [] }) cs)
told-Spaced lib u cs c a =
    IsApart-Spaced lib u cs (record { cache = c; flights = [] }) c.notified_at a (refl, tt)
