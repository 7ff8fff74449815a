-- ===== src/Tunnel/Client/Backoff.antt =====
-- internal/tunnel/backoff.go: the delays between attempts, in nanoseconds. A draw of `rand` scaled to a
-- ceiling is a function of the ceiling; `strconv.Atoi` and `http.ParseTime` are parameters.
use tuzy.Shared.{
  ℕ, ◌*◌, ◌-◌, ◌%◌, ◌^◌, ◌≤◌, ◌<◌, ◌≡◌, sym, min, false, Option, none, some, Bool-cases, inl, inr,
  ltb, if◌then◌else◌, arith,
}
use Prim.Native.String.{String}
use text.Mathlib.Text.{◌==◌ as str_eq}
use native.Mathlib.Nat.{pow-le-pow_right, min-eq_left, min-eq_right, min-le_left, min-le_right}

-- A signed number: `negsuc n` is -(n + 1).
pub data ℤ : Type 0 where
  pos : ℕ → ℤ
  negsuc : ℕ → ℤ

-- The number that 64 bits stand for, as an int64.
abbrev pub signed64 : ℕ → ℤ
signed64 w = if ltb w (2 ^ 63) then pos w else negsuc (2 ^ 64 - w - 1)

abbrev pub backoff_base : ℕ
backoff_base = 250 * 10 ^ 6

abbrev pub backoff_max : ℕ
backoff_max = 30 * 10 ^ 9

abbrev pub restart_jitter : ℕ
restart_jitter = 3 * 10 ^ 9

-- The ceiling in `delay`. The shift of an int64 keeps 64 bits.
unfoldable pub ceiling : ℕ → ℕ
ceiling attempt =
    let d : ℕ = backoff_base * 2 ^ attempt % 2 ^ 64 in
    if ltb attempt 30 then (if ltb d backoff_max then d else backoff_max) else backoff_max

-- `delay`
unfoldable pub delay : (ℕ → ℕ) → ℕ → ℕ
delay draw attempt = draw (ceiling attempt)

-- `restart`
unfoldable pub restart : (ℕ → ℕ) → ℕ
restart draw = draw restart_jitter

-- The signed `min` of a duration and ten minutes.
abbrev pub ten_minutes : ℕ
ten_minutes = 600 * 10 ^ 9

unfoldable pub at_most_ten_minutes : ℤ → ℤ
at_most_ten_minutes (pos n) = if ltb ten_minutes n then pos ten_minutes else pos n
at_most_ten_minutes (negsuc n) = negsuc n

-- What `retryAfter` uses of the Go library. A time is in nanoseconds.
pub record TimeLib : Type 0 where
  pub atoi : String → Option ℤ
  pub parse_time : String → Option ℕ

-- A date that is to come.
retry_at : ℕ → Option ℕ → ℤ
unfolding at_most_ten_minutes
retry_at now none = pos 0
retry_at now (some t) = if ltb now t then at_most_ten_minutes (pos (t - now)) else pos 0

-- Seconds, or else a date. The product with `time.Second` keeps 64 bits.
retry_number : TimeLib → String → ℕ → Option ℤ → ℤ
unfolding retry_at at_most_ten_minutes
retry_number lib v now (some (pos secs)) = at_most_ten_minutes (signed64 (secs * 10 ^ 9 % 2 ^ 64))
retry_number lib v now _ = retry_at now (lib.parse_time v)

-- `retryAfter`, of the value of the header.
unfoldable pub retry_after : TimeLib → String → ℕ → ℤ
unfolding retry_number
retry_after lib v now = if str_eq v "" then pos 0 else retry_number lib v now (lib.atoi v)

-- The larger of the backoff's delay and the edge's wish, which may be negative.
unfoldable pub longer : ℕ → ℤ → ℕ
longer d (pos after) = if ltb d after then after else d
longer d (negsuc _) = d

large : (attempt : ℕ) → 7 ≤ attempt → backoff_max ≤ backoff_base * 2 ^ attempt
large attempt h = omega (arith, pow-le-pow_right {n = 2} (omega arith) h)

small : (attempt : ℕ) → attempt < 30 → backoff_base * 2 ^ attempt < 2 ^ 63
small attempt h =
    let l : attempt ≤ 29 = omega arith in omega (arith, pow-le-pow_right {n = 2} (omega arith) l)

fits :
    (d : ℕ)
    → d < 2 ^ 63
    → (if ltb (d % 2 ^ 64) backoff_max then d % 2 ^ 64 else backoff_max) ≡ min backoff_max d
fits d h = elim (Bool-cases (ltb d backoff_max)) [
  | inl x ↦ let l : d ≤ backoff_max = ground (arith, x) in ground (arith, min-eq_right l)
  | inr x ↦ let l : backoff_max ≤ d = ground (arith, x) in ground (arith, min-eq_left l)
]

-- The ceiling is the least of thirty seconds and 250 ms · 2^attempt, for every number of attempts: the
-- test that stops the shift at 30 loses nothing, and no shift that is made leaves the int64.
pub ceiling_lem : (attempt : ℕ) → ceiling attempt ≡ min backoff_max (backoff_base * 2 ^ attempt)
unfolding ceiling
ceiling_lem attempt = elim (Bool-cases (ltb attempt 30)) [
  | inl few ↦ rw few (fits (backoff_base * 2 ^ attempt) (small attempt (ground (arith, few))))
  | inr many ↦ rw many (sym (min-eq_left (large attempt (ground (arith, many)))))
]

-- However it draws, a delay is at most the ceiling; with no answer from the edge it is so at most thirty
-- seconds.
pub delay-le :
    (draw : ℕ → ℕ) (attempt : ℕ)
    → ((c : ℕ) → draw c ≤ c)
    → (delay draw attempt ≤ backoff_max) × (delay draw attempt ≤ backoff_base * 2 ^ attempt)
unfolding delay
delay-le draw attempt h =
    let e = ceiling_lem attempt in
    let l = h (ceiling attempt) in
    (
      omega (arith, l, e, min-le_left backoff_max (backoff_base * 2 ^ attempt)),
      omega (arith, l, e, min-le_right backoff_max (backoff_base * 2 ^ attempt)),
    )

-- What the edge asks for by Retry-After is never honoured beyond ten minutes; an absent header, and one
-- that is neither a number nor a date to come, asks for nothing.
pub retry_after_bounds :
    (lib : TimeLib) (v : String) (now : ℕ) → (longer 0 (retry_after lib v now) ≤ ten_minutes)
unfolding retry_after longer
retry_after_bounds lib v now = ground arith

-- A number of seconds up to 2^63 / 10^9 is taken as it is, up to ten minutes.
pub retry_after-seconds :
    (lib : TimeLib) (v : String) (now secs : ℕ)
    → (str_eq v "" ≡ false)
    → lib.atoi v ≡ some (pos secs)
    → secs * 10 ^ 9 < 2 ^ 63
    → retry_after lib v now ≡ pos (min (secs * 10 ^ 9) ten_minutes)
unfolding retry_after longer
retry_after-seconds lib v now secs e a h = ground arith

-- A number of seconds between 2^63 and 2^64 nanoseconds wraps round to a negative duration, so that whatever the
-- backoff's own delay is, the edge's wish does not lengthen it.
pub retry_after_wraps :
    (lib : TimeLib) (v : String) (now secs d : ℕ)
    → (str_eq v "" ≡ false)
    → lib.atoi v ≡ some (pos secs)
    → 2 ^ 63 ≤ secs * 10 ^ 9
    → secs * 10 ^ 9 < 2 ^ 64
    → longer d (retry_after lib v now) ≡ d
unfolding retry_after longer
retry_after_wraps lib v now secs d e a l h = ground arith
