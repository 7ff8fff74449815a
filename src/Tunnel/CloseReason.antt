-- ===== src/Tunnel/CloseReason.antt =====
-- internal/tunnel/ws_stream.go: `sendableCode`, `truncateReason` and `localCloseStatus`. A range over a
-- string goes from one UTF-8 sequence to the next, and steps over one byte where there is none.
pub mod Cut
mod Tests
use tuzy.Shared.{
  ℕ, zero, suc, ◌+◌, ◌-◌, ◌≤◌, ◌<◌, ◌≡◌, ◌⊎◌, ◌≢◌, Bool, true, false, ◌&&◌, ◌||◌, List, [], ◌∷◌,
  ◌++◌, ltb, leb, ◌==◌, if◌then◌else◌, length, take, drop, arith,
}
use Prim.Native.Char.{code}
use Prim.Native.String.{String}
use Prim.Native.String
use tuzy.Protocol.{Bytes}
use tuzy.Tunnel.Calls.{CloseMsg}

-- The bytes of an ASCII text.
abbrev pub ascii_bytes : String → Bytes
ascii_bytes String.[] = []
ascii_bytes (String.◌∷◌ c s) = code c ∷ ascii_bytes s

unfoldable pub sendable_code : ℕ → ℕ
sendable_code c =
    if ltb c 1000 || ltb 4999 c || c == 1004 || c == 1005 || c == 1006 || c == 1015 then 1000 else c

between : ℕ → ℕ → ℕ → Bool
between lo hi b = leb lo b && leb b hi

is_cont : ℕ → Bool
unfolding between
is_cont b = between 0x80 0xbf b

-- The length of a UTF-8 sequence by its first byte, 1 also where it can be none, and the range of the second byte.
unfoldable pub lead_width : ℕ → ℕ
unfolding between
lead_width a =
    if between 0xc2 0xdf a
    then 2
    else if between 0xe0 0xef a
    then 3
    else if between 0xf0 0xf4 a
    then 4
    else 1

is_second : ℕ → ℕ → Bool
unfolding between
is_second a b =
    between (if a == 0xe0 then 0xa0 else if a == 0xf0 then 0x90 else 0x80)
      (if a == 0xed then 0x9f else if a == 0xf4 then 0x8f else 0xbf) b

all_conts : ℕ → Bytes → Bool
unfolding is_cont
all_conts zero t = true
all_conts (suc n) [] = false
all_conts (suc n) (b ∷ t) = is_cont b && all_conts n t

unfoldable pub follows : ℕ → ℕ → Bytes → Bool
unfolding is_second all_conts
follows w a [] = w == 1
follows w a (b ∷ t) = w == 1 || is_second a b && all_conts (w - 2) t

-- The bytes of the UTF-8 sequence that a text begins with; 1 where it begins with none.
unfoldable pub rune_width : Bytes → ℕ
unfolding lead_width follows
rune_width [] = 1
rune_width (a ∷ t) = if follows (lead_width a) a t then lead_width a else 1

abbrev pub reason_limit : ℕ
reason_limit = 120

-- `for i := range s`: `i` is where the next sequence begins, `cut` where the last one within the limit
-- did. Each round passes a byte at least, so `length` rounds are enough.
unfoldable pub cut_loop : ℕ → ℕ → ℕ → Bytes → ℕ
cut_loop fuel i cut [] = cut
cut_loop zero i cut (b ∷ bs) = cut
cut_loop (suc fuel) i cut (b ∷ bs) =
    let w : ℕ = rune_width (b ∷ bs) in
    let rest = cut_loop fuel (i + w) i (drop w (b ∷ bs)) in if ltb reason_limit i then cut else rest

unfoldable pub truncate_reason : Bytes → Bytes
unfolding cut_loop rune_width
truncate_reason s = if leb (length s) reason_limit then s else take (cut_loop (length s) 0 0 s) s

-- The error of a read from the local socket.
pub data LocalError : Type 0 where
  close_error : CloseMsg → LocalError
  too_big other_error : LocalError

unfoldable pub local_close_status : LocalError → CloseMsg
local_close_status (close_error c) = c
local_close_status too_big = record { code = 1009; reason = ascii_bytes "message too big" }
local_close_status other_error = record {
  code = 1001;
  reason = ascii_bytes "local app closed the connection";
}

-- A code that may stand in a close frame (RFC 6455 §7.4).
abbrev pub IsSendable : ℕ → Type 0
IsSendable c = (1000 ≤ c) × (c ≤ 4999) × (c ≢ 1004) × (c ≢ 1005) × (c ≢ 1006) × (c ≢ 1015)

-- The code that is sent is always one that may stand in a close frame.
pub sendable_code-IsSendable : (c : ℕ) → IsSendable (sendable_code c)
unfolding sendable_code
sendable_code-IsSendable c = ground arith

pub sendable_code_self : (c : ℕ) → IsSendable c → sendable_code c ≡ c
unfolding sendable_code
sendable_code_self c h = ground arith
