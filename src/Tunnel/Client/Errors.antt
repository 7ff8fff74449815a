-- ===== src/Tunnel/Client/Errors.antt =====
-- Which answers of the edge end the program, and which are tried again.
use tuzy.Shared.{
  ℕ, ◌≡◌, Bool, false, ◌&&◌, ◌||◌, not, Option, none, some, List, [], ◌∷◌, leb, ◌==◌, if◌then◌else◌,
  arith,
}
use Prim.Native.String.{String}
use text.Mathlib.Text.{◌==◌ as str_eq}
use tuzy.Tunnel.Session.{Goaway}
use tuzy.Tunnel.Client.Backoff.{ℤ, TimeLib, retry_after}
use tuzy.Tunnel.Client.Dialing.{
  ExitError, ConnectError, retry, renamed, exit, Refusal, status_error, goaway_exit,
}

-- What `Run` is told to do, with the status and the code of an exit.
pub data Advice : Type 0 where
  try_again : ℤ → Advice
  move : String → ℕ → String → Advice
  stop : ℕ → String → Advice

abbrev pub advice_of : ConnectError → Advice
advice_of (retry after e) = try_again after
advice_of (renamed name e) = move name e.status e.code
advice_of (exit e) = stop e.status e.code

-- Too many requests and every server error are tried again, after as long as the edge asks; a name that
-- moved is followed where the edge says to where; all else ends the program, with the status and the
-- code of the answer.
abbrev pub contract : TimeLib → ℕ → Refusal → Advice
contract lib now r =
    if r.status_code == 429 || leb 500 r.status_code
    then try_again (retry_after lib r.retry_header now)
    else if r.status_code == 410 && not (str_eq r.body.new_name "")
    then move r.body.new_name r.status_code r.body.code
    else stop r.status_code r.body.code

-- `statusError` keeps the contract for every status, body and header of the answer.
pub status_error-contract :
    (lib : TimeLib) (now : ℕ) (name : String) (r : Refusal)
    → advice_of (status_error lib now name r) ≡ contract lib now r
unfolding status_error
status_error-contract lib now name r = ground arith

-- The reasons after which an agent must not come back.
abbrev pub terminal_reasons : List String
terminal_reasons = "upgrade_required" ∷ "replaced" ∷ "deleted" ∷ "suspended" ∷ "revoked" ∷ []

abbrev pub listed : String → List String → Bool
listed s [] = false
listed s (t ∷ ts) = str_eq s t || listed s ts

abbrev pub code_of : Option ExitError → Option (ℕ × String)
code_of none = none
code_of (some e) = some (e.status, e.code)

-- `goawayExit` ends the program just for the five terminal reasons, with the reason as the code; for
-- "restart", "renamed" and every reason that it does not know it does not.
pub goaway_exit-listed :
    (g : Goaway)
    → code_of (goaway_exit g)
      ≡ (if listed g.reason terminal_reasons then some (0, g.reason) else none)
unfolding goaway_exit
goaway_exit-listed g = ground arith
