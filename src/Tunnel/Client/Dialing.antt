-- ===== src/Tunnel/Client/Dialing.antt =====
-- internal/tunnel/client.go: `connect`, `statusError`, `goawayExit` and `isNoHello`.
use tuzy.Shared.{ℕ, Bool, false, ◌&&◌, ◌||◌, Option, none, some, leb, ◌==◌, if◌then◌else◌}
use Prim.Native.String.{String}
use text.Mathlib.Text.{◌==◌ as str_eq}
use tuzy.Tunnel.Session.{Goaway}
use tuzy.Tunnel.Client.Backoff.{ℤ, pos, TimeLib, retry_after}

-- The texts of the errors that end the program, by what they are made of.
pub data Notice : Type 0 where
  as_sent : String → Notice
  session_expired not_logged_in : Notice
  not_owned already_live was_removed : String → Notice
  renamed_to : String → String → Notice
  needs_update taken_over name_removed tunnel_suspended logged_out : Option String → Notice

-- `ExitError`
pub record ExitError : Type 0 where
  pub status : ℕ
  pub code : String
  pub notice : Notice

-- An error of the WebSocket library: a close by the peer, or another.
pub data WsError : Type 0 where
  closed : ℕ → String → WsError
  other_error : WsError

-- `retryError`, `renamedError` and `ExitError` as the errors of `connect`. A `retryError` has the error
-- that it wraps, if that is one of the WebSocket library.
pub data ConnectError : Type 0 where
  retry : ℤ → WsError → ConnectError
  renamed : String → ExitError → ConnectError
  exit : ExitError → ConnectError

-- `apiErrorBody`, what `json.Unmarshal` leaves in it.
pub record ErrorBody : Type 0 where
  pub code : String
  pub text : String
  pub new_name : String

-- The answer to a connect that is no 101.
pub record Refusal : Type 0 where
  pub status_code : ℕ
  pub status : String
  pub body : ErrorBody
  pub retry_header : String

-- The case of a 401 and a 404, by the code of the body.
unauthorized : String → Notice
unauthorized code = if str_eq code "token_expired" then session_expired else not_logged_in

not_found : String → String → Notice → Notice
not_found name code text = if str_eq code "name_not_reserved" then not_owned name else text

gone : String → Refusal → ConnectError
gone name r =
    let e : Notice → ExitError =
      λ n. record { status = r.status_code; code = r.body.code; notice = n } in
    if str_eq r.body.new_name ""
    then exit (e (was_removed name))
    else renamed r.body.new_name (e (renamed_to name r.body.new_name))

busy : TimeLib → ℕ → Refusal → ConnectError
busy lib now r = retry (retry_after lib r.retry_header now) other_error

-- `statusError`
unfoldable pub status_error : TimeLib → ℕ → String → Refusal → ConnectError
unfolding unauthorized not_found gone busy
status_error lib now name r =
    let text : Notice = as_sent (if str_eq r.body.text "" then r.status else r.body.text) in
    let e : Notice → ConnectError =
      λ n. exit (record { status = r.status_code; code = r.body.code; notice = n }) in
    if r.status_code == 400 || r.status_code == 403
    then e text
    else if r.status_code == 401
    then e (unauthorized r.body.code)
    else if r.status_code == 404
    then e (not_found name r.body.code text)
    else if r.status_code == 409
    then e (already_live name)
    else if r.status_code == 410
    then gone name r
    else if r.status_code == 429 || r.status_code == 503
    then busy lib now r
    else if leb 500 r.status_code
    then busy lib now r
    else e text

-- `msg` of `goawayExit`: the edge's text, if it sent one.
sent_text : Goaway → Option String
sent_text g = if str_eq g.text "" then none else some g.text

-- `goawayExit`
unfoldable pub goaway_exit : Goaway → Option ExitError
unfolding sent_text
goaway_exit g =
    let e : (Option String → Notice) → Option ExitError =
      λ n. some (record { status = 0; code = g.reason; notice = n (sent_text g) }) in
    if str_eq g.reason "upgrade_required"
    then e needs_update
    else if str_eq g.reason "replaced"
    then e taken_over
    else if str_eq g.reason "deleted"
    then e name_removed
    else if str_eq g.reason "suspended"
    then e tunnel_suspended
    else if str_eq g.reason "revoked"
    then e logged_out
    else none

-- `isNoHello`, of the error in a `retryError`.
unfoldable pub is_no_hello : WsError → Bool
is_no_hello (closed code reason) = code == 1002 && str_eq reason "no HELLO"
is_no_hello other_error = false

-- The end of the handshake.
pub data Handshake : Type 0 where
  failed : WsError → Handshake
  told : Goaway → Handshake
  online : String → Handshake

pub data Dial : Type 0 where
  refused : Refusal → Dial
  unreachable : WsError → Dial
  opened : Handshake → Dial

-- A GOAWAY in place of READY.
told_to_go : Goaway → ConnectError
told_to_go g = elim (goaway_exit g) [ none ↦ retry (pos 0) other_error | some e ↦ exit e ]

pub data Connected : Type 0 where
  fails : ConnectError → Connected
  serves : String → Connected

-- `connect`
unfoldable pub connect : TimeLib → ℕ → String → Dial → Connected
unfolding told_to_go
connect lib now name (refused r) = fails (status_error lib now name r)
connect lib now name (unreachable e) = fails (retry (pos 0) e)
connect lib now name (opened (failed e)) = fails (retry (pos 0) e)
connect lib now name (opened (told g)) = fails (told_to_go g)
connect lib now name (opened (online ready_name)) = serves ready_name
