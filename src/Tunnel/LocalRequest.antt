-- ===== src/Tunnel/LocalRequest.antt =====
-- internal/tunnel/http_stream.go: `BuildLocalRequest` with `targetURL`, which make the request to the local app and, in
-- LocalRequest/ResponseHeaders, `responseHeaders`, which takes the headers of its response for RES_HEAD. Headers are bytes.
pub mod ResponseHeaders
pub mod Framing
pub mod Listed
pub mod Forwarded
mod Tests
use tuzy.Shared.{
  ℕ, zero, suc, ◌+◌, Bool, true, false, ◌&&◌, ◌||◌, not, Option, none, some, List, [], ◌∷◌, ◌++◌,
  ◌==◌, same_bytes, if◌then◌else◌,
}
use tuzy.Protocol.{Bytes}
use tuzy.Tunnel.CloseReason.{ascii_bytes}
use tuzy.Tunnel.Client.Backoff.{ℤ, pos}

-- A header line.
abbrev pub HeaderLine : Type 0
HeaderLine = Bytes × Bytes

-- A URL, with all that is neither path, query nor fragment in one.
pub record Url : Type 0 where
  pub origin : Bytes
  pub path : Bytes
  pub raw_path : Bytes
  pub raw_query : Bytes
  pub fragment : Bytes

-- The method, the URL and the host of a request that `http.NewRequestWithContext` makes.
pub record Made : Type 0 where
  pub method : Bytes
  pub url : Url
  pub host : Bytes

-- What the code uses of the Go library: strings, header keys and URLs. `new_request` is
-- `http.NewRequestWithContext` on a method and a URL as printed by its `String`, which it may refuse: what it makes
-- has the URL as it is read again from the print.
pub record HttpLib : Type 0 where
  pub lower : Bytes → Bytes
  pub upper : Bytes → Bytes
  pub trim_space : Bytes → Bytes
  pub canonical : Bytes → Bytes
  pub parse_int : Bytes → Option ℤ
  pub parse_request_uri : Bytes → Option Url
  pub escaped_path : Url → Bytes
  pub new_request : Bytes → Url → Option Made

abbrev slash : ℕ
slash = 47

-- `strings.TrimRight(s, "/")`
unfoldable pub trim_slashes : Bytes → Bytes
trim_slashes [] = []
trim_slashes (b ∷ bs) =
    let rest = trim_slashes bs in if (b == slash) && same_bytes rest [] then [] else b ∷ rest

-- `targetURL`
unfoldable pub target_url : HttpLib → Url → Bytes → Option Url
unfolding trim_slashes
target_url lib target uri = elim (lib.parse_request_uri uri) [
  | none ↦ none
  | some ref ↦ some (record target {
    path = trim_slashes target.path ++ ref.path;
    raw_path = trim_slashes (lib.escaped_path target) ++ lib.escaped_path ref;
    raw_query = ref.raw_query;
    fragment = [];
  })
]

abbrev pub is_one_of : Bytes → List Bytes → Bool
is_one_of b [] = false
is_one_of b (n ∷ ns) = same_bytes b n || is_one_of b ns

-- `hopByHop`
abbrev pub hop_by_hop : List Bytes
hop_by_hop =
    ascii_bytes "connection"
    ∷ ascii_bytes "keep-alive"
    ∷ ascii_bytes "proxy-authenticate"
    ∷ ascii_bytes "proxy-authorization"
    ∷ ascii_bytes "proxy-connection"
    ∷ ascii_bytes "te"
    ∷ ascii_bytes "trailer"
    ∷ ascii_bytes "transfer-encoding"
    ∷ ascii_bytes "upgrade"
    ∷ []

-- What the loop over the visitor's headers keeps: the host, the length that they declare, whether the body is
-- chunked, and the header of the request, its lines with canonical keys in the order of the calls of `Add`.
pub record Scan : Type 0 where
  pub visitor_host : Bytes
  pub declared : Option ℕ
  pub chunked : Bool
  pub header : List HeaderLine

abbrev pub new_scan : Scan
new_scan = record { visitor_host = []; declared = none; chunked = false; header = [] }

abbrev pub or_declared : Option ℤ → Option ℕ → Option ℕ
or_declared (some (pos n)) old = some n
or_declared _ old = old

-- One round of the loop.
unfoldable pub scan_line : HttpLib → HeaderLine → Scan → Scan
scan_line lib (name, value) s =
    let n : Bytes = lib.lower name in
    if same_bytes n (ascii_bytes "host")
    then record s { visitor_host = value }
    else if same_bytes n (ascii_bytes "content-length")
    then record s { declared = or_declared (lib.parse_int value) s.declared }
    else if same_bytes n (ascii_bytes "transfer-encoding")
    then record s { chunked = true }
    else if is_one_of n hop_by_hop
    then s
    else record s { header = s.header ++ (lib.canonical name, value) ∷ [] }

unfoldable pub scan : HttpLib → List HeaderLine → Scan → Scan
unfolding scan_line
scan lib [] s = s
scan lib (l ∷ ls) s = scan lib ls (scan_line lib l s)

pub data Body : Type 0 where
  streamed no_body : Body

-- `http.Request`; a content length of none is -1, unknown. `silent` says that the key User-Agent has no value, so
-- that none is sent.
pub record Request : Type 0 where
  pub method : Bytes
  pub url : Url
  pub host : Bytes
  pub header : List HeaderLine
  pub silent : Bool
  pub content_length : Option ℕ
  pub body : Body

-- `methodMayHaveBody`
unfoldable pub method_may_have_body : HttpLib → Bytes → Bool
method_may_have_body lib m = not (
    is_one_of (lib.upper m) (
      ascii_bytes "GET"
      ∷ ascii_bytes "HEAD"
      ∷ ascii_bytes "OPTIONS"
      ∷ ascii_bytes "DELETE"
      ∷ ascii_bytes "TRACE"
      ∷ ascii_bytes "CONNECT"
      ∷ []))

abbrev pub with_length : ℕ → Request → Request
with_length zero r = record r { content_length = some 0; body = no_body }
with_length (suc n) r = record r { content_length = some (suc n) }

-- The switch on the length of the body. The first is what the caller knows of it, none for -1.
unfoldable pub frame_body : HttpLib → Bytes → Option ℕ → Option ℕ → Bool → Request → Request
unfolding method_may_have_body
frame_body lib m (some n) declared chunked r = with_length n r
frame_body lib m none (some n) chunked r = with_length n r
frame_body lib m none none chunked r =
    if chunked || method_may_have_body lib m
    then record r { content_length = none }
    else record r { content_length = some 0; body = no_body }

-- `http.Header.Get` of a canonical key.
unfoldable pub get_line : Bytes → List HeaderLine → Bytes
get_line key [] = []
get_line key ((k, v) ∷ ls) = let rest = get_line key ls in if same_bytes k key then v else rest

unfoldable pub without : Bytes → List HeaderLine → List HeaderLine
without key [] = []
without key ((k, v) ∷ ls) =
    let rest = without key ls in if same_bytes k key then rest else (k, v) ∷ rest

abbrev pub user_agent : Bytes
user_agent = ascii_bytes "User-Agent"

-- The last statement: an agent that is missing or empty is not replaced by Go's.
unfoldable pub silence_agent : Request → Request
unfolding get_line without
silence_agent r =
    if same_bytes (get_line user_agent r.header) []
    then record r { header = without user_agent r.header; silent = true }
    else r

-- `BuildLocalRequest` from the scan on; the Boolean says if the host header is rewritten.
unfoldable pub finish_request : HttpLib → Bool → Bytes → Made → Option ℕ → Scan → Request
unfolding frame_body silence_agent
finish_request lib rewrites m made body_len s = silence_agent (
    frame_body lib m body_len s.declared s.chunked (record {
      method = made.method;
      url = made.url;
      host =
          if not rewrites && not (same_bytes s.visitor_host []) then s.visitor_host else made.host;
      header = s.header;
      silent = false;
      content_length = some 0;
      body = streamed;
    }))

unfoldable pub request_to :
    HttpLib → Bool → Bytes → List HeaderLine → Option ℕ → Option Made → Option Request
unfolding finish_request scan
request_to lib rewrites m headers body_len none = none
request_to lib rewrites m headers body_len (some made) =
    some (finish_request lib rewrites m made body_len (scan lib headers new_scan))

-- `BuildLocalRequest`
unfoldable pub build_local_request :
    HttpLib → Url → Bool → Bytes → Bytes → List HeaderLine → Option ℕ → Option Request
unfolding target_url request_to
build_local_request lib target rewrites m uri headers body_len = elim (target_url lib target uri) [
  | none ↦ none
  | some url ↦ request_to lib rewrites m headers body_len (lib.new_request m url)
]
