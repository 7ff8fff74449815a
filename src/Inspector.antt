-- ===== src/Inspector.antt =====
-- internal/inspector: the entries of the traffic recorder. A byte slice keeps its capacity, since the
-- store charges for it; how far `append` grows a slice is a parameter.
pub mod Bodies
pub mod Store
pub mod ContentLength
pub mod Capture
pub mod Captured
pub mod Recorded
pub mod Eviction
pub mod Shedding
pub mod Accounts
pub mod History
pub mod Listing
pub mod Subscribers
mod Tests
use tuzy.Shared.{
  ℕ, ◌+◌, ◌-◌, ◌*◌, ◌≤◌, Bool, true, false, Option, none, some, List, [], ◌∷◌, ◌++◌, ltb, leb,
  if◌then◌else◌, length, take,
}
use Prim.Native.String.{String}
use tuzy.Protocol.{Bytes}

-- The limits.
abbrev pub max_entries : ℕ
max_entries = 500

abbrev pub max_body_capture : ℕ
max_body_capture = 1024 * 1024

abbrev pub max_total_bytes : ℕ
max_total_bytes = 64 * 1024 * 1024

pub record Slice : Type 0 where
  pub content : Bytes
  pub cap : ℕ

-- A `[]byte`, nil or not.
abbrev pub Body : Type 0
Body = Option Slice

abbrev pub content_of : Body → Bytes
content_of none = []
content_of (some s) = s.content

abbrev pub cap_of : Body → ℕ
cap_of none = 0
cap_of (some s) = s.cap

-- A header line, in bytes.
abbrev pub Header : Type 0
Header = Bytes × Bytes

-- `Entry`. The live counters of a WebSocket are none for an HTTP request.
pub record Entry : Type 0 where
  pub id : ℕ
  pub tunnel : String
  pub started_at : ℕ
  pub duration_ms : ℕ
  pub kind : String
  pub method : String
  pub path : String
  pub remote_ip : String
  pub req_headers : List Header
  pub req_body : Body
  pub req_size : ℕ
  pub req_trunc : Bool
  pub req_incomplete : Bool
  pub status : ℕ
  pub res_headers : List Header
  pub res_body : Body
  pub res_size : ℕ
  pub res_trunc : Bool
  pub evicted : Bool
  pub ws_msgs_in : ℕ
  pub ws_msgs_out : ℕ
  pub error : String
  pub replay_of : ℕ
  pub done : Bool
  pub ws_in : Option ℕ
  pub ws_out : Option ℕ

abbrev latest : Option ℕ → ℕ → ℕ
latest none n = n
latest (some m) n = m

-- `foldLive`
unfoldable pub fold_live : Entry → Entry
fold_live e = record e {
  ws_msgs_in = latest e.ws_in e.ws_msgs_in;
  ws_msgs_out = latest e.ws_out e.ws_msgs_out;
}

-- `Summary`
pub record Summary : Type 0 where
  pub id : ℕ
  pub tunnel : String
  pub started_at : ℕ
  pub duration_ms : ℕ
  pub kind : String
  pub method : String
  pub path : String
  pub status : ℕ
  pub error : String
  pub replay_of : ℕ
  pub ws_msgs_in : ℕ
  pub ws_msgs_out : ℕ
  pub done : Bool

-- `summary`, of the entry that `foldLive` has brought up to date.
unfoldable pub summary : Entry → Summary
unfolding fold_live
summary e' =
    let e : Entry = fold_live e' in
    record {
      id = e.id;
      tunnel = e.tunnel;
      started_at = e.started_at;
      duration_ms = e.duration_ms;
      kind = e.kind;
      method = e.method;
      path = e.path;
      status = e.status;
      error = e.error;
      replay_of = e.replay_of;
      ws_msgs_in = e.ws_msgs_in;
      ws_msgs_out = e.ws_msgs_out;
      done = e.done;
    }

-- `headerBytes`
unfoldable pub header_bytes : List Header → ℕ
header_bytes [] = 0
header_bytes ((k, v) ∷ hs) = length k + length v + header_bytes hs

-- `capturedBodyBytes`
unfoldable pub captured_body_bytes : Entry → ℕ
captured_body_bytes e = cap_of e.req_body + cap_of e.res_body

-- `bodyBytes`
unfoldable pub body_bytes : Entry → ℕ
unfolding captured_body_bytes
body_bytes e = captured_body_bytes e + header_bytes e.req_headers + header_bytes e.res_headers
