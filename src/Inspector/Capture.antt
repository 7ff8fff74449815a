-- ===== src/Inspector/Capture.antt =====
-- internal/inspector/capture.go: `streamRec`, which records one stream in the store. Each hook is one step
-- of the model; the Boolean of a body hook says if the lock of the store was free.
use tuzy.Shared.{
  ℕ, ◌+◌, Bool, true, false, ◌||◌, not, Option, none, some, List, [], ltb, if◌then◌else◌, length,
}
use Prim.Native.String.{String}
use text.Mathlib.Text.{◌==◌}
use tuzy.Protocol.{Bytes}
use tuzy.Inspector.{Header, Entry}
use tuzy.Inspector.Bodies.{Growth, append_capped}
use tuzy.Inspector.ContentLength.{declared_content_length}
use tuzy.Inspector.Store.{Store, find, put, add, update, mutate}

-- `protocol.ReqHeadMsg`
pub record ReqHead : Type 0 where
  pub method : String
  pub path : String
  pub headers : List Header
  pub remote_ip : String
  pub kind : String

-- `streamRec`; `counts` says that it has the counters of a WebSocket, which it shares with its entry.
pub record Recorder : Type 0 where
  pub id : ℕ
  pub req_length : Option ℕ
  pub res_length : Option ℕ
  pub req_size : ℕ
  pub res_size : ℕ
  pub req_complete : Bool
  pub req_dropped : Bool
  pub res_dropped : Bool
  pub counts : Bool

-- A recorder with the store that it writes to.
abbrev pub Tap : Type 0
Tap = Recorder × Store

abbrev pub counter_of : Bool → Option ℕ
counter_of true = some 0
counter_of false = none

-- `Begin`, at the time `now`.
unfoldable pub begin_entry : ℕ → String → ReqHead → Entry
begin_entry now tunnel head =
    let counter : Option ℕ = counter_of (head.kind == "ws") in
    record {
      id = 0;
      tunnel = tunnel;
      started_at = now;
      duration_ms = 0;
      kind = head.kind;
      method = head.method;
      path = head.path;
      remote_ip = head.remote_ip;
      req_headers = head.headers;
      req_body = none;
      req_size = 0;
      req_trunc = false;
      req_incomplete = false;
      status = 0;
      res_headers = [];
      res_body = none;
      res_size = 0;
      res_trunc = false;
      evicted = false;
      ws_msgs_in = 0;
      ws_msgs_out = 0;
      error = "";
      replay_of = 0;
      done = false;
      ws_in = counter;
      ws_out = counter;
    }

unfoldable pub begin : ℕ → String → ReqHead → Store → Tap
unfolding begin_entry
begin now tunnel head s =
    let (s', id) : Store × ℕ = add (begin_entry now tunnel head) s in
    (
      record {
        id = id;
        req_length = declared_content_length head.headers;
        res_length = none;
        req_size = 0;
        res_size = 0;
        req_complete = false;
        req_dropped = false;
        res_dropped = false;
        counts = head.kind == "ws";
      },
      s',
    )

-- `fold`: what it does to the entry, and to the recorder if there is an entry.
unfoldable pub fold : Recorder → Entry → Entry
fold r e = record e {
  req_size = r.req_size;
  res_size = r.res_size;
  req_trunc = r.req_dropped || e.req_trunc;
  res_trunc = r.res_dropped || e.res_trunc;
}

unfoldable pub folded : Option Entry → Recorder → Recorder
folded none r = r
folded (some e) r = record r { req_dropped = false; res_dropped = false }

-- The change that `RequestBody` makes.
unfoldable pub take_request : Growth → Recorder → Bytes → Entry → Entry
unfolding fold
take_request grow r p e' =
    let e : Entry = fold r e' in
    if e.evicted
    then e
    else let (b, trunc) = append_capped grow e.req_body p r.req_length in
      record e { req_body = b; req_trunc = e.req_trunc || trunc }

unfoldable pub take_response : Growth → Recorder → Bytes → Entry → Entry
unfolding fold
take_response grow r p e' =
    let e : Entry = fold r e' in
    if e.evicted
    then e
    else let (b, trunc) = append_capped grow e.res_body p r.res_length in
      record e { res_body = b; res_trunc = e.res_trunc || trunc }

-- `RequestBody`
unfoldable pub request_body : Growth → Bool → Bytes → Tap → Tap
unfolding folded take_request mutate
request_body grow free p (r', s) =
    let r : Recorder = record r' { req_size = r'.req_size + length p } in
    let (s', changed) : Store × Bool = mutate free r.id (take_request grow r p) s in
    (if changed then folded (find r.id s.entries) r else record r { req_dropped = true }, s')

-- `ResponseBody`
unfoldable pub response_body : Growth → Bool → Bytes → Tap → Tap
unfolding folded take_response mutate
response_body grow free p (r', s) =
    let r : Recorder = record r' { res_size = r'.res_size + length p } in
    let (s', changed) : Store × Bool = mutate free r.id (take_response grow r p) s in
    (if changed then folded (find r.id s.entries) r else record r { res_dropped = true }, s')

-- `RequestEnd`
unfoldable pub request_end : Tap → Tap
request_end (r, s) = (record r { req_complete = true }, s)

-- `Response`
unfoldable pub response : ℕ → List Header → Tap → Tap
unfolding fold folded update
response status headers (r', s) =
    let r : Recorder = record r' { res_length = declared_content_length headers } in
    (
      folded (find r.id s.entries) r,
      update r.id (λ e. record (fold r e) { status = status; res_headers = headers }) s,
    )

-- `WSMessage` counts in the entry, past the lock of the store.
unfoldable pub counted : Bool → Entry → Entry
counted true e = record e { ws_in = elim e.ws_in [ none ↦ none | some n ↦ some (n + 1) ] }
counted false e = record e { ws_out = elim e.ws_out [ none ↦ none | some n ↦ some (n + 1) ] }

unfoldable pub count_in : Bool → Option Entry → List Entry → List Entry
unfolding counted
count_in from_visitor none es = es
count_in from_visitor (some e) es = put (counted from_visitor e) es

unfoldable pub ws_message : Bool → Tap → Tap
unfolding count_in
ws_message from_visitor (r, s) =
    if r.counts
    then (r, record s { entries = count_in from_visitor (find r.id s.entries) s.entries })
    else (r, s)

-- `End`, `elapsed` milliseconds after `Begin`.
abbrev pub is_short : Option ℕ → ℕ → Bool
is_short none size = false
is_short (some n) size = ltb size n

unfoldable pub close_entry : ℕ → String → Recorder → Entry → Entry
unfolding fold
close_entry elapsed err r e' =
    let e : Entry = fold r e' in
    record e {
      done = true;
      duration_ms = elapsed;
      error = if err == "" then e.error else err;
      req_incomplete =
          if e.kind == "http"
          then not r.req_complete || is_short r.req_length e.req_size
          else e.req_incomplete;
    }

unfoldable pub end : ℕ → String → Tap → Tap
unfolding folded close_entry update
end elapsed err (r, s) = (folded (find r.id s.entries) r, update r.id (close_entry elapsed err r) s)
