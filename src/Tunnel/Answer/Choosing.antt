-- ===== src/Tunnel/Answer/Choosing.antt =====
-- internal/tunnel/http_stream.go: `run` up to the response that it answers with, with hostcheck.go,
-- `hostMode` and `learnHostRewrite`.
use tuzy.Shared.{
  starts_with, ℕ, ◌-◌, Bool, true, false, ◌&&◌, ◌||◌, not, Option, none, some, List, [], ◌∷◌, ◌++◌,
  leb, ◌==◌, if◌then◌else◌, length, take, drop,
}
use tuzy.Protocol.{Bytes}
use tuzy.Tunnel.CloseReason.{ascii_bytes}
use tuzy.Tunnel.Flow.{Reader, reads, at_eof, read_error}

abbrev pub Headers : Type 0
Headers = List (Bytes × Bytes)

-- The answer of the local app.
pub record Response : Type 0 where
  pub status : ℕ
  pub headers : Headers
  pub content : Reader

-- `hostHeader` of a session's configuration, and what auto mode has learned.
pub data HostHeader : Type 0 where
  auto preserve rewrite : HostHeader

pub record HostPolicy : Type 0 where
  pub host_header : HostHeader
  pub host_rewrite : Bool

-- `hostMode() == "preserve"`
unfoldable pub preserves : HostPolicy → Bool
preserves p = elim p.host_header [ auto ↦ not p.host_rewrite | preserve ↦ true | rewrite ↦ false ]

abbrev pub is_auto : HostHeader → Bool
is_auto auto = true
is_auto preserve = false
is_auto rewrite = false

-- `learnHostRewrite`
unfoldable pub learn_host_rewrite : HostPolicy → HostPolicy
learn_host_rewrite p = if is_auto p.host_header then record p { host_rewrite = true } else p

-- `bytes.Contains`
unfoldable pub contains : Bytes → Bytes → Bool
contains sig [] = starts_with sig []
contains sig (b ∷ bs) = let rest = contains sig bs in starts_with sig (b ∷ bs) || rest

-- `isHostCheckRejection`
unfoldable pub is_host_check_rejection : Bytes → Bool
unfolding contains
is_host_check_rejection body =
    contains (ascii_bytes "Blocked request. This host") body
    || (contains (ascii_bytes "Invalid Host header") body
        || (contains (ascii_bytes "Blocked hosts:") body
            || (contains (ascii_bytes "Invalid HTTP_HOST header") body
                || contains (ascii_bytes "DisallowedHost") body)))

abbrev pub host_check_sniff_limit : ℕ
host_check_sniff_limit = 2048

-- `io.ReadAll` of so many bytes at most, and what is left to read.
unfoldable pub peek : ℕ → Reader → Bytes × Reader
peek n (reads p r) =
    let (b, r') : Bytes × Reader = peek (n - length p) r in
    if leb (length p) n then (p ++ b, r') else (take n p, reads (drop n p) r)
peek n (at_eof p) = (take n p, at_eof (drop n p))
peek n (read_error p) = (take n p, read_error (drop n p))

-- `io.MultiReader` of what was read before and the rest.
unfoldable pub unpeek : Bytes × Reader → Reader
unpeek (b, r) = reads b r

-- All that one request meets: the request, with none if it cannot be built and else if it has no body; the
-- answer of the local app, with none if it cannot be reached; the same again for the replay.
pub record Local : Type 0 where
  pub built : Option Bool
  pub answer : Option Response
  pub rebuilt : Bool
  pub second : Option Response
  pub gone : Bool
  pub page : Headers × Bytes
  pub bad_page : Headers × Bytes

-- What `run` comes to before it answers: nothing if the visitor is gone, a page of its own, or a response.
-- With it the policy, how often the local app was asked, and `HostRejected`.
pub data Choice : Type 0 where
  nothing : Choice
  own : Headers × Bytes → Choice
  relays : Response → Choice

pub record Chosen : Type 0 where
  pub choice : Choice
  pub policy : HostPolicy
  pub trips : List Bool
  pub host_rejected : Bool

-- The replay: the first answer, as it was peeked, is kept unless there is a second. The first policy is that of the
-- first request, the second that of the replay.
unfoldable pub replay : Bool → Response → Option Response → HostPolicy → HostPolicy → Chosen
unfolding preserves
replay false first second p p' = record {
  choice = relays first;
  policy = p';
  trips = preserves p ∷ [];
  host_rejected = false;
}
replay true first none p p' = record {
  choice = relays first;
  policy = p';
  trips = preserves p ∷ preserves p' ∷ [];
  host_rejected = false;
}
replay true first (some r) p p' = record {
  choice = relays r;
  policy = p';
  trips = preserves p ∷ preserves p' ∷ [];
  host_rejected = false;
}

-- An answer that refuses the host.
unfoldable pub on_rejection : Bool → Local → Response → HostPolicy → Chosen
unfolding replay
on_rejection no_body l first p =
    if is_auto p.host_header
    then replay (no_body && l.rebuilt) first l.second p (learn_host_rewrite p)
    else record {
      choice = relays first;
      policy = p;
      trips = preserves p ∷ [];
      host_rejected = true;
    }

-- An answer to a request whose host was kept, and that has a status of a host check.
unfoldable pub on_suspect : Bool → Local → Response → HostPolicy → Bytes × Reader → Chosen
unfolding on_rejection
on_suspect no_body l r p (b, rest) =
    let first : Response = record r { content = unpeek (b, rest) } in
    if is_host_check_rejection b then on_rejection no_body l first p else record {
      choice = relays first;
      policy = p;
      trips = preserves p ∷ [];
      host_rejected = false;
    }

unfoldable pub on_answer : Bool → Local → Option Response → HostPolicy → Chosen
unfolding on_suspect
on_answer no_body l none p = record {
  choice = if l.gone then nothing else own l.page;
  policy = p;
  trips = preserves p ∷ [];
  host_rejected = false;
}
on_answer no_body l (some r) p =
    if preserves p && (r.status == 403 || r.status == 400)
    then on_suspect no_body l r p (peek host_check_sniff_limit r.content)
    else record { choice = relays r; policy = p; trips = preserves p ∷ []; host_rejected = false }

-- `run` up to the response.
unfoldable pub choose : Local → Option Bool → HostPolicy → Chosen
unfolding on_answer
choose l none p = record { choice = own l.bad_page; policy = p; trips = []; host_rejected = false }
choose l (some no_body) p = on_answer no_body l l.answer p
