-- ===== src/Tunnel/LocalRequest/Tests.antt =====
-- Runs of the two functions.
use tuzy.Shared.{◌≡◌, refl, ◌↔◌, true, false, none, some, List, [], ◌∷◌}
use mathlib.Core.List.{Memᴰ}
use tuzy.Protocol.{Bytes}
use tuzy.Tunnel.CloseReason.{ascii_bytes}
use tuzy.Tunnel.Client.Backoff.{pos}
use tuzy.Tunnel.LocalRequest.{HeaderLine, Url, HttpLib, Request, streamed, build_local_request}
use tuzy.Tunnel.LocalRequest.Framing.{Builds, build_local_request-IsLocal}
use tuzy.Tunnel.LocalRequest.ResponseHeaders.{HeaderMap, response_headers}
use tuzy.Tunnel.LocalRequest.Forwarded.{IsRelayed, response_headers-IsRelayed}

abbrev local : Url
local = record {
  origin = ascii_bytes "http://localhost:3000";
  path = [];
  raw_path = [];
  raw_query = [];
  fragment = [];
}

abbrev toy : HttpLib
toy = record {
  lower = λ b. b;
  upper = λ b. b;
  trim_space = λ b. b;
  canonical = λ b. b;
  parse_int = λ b. some (pos 5);
  parse_request_uri = λ b. some (record local { path = b; raw_path = b });
  escaped_path = λ u. u.raw_path;
  new_request = λ m u. some (record { method = m; url = u; host = ascii_bytes "localhost:3000" });
}

abbrev lines : List HeaderLine
lines =
    (ascii_bytes "host", ascii_bytes "shop.tuzy.dev")
    ∷ (ascii_bytes "te", ascii_bytes "trailers")
    ∷ (ascii_bytes "content-length", ascii_bytes "5")
    ∷ (ascii_bytes "accept", ascii_bytes "*")
    ∷ []

abbrev order : Bytes
order = ascii_bytes "/order"

abbrev relayed : Request
relayed = record {
  method = ascii_bytes "POST";
  url = record local { path = order; raw_path = order };
  host = ascii_bytes "shop.tuzy.dev";
  header = (ascii_bytes "accept", ascii_bytes "*") ∷ [];
  silent = true;
  content_length = some 5;
  body = streamed;
}

relays_an_order :
    build_local_request toy local false (ascii_bytes "POST") order lines none ≡ some relayed
unfolding build_local_request
relays_an_order = refl

build_local_request-IsLocal_example :
    Builds toy false (ascii_bytes "POST") lines none local order relayed
build_local_request-IsLocal_example =
    build_local_request-IsLocal toy false (ascii_bytes "POST") lines none local order relayed
      relays_an_order

abbrev answered : HeaderMap
answered =
    (ascii_bytes "Connection", ascii_bytes "x-hop,close" ∷ [])
    ∷ (ascii_bytes "x-hop", ascii_bytes "1" ∷ [])
    ∷ (ascii_bytes "set-cookie", ascii_bytes "a" ∷ ascii_bytes "b" ∷ [])
    ∷ []

response_headers-IsRelayed_example :
    Memᴰ (ascii_bytes "x-hop", ascii_bytes "1") (response_headers toy answered)
    ↔ IsRelayed toy answered (ascii_bytes "x-hop", ascii_bytes "1")
response_headers-IsRelayed_example =
    response_headers-IsRelayed toy answered (ascii_bytes "x-hop") (ascii_bytes "1")
