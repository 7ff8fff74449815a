-- ===== src/Upstream/Targets.antt =====
-- `Parse`: what a target that is accepted can be used for.
use tuzy.Shared.{
  ◌≡◌, refl, Bool, true, false, ◌&&◌, ◌||◌, Bool-cases, ◌⊎◌, inl, inr, Option, none, some, [], ◌∷◌,
  ◌++◌, same_bytes, if_both, ltb,
}
use tuzy.Protocol.{Bytes}
use tuzy.Tunnel.CloseReason.{ascii_bytes}
use tuzy.Tunnel.Client.Backoff.{ℤ, pos, negsuc}
use tuzy.Upstream.{
  TargetUrl, TargetLib, Kind, kind_http, kind_https, kind_file, Target, TargetError, invalid_target,
  bad_port, unsupported_scheme, has_drive_slash, strip_drive_slash, http_url, port_url,
  host_port_url, parse_bare, bare_target, http_target, file_target, url_target, has_scheme, parse,
}

abbrev scheme_of : Kind → Bytes
scheme_of kind_http = ascii_bytes "http"
scheme_of kind_https = ascii_bytes "https"
scheme_of kind_file = ascii_bytes "file"

-- A URL that an HTTP request can be sent to: it has a host, the scheme of its kind, and neither query nor fragment.
abbrev IsOrigin : Kind → TargetUrl → Type 0
IsOrigin k u =
    (same_bytes u.scheme (scheme_of k) ≡ true)
    × (same_bytes u.host [] ≡ false)
    × (u.raw_query ≡ [])
    × (u.fragment ≡ [])

-- A directory has a name and no URL; any other target has a URL of its kind and no directory.
abbrev UsableAs : Kind → Option TargetUrl → Bytes → Type 0
UsableAs kind_file none dir = same_bytes dir [] ≡ false
UsableAs kind_file (some u) dir = ⊥
UsableAs kind_http (some u) dir = IsOrigin kind_http u × (dir ≡ [])
UsableAs kind_https (some u) dir = IsOrigin kind_https u × (dir ≡ [])
UsableAs _ none dir = ⊥

-- The same of a result; an error says nothing.
abbrev pub IsUsable : TargetError ⊎ Target → Type 0
IsUsable (inl e) = Unit {0}
IsUsable (inr t) = UsableAs t.kind t.url t.dir

abbrev BareUsable : TargetError ⊎ TargetUrl → Type 0
BareUsable (inl e) = Unit {0}
BareUsable (inr u) = IsOrigin kind_http u

port_url-BareUsable : (s : Bytes) (p : ℤ) → BareUsable (port_url s p)
unfolding port_url
port_url-BareUsable s (negsuc n) = tt
port_url-BareUsable s (pos n) =
    if_both BareUsable (ltb n 1 || ltb 65535 n) (inl bad_port)
      (inr (http_url (ascii_bytes "localhost:" ++ s))) tt (refl, refl, refl, refl)

host_port_url-BareUsable :
    (s : Bytes) (o : Option (Bytes × Bytes))
    → same_bytes s [] ≡ false
    → BareUsable (host_port_url s o)
unfolding host_port_url
host_port_url-BareUsable s none n = tt
host_port_url-BareUsable s (some (host, port)) n =
    if_both BareUsable (same_bytes host [] || same_bytes port []) (inl invalid_target)
      (inr (http_url s)) tt (refl, n, refl, refl)

bare_target-IsUsable : (r : TargetError ⊎ TargetUrl) → BareUsable r → IsUsable (bare_target r)
unfolding bare_target
bare_target-IsUsable (inl e) u = tt
bare_target-IsUsable (inr r) u = (u, refl)

parse_bare-BareUsable :
    (lib : TargetLib) (s : Bytes) (o : Option ℤ)
    → same_bytes s [] ≡ false
    → BareUsable
        (elim o [ some port ↦ port_url s port | none ↦ host_port_url s (lib.split_host_port s) ])
parse_bare-BareUsable lib s (some p) n = port_url-BareUsable s p
parse_bare-BareUsable lib s none n = host_port_url-BareUsable s (lib.split_host_port s) n

http_target-IsUsable :
    (u : TargetUrl)
    → same_bytes u.scheme (ascii_bytes "http") ≡ true
    → IsUsable (http_target kind_http u)
unfolding http_target
http_target-IsUsable u e = elim (Bool-cases (same_bytes u.host [])) [
  | inl h ↦ rw h tt
  | inr h ↦ rw h ((e, h, refl, refl), refl)
]

https_target-IsUsable :
    (u : TargetUrl)
    → same_bytes u.scheme (ascii_bytes "https") ≡ true
    → IsUsable (http_target kind_https u)
unfolding http_target
https_target-IsUsable u e = elim (Bool-cases (same_bytes u.host [])) [
  | inl h ↦ rw h tt
  | inr h ↦ rw h ((e, h, refl, refl), refl)
]

strip_drive_slash-named :
    (w : Bool) (dir : Bytes)
    → same_bytes dir [] ≡ false
    → same_bytes (strip_drive_slash w dir) [] ≡ false
unfolding strip_drive_slash has_drive_slash
strip_drive_slash-named w [] n = absurd (cc)
strip_drive_slash-named true (a ∷ []) n = refl
strip_drive_slash-named false (a ∷ []) n = refl
strip_drive_slash-named w (a ∷ b ∷ bs) n =
    if_both (λ d. same_bytes d [] ≡ false) (w && has_drive_slash (a ∷ b ∷ bs)) (b ∷ bs) (a ∷ b ∷ bs)
      refl refl

file_target-IsUsable : (w : Bool) (dir : Bytes) → IsUsable (file_target w dir)
unfolding file_target
file_target-IsUsable w dir = elim (Bool-cases (same_bytes dir [])) [
  | inl h ↦ rw h tt
  | inr h ↦ rw h (strip_drive_slash-named w dir h)
]

url_target-IsUsable : (w : Bool) (o : Option TargetUrl) → IsUsable (url_target w o)
unfolding url_target
url_target-IsUsable w none = tt
url_target-IsUsable w (some u) = elim (Bool-cases (same_bytes u.scheme (ascii_bytes "http"))) [
  | inl h ↦ rw h (http_target-IsUsable u h)
  | inr h ↦ rw h (elim (Bool-cases (same_bytes u.scheme (ascii_bytes "https"))) [
    | inl s ↦ rw s (https_target-IsUsable u s)
    | inr s ↦ rw s (
        if_both IsUsable (same_bytes u.scheme (ascii_bytes "file")) _ (inl unsupported_scheme)
          (file_target-IsUsable w _) tt)
  ])
]

-- A target that `Parse` accepts can be used: an HTTP or HTTPS target is a URL with that scheme, a host and neither
-- query nor fragment, and a file target is a directory that has a name.
pub parse-IsUsable : (lib : TargetLib) (s : Bytes) → IsUsable (parse lib s)
unfolding parse parse_bare
parse-IsUsable lib s =
    let t : Bytes = lib.trim_space s in
    elim (Bool-cases (same_bytes t [])) [
      | inl e ↦ rw e tt
      | inr e ↦ rw e (
          if_both IsUsable (has_scheme t) (url_target lib.on_windows (lib.parse_url t))
            (bare_target (parse_bare lib t)) (url_target-IsUsable lib.on_windows (lib.parse_url t))
            (bare_target-IsUsable (parse_bare lib t) (parse_bare-BareUsable lib t (lib.atoi t) e)))
    ]
