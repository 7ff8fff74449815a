-- ===== src/Tunnel/LocalRequest/Framing.antt =====
-- `BuildLocalRequest`: the request that the local app gets.
use tuzy.Shared.{
  ℕ, zero, suc, ◌≡◌, refl, sym, ap, subst, ◌∙◌, Bool, true, false, ◌&&◌, ◌||◌, not, Bool-cases, inl,
  inr, Option, none, some, List, [], ◌∷◌, ◌++◌, append-nil, append_assoc, same_bytes, if◌then◌else◌,
  if_both,
}
use tuzy.Protocol.{Bytes}
use tuzy.Tunnel.CloseReason.{ascii_bytes}
use tuzy.Tunnel.LocalRequest.{
  HeaderLine, Url, HttpLib, Made, trim_slashes, target_url, is_one_of, hop_by_hop, Scan, new_scan,
  or_declared, scan_line, scan, Body, streamed, no_body, Request, method_may_have_body, with_length,
  frame_body, get_line, without, user_agent, silence_agent, finish_request, request_to,
  build_local_request,
}

-- Where a request's body ends is told by its content length: nothing follows a length of 0, and a body is streamed
-- where the length is another or is unknown.
abbrev pub FramedBy : Option ℕ → Body → Type 0
FramedBy (some zero) b = b ≡ no_body
FramedBy (some (suc n)) b = b ≡ streamed
FramedBy none b = b ≡ streamed

-- What the switch on the body keeps, and what it makes of the body.
abbrev Framed : Request → Request → Type 0
Framed r r' =
    FramedBy r'.content_length r'.body
    × (r'.header ≡ r.header)
    × (r'.host ≡ r.host)
    × (r'.method ≡ r.method)
    × (r'.url ≡ r.url)

with_length-Framed : (n : ℕ) (r : Request) → r.body ≡ streamed → Framed r (with_length n r)
with_length-Framed zero r s = (refl, refl, refl, refl, refl)
with_length-Framed (suc n) r s = (s, refl, refl, refl, refl)

frame_body-Framed :
    (lib : HttpLib) (m : Bytes) (known declared : Option ℕ) (chunked : Bool) (r : Request)
    → r.body ≡ streamed
    → Framed r (frame_body lib m known declared chunked r)
unfolding frame_body
frame_body-Framed lib m (some n) declared chunked r s = with_length-Framed n r s
frame_body-Framed lib m none (some n) chunked r s = with_length-Framed n r s
frame_body-Framed lib m none none chunked r s =
    if_both (Framed r) (chunked || method_may_have_body lib m) (record r { content_length = none })
      (record r { content_length = some 0; body = no_body }) (s, refl, refl, refl, refl)
      (refl, refl, refl, refl, refl)

-- The name stands for the request itself or for one hop.
abbrev pub is_own : Bytes → Bool
is_own n =
    same_bytes n (ascii_bytes "host")
    || same_bytes n (ascii_bytes "content-length")
    || same_bytes n (ascii_bytes "transfer-encoding")
    || is_one_of n hop_by_hop

-- The visitor's headers that are meant for the local app, with canonical keys.
unfoldable pub passed_on : HttpLib → List HeaderLine → List HeaderLine
passed_on lib [] = []
passed_on lib ((name, value) ∷ ls) =
    let rest = passed_on lib ls in
    if is_own (lib.lower name) then rest else (lib.canonical name, value) ∷ rest

-- The last value of Host.
unfoldable pub last_host : HttpLib → List HeaderLine → Option Bytes
last_host lib [] = none
last_host lib ((name, value) ∷ ls) = elim (last_host lib ls) [
  | some v ↦ some v
  | none ↦ if same_bytes (lib.lower name) (ascii_bytes "host") then some value else none
]

abbrev pub or_old : Option Bytes → Bytes → Bytes
or_old none old = old
or_old (some v) old = v

line_header :
    (a b c d : Bool) (s : Scan) (value : Bytes) (declared : Option ℕ) (l : HeaderLine)
    → (if a
        then record s { visitor_host = value }
        else if b
        then record s { declared = declared }
        else if c
        then record s { chunked = true }
        else if d
        then s
        else record s { header = s.header ++ l ∷ [] }).header
      ≡ s.header ++ (if a || b || c || d then [] else l ∷ [])
line_header true b c d s value declared l = sym (append-nil s.header)
line_header false true c d s value declared l = sym (append-nil s.header)
line_header false false true d s value declared l = sym (append-nil s.header)
line_header false false false true s value declared l = sym (append-nil s.header)
line_header false false false false s value declared l = refl

line_host :
    (a b c d : Bool) (s : Scan) (value : Bytes) (declared : Option ℕ) (l : HeaderLine)
    → (if a
        then record s { visitor_host = value }
        else if b
        then record s { declared = declared }
        else if c
        then record s { chunked = true }
        else if d
        then s
        else record s { header = s.header ++ l ∷ [] }).visitor_host
      ≡ (if a then value else s.visitor_host)
line_host true b c d s value declared l = refl
line_host false true c d s value declared l = refl
line_host false false true d s value declared l = refl
line_host false false false true s value declared l = refl
line_host false false false false s value declared l = refl

kept :
    (own : Bool) (l : HeaderLine) (rest : List HeaderLine)
    → (if own then [] else l ∷ []) ++ rest ≡ (if own then rest else l ∷ rest)
kept true l rest = refl
kept false l rest = refl

module _ (lib : HttpLib) where
  scan-passed_on :
      (ls : List HeaderLine) (s : Scan) → (scan lib ls s).header ≡ s.header ++ passed_on lib ls
  unfolding scan scan_line passed_on
  scan-passed_on [] s = sym (append-nil s.header)
  scan-passed_on ((name, value) ∷ ls) s =
      let n : Bytes = lib.lower name in
      scan-passed_on ls (scan_line lib (name, value) s)
      ∙ ap (λ h. h ++ passed_on lib ls)
          (line_header (same_bytes n (ascii_bytes "host"))
            (same_bytes n (ascii_bytes "content-length"))
            (same_bytes n (ascii_bytes "transfer-encoding")) (is_one_of n hop_by_hop) s value
            (or_declared (lib.parse_int value) s.declared) (lib.canonical name, value))
      ∙ append_assoc s.header (if is_own n then [] else (lib.canonical name, value) ∷ [])
          (passed_on lib ls)
      ∙ ap (λ t. s.header ++ t) (kept (is_own n) (lib.canonical name, value) (passed_on lib ls))

  later :
      (o : Option Bytes) (b : Bool) (v old : Bytes)
      → or_old o (if b then v else old)
        ≡ or_old (elim o [ some w ↦ some w | none ↦ if b then some v else none ]) old
  later (some w) b v old = refl
  later none true v old = refl
  later none false v old = refl

  scan-last_host :
      (ls : List HeaderLine) (s : Scan)
      → (scan lib ls s).visitor_host ≡ or_old (last_host lib ls) s.visitor_host
  unfolding scan scan_line last_host
  scan-last_host [] s = refl
  scan-last_host ((name, value) ∷ ls) s =
      let n : Bytes = lib.lower name in
      scan-last_host ls (scan_line lib (name, value) s)
      ∙ ap (or_old (last_host lib ls)) (
          line_host (same_bytes n (ascii_bytes "host"))
            (same_bytes n (ascii_bytes "content-length"))
            (same_bytes n (ascii_bytes "transfer-encoding")) (is_one_of n hop_by_hop) s value
            (or_declared (lib.parse_int value) s.declared) (lib.canonical name, value))
      ∙ later (last_host lib ls) (same_bytes n (ascii_bytes "host")) value s.visitor_host

-- The header of a request: what is passed on, but no empty User-Agent.
abbrev pub sent_header : List HeaderLine → List HeaderLine
sent_header ls = if same_bytes (get_line user_agent ls) [] then without user_agent ls else ls

-- The host of a request: the visitor's last one, unless it is rewritten or empty.
abbrev pub sent_host : Bool → Bytes → Bytes → Bytes
sent_host rewrites v host = if not rewrites && not (same_bytes v []) then v else host

-- The URL that a request is made for: the place of the target, the visitor's path behind the target's, without the
-- slashes that end it, and the visitor's query.
abbrev pub IsTarget : HttpLib → Url → Bytes → Url → Type 0
IsTarget lib target uri url =
    (ref : Url) × (lib.parse_request_uri uri ≡ some ref)
    × (url.origin ≡ target.origin)
    × (url.path ≡ trim_slashes target.path ++ ref.path)
    × (url.raw_path ≡ trim_slashes (lib.escaped_path target) ++ lib.escaped_path ref)
    × (url.raw_query ≡ ref.raw_query)
    × (url.fragment ≡ [])

target_url-IsTarget :
    (lib : HttpLib) (target : Url) (uri : Bytes) (url : Url)
    → target_url lib target uri ≡ some url
    → IsTarget lib target uri url
unfolding target_url
target_url-IsTarget lib target uri url q = by_ref (lib.parse_request_uri uri) refl q
  where
    at : Url → Url
    at ref = record target {
      path = trim_slashes target.path ++ ref.path;
      raw_path = trim_slashes (lib.escaped_path target) ++ lib.escaped_path ref;
      raw_query = ref.raw_query;
      fragment = [];
    }

    some_eq : {a b : Url} → some a ≡ some b → a ≡ b
    some_eq e = cc

    by_ref :
        (o : Option Url)
        → lib.parse_request_uri uri ≡ o
        → (elim o [ none ↦ none | some ref ↦ some (at ref) ]) ≡ some url
        → IsTarget lib target uri url
    by_ref none p e = absurd (cc)
    by_ref (some ref) p e =
        let h : url ≡ at ref = sym (some_eq e) in
        (
          ref,
          p,
          ap (λ u. u.origin) h,
          ap (λ u. u.path) h,
          ap (λ u. u.raw_path) h,
          ap (λ u. u.raw_query) h,
          ap (λ u. u.fragment) h,
        )

abbrev pub IsLocal : HttpLib → Bool → List HeaderLine → Made → Request → Type 0
IsLocal lib rewrites headers made r =
    (r.method ≡ made.method)
    × (r.url ≡ made.url)
    × FramedBy r.content_length r.body
    × (r.header ≡ sent_header (passed_on lib headers))
    × (r.host ≡ sent_host rewrites (or_old (last_host lib headers) []) made.host)

silence_agent-Framed :
    (r : Request)
    → FramedBy r.content_length r.body
    → FramedBy (silence_agent r).content_length (silence_agent r).body
      × ((silence_agent r).header ≡ sent_header r.header)
      × ((silence_agent r).host ≡ r.host)
      × ((silence_agent r).method ≡ r.method)
      × ((silence_agent r).url ≡ r.url)
unfolding silence_agent
silence_agent-Framed r f = elim (Bool-cases (same_bytes (get_line user_agent r.header) [])) [
  | inl h ↦ rw h (f, refl, refl, refl, refl)
  | inr h ↦ rw h (f, refl, refl, refl, refl)
]

module _ (lib : HttpLib) (rewrites : Bool) (m : Bytes) (headers : List HeaderLine)
    (body_len : Option ℕ) where
  finish_request-IsLocal :
      (made : Made)
      → IsLocal lib rewrites headers made
          (finish_request lib rewrites m made body_len (scan lib headers new_scan))
  unfolding finish_request
  finish_request-IsLocal made =
      let s : Scan = scan lib headers new_scan in
      let r : Request = record {
        method = made.method;
        url = made.url;
        host = sent_host rewrites s.visitor_host made.host;
        header = s.header;
        silent = false;
        content_length = some 0;
        body = streamed;
      } in
      let (f, h, o, k, p) : Framed r (frame_body lib m body_len s.declared s.chunked r) =
        frame_body-Framed lib m body_len s.declared s.chunked r refl in
      let (f', h', o', k', p') =
        silence_agent-Framed (frame_body lib m body_len s.declared s.chunked r) f in
      (
        k' ∙ k,
        p' ∙ p,
        f',
        h' ∙ ap sent_header (h ∙ scan-passed_on lib headers new_scan),
        o' ∙ o ∙ ap (λ v. sent_host rewrites v made.host) (scan-last_host lib headers new_scan),
      )

  abbrev pub Builds : Url → Bytes → Request → Type 0
  Builds target uri r =
      (url : Url) × (made : Made) × IsTarget lib target uri url
      × (lib.new_request m url ≡ some made)
      × IsLocal lib rewrites headers made r

  request_to-IsLocal :
      (o : Option Made) (r : Request)
      → request_to lib rewrites m headers body_len o ≡ some r
      → (made : Made) × (o ≡ some made) × IsLocal lib rewrites headers made r
  unfolding request_to
  request_to-IsLocal none r e = absurd (cc)
  request_to-IsLocal (some made) r e = (
    made,
    refl,
    subst (IsLocal lib rewrites headers made) (some_eq e) (finish_request-IsLocal made),
  )
    where
      some_eq : {a b : Request} → some a ≡ some b → a ≡ b
      some_eq e = cc

  built :
      (target : Url) (uri : Bytes) (o : Option Url) (r : Request)
      → target_url lib target uri ≡ o
      → (elim o [
        | none ↦ none
        | some url ↦ request_to lib rewrites m headers body_len (lib.new_request m url)
      ])
        ≡ some r
      → Builds target uri r
  built target uri none r t e = absurd (cc)
  built target uri (some url) r t e =
      let (made, n, l) = request_to-IsLocal (lib.new_request m url) r e in
      (url, made, target_url-IsTarget lib target uri url t, n, l)

  -- A request that is built has the method and the URL that `http.NewRequestWithContext` makes of the visitor's
  -- method and of this URL: the target's place, the visitor's path behind the target's, and the visitor's query.
  -- Of the visitor's headers it carries, in order and with canonical keys, all but Host, Content-Length,
  -- Transfer-Encoding and those of one hop, and no empty User-Agent; its host is the last one that the visitor
  -- named, unless the host is rewritten or none is named; and it has no body exactly if its length is 0.
  pub build_local_request-IsLocal :
      (target : Url) (uri : Bytes) (r : Request)
      → build_local_request lib target rewrites m uri headers body_len ≡ some r
      → Builds target uri r
  unfolding build_local_request
  build_local_request-IsLocal target uri r e = built target uri (target_url lib target uri) r refl e
