-- ===== src/Upstream.antt =====
-- internal/upstream/upstream.go: `Parse` and `parseBare`, which read the local target that the agent forwards to, and
-- `ResolveCLIDir` and `ResolveProjectDir`, which find the directory of a file target.
pub mod Targets
pub mod Inside
mod Tests
use tuzy.Shared.{
  ℕ, Bool, true, false, ◌&&◌, ◌||◌, not, ◌⊎◌, inl, inr, Option, none, some, [], ◌∷◌, ◌++◌, ltb, leb,
  ◌==◌, same_bytes, starts_with, if◌then◌else◌,
}
use tuzy.Protocol.{Bytes}
use tuzy.Tunnel.CloseReason.{ascii_bytes}
use tuzy.Tunnel.Client.Backoff.{ℤ, pos, negsuc}

-- `url.URL`, as far as it is read or changed.
pub record TargetUrl : Type 0 where
  pub scheme : Bytes
  pub host : Bytes
  pub path : Bytes
  pub raw_query : Bytes
  pub fragment : Bytes

-- What the code uses of the Go library to read a target.
pub record TargetLib : Type 0 where
  pub trim_space : Bytes → Bytes
  pub parse_url : Bytes → Option TargetUrl
  pub atoi : Bytes → Option ℤ
  pub split_host_port : Bytes → Option (Bytes × Bytes)
  pub on_windows : Bool

pub data Kind : Type 0 where
  kind_http kind_https kind_file : Kind

pub record Target : Type 0 where
  pub kind : Kind
  pub url : Option TargetUrl
  pub dir : Bytes

pub data TargetError : Type 0 where
  missing_target invalid_target missing_host empty_path unsupported_scheme bad_port : TargetError

-- `strings.Contains(s, "://")`
unfoldable pub has_scheme : Bytes → Bool
has_scheme [] = false
has_scheme (b ∷ bs) = let rest = has_scheme bs in starts_with (ascii_bytes "://") (b ∷ bs) || rest

unfoldable pub is_letter : ℕ → Bool
is_letter b = leb 65 b && leb b 90 || leb 97 b && leb b 122

-- `windowsDriveSlash`
unfoldable pub has_drive_slash : Bytes → Bool
unfolding is_letter
has_drive_slash (a ∷ b ∷ c ∷ []) = (a == 47) && is_letter b && (c == 58)
has_drive_slash (a ∷ b ∷ c ∷ d ∷ _) = (a == 47) && is_letter b && (c == 58) && (d == 47)
has_drive_slash _ = false

abbrev pub rest_of : Bytes → Bytes
rest_of [] = []
rest_of (b ∷ bs) = bs

-- `stripWindowsDriveSlash`
unfoldable pub strip_drive_slash : Bool → Bytes → Bytes
unfolding has_drive_slash
strip_drive_slash windows dir = if windows && has_drive_slash dir then rest_of dir else dir

abbrev pub http_url : Bytes → TargetUrl
http_url host = record {
  scheme = ascii_bytes "http";
  host = host;
  path = [];
  raw_query = [];
  fragment = [];
}

unfoldable pub port_url : Bytes → ℤ → TargetError ⊎ TargetUrl
port_url s (negsuc n) = inl bad_port
port_url s (pos n) =
    if ltb n 1 || ltb 65535 n then inl bad_port else inr (http_url (ascii_bytes "localhost:" ++ s))

unfoldable pub host_port_url : Bytes → Option (Bytes × Bytes) → TargetError ⊎ TargetUrl
host_port_url s none = inl invalid_target
host_port_url s (some (host, port)) =
    if same_bytes host [] || same_bytes port [] then inl invalid_target else inr (http_url s)

-- `parseBare`
unfoldable pub parse_bare : TargetLib → Bytes → TargetError ⊎ TargetUrl
unfolding port_url host_port_url
parse_bare lib s = elim (lib.atoi s) [
  | some port ↦ port_url s port
  | none ↦ host_port_url s (lib.split_host_port s)
]

unfoldable pub bare_target : TargetError ⊎ TargetUrl → TargetError ⊎ Target
bare_target (inl e) = inl e
bare_target (inr u) = inr (record { kind = kind_http; url = some u; dir = [] })

unfoldable pub http_target : Kind → TargetUrl → TargetError ⊎ Target
http_target k u =
    if same_bytes u.host []
    then inl missing_host
    else inr
        (record { kind = k; url = some (record u { raw_query = []; fragment = [] }); dir = [] })

unfoldable pub file_target : Bool → Bytes → TargetError ⊎ Target
unfolding strip_drive_slash
file_target windows dir =
    if same_bytes dir []
    then inl empty_path
    else inr (record { kind = kind_file; url = none; dir = strip_drive_slash windows dir })

-- The switch on the scheme.
unfoldable pub url_target : Bool → Option TargetUrl → TargetError ⊎ Target
unfolding http_target file_target
url_target windows none = inl invalid_target
url_target windows (some u) =
    if same_bytes u.scheme (ascii_bytes "http")
    then http_target kind_http u
    else if same_bytes u.scheme (ascii_bytes "https")
    then http_target kind_https u
    else if same_bytes u.scheme (ascii_bytes "file")
    then file_target windows (if same_bytes u.host [] then u.path else u.host ++ u.path)
    else inl unsupported_scheme

-- `Parse`
unfoldable pub parse : TargetLib → Bytes → TargetError ⊎ Target
unfolding has_scheme parse_bare bare_target url_target
parse lib s =
    let t : Bytes = lib.trim_space s in
    if same_bytes t []
    then inl missing_target
    else if has_scheme t
    then url_target lib.on_windows (lib.parse_url t)
    else bare_target (parse_bare lib t)

-- What the code uses of the system to find a directory; `stat` says if a path is one.
pub record Dirs : Type 0 where
  pub is_abs : Bytes → Bool
  pub abs : Bytes → Option Bytes
  pub join : Bytes → Bytes → Bytes
  pub rel : Bytes → Bytes → Option Bytes
  pub eval_symlinks : Bytes → Option Bytes
  pub stat : Bytes → Option Bool
  pub separator : ℕ

pub data DirError : Type 0 where
  not_relative unresolved escapes not_there not_a_directory : DirError

abbrev pub up : Bytes
up = ascii_bytes ".."

-- `withinDir`, once `filepath.Rel` has told the way.
unfoldable pub stays : ℕ → Option Bytes → Bool
stays sep none = false
stays sep (some r) = not (same_bytes r up) && not (starts_with (up ++ sep ∷ []) r)

unfoldable pub within_dir : Dirs → Bytes → Bytes → Bool
unfolding stays
within_dir os base target =
    if same_bytes base target then true else stays os.separator (os.rel base target)

unfoldable pub stat_dir : Bytes → Option Bool → DirError ⊎ Bytes
stat_dir resolved none = inl not_there
stat_dir resolved (some false) = inl not_a_directory
stat_dir resolved (some true) = inr resolved

-- `checkDir`
unfoldable pub check_dir : Dirs → Bytes → DirError ⊎ Bytes
unfolding stat_dir
check_dir os resolved = stat_dir resolved (os.stat resolved)

unfoldable pub and_dir : Option Bytes → (Bytes → DirError ⊎ Bytes) → DirError ⊎ Bytes
and_dir none f = inl unresolved
and_dir (some d) f = f d

-- `ResolveCLIDir`
unfoldable pub resolve_cli_dir : Dirs → Bytes → DirError ⊎ Bytes
unfolding and_dir check_dir
resolve_cli_dir os dir =
    and_dir (os.abs dir) (λ a. and_dir (os.eval_symlinks a) (λ r. check_dir os r))

unfoldable pub inside_or_escapes :
    Dirs → Bytes → Bytes → (Bytes → DirError ⊎ Bytes) → DirError ⊎ Bytes
unfolding within_dir
inside_or_escapes os base target f = if within_dir os base target then f target else inl escapes

-- `ResolveProjectDir`, from its last steps to the first.
unfoldable pub on_joined : Dirs → Bytes → Bytes → DirError ⊎ Bytes
unfolding and_dir inside_or_escapes check_dir
on_joined os real joined =
    and_dir (os.eval_symlinks joined)
      (λ resolved. inside_or_escapes os real resolved (check_dir os))

unfoldable pub on_real : Dirs → Bytes → Bytes → Bytes → DirError ⊎ Bytes
unfolding on_joined
on_real os base dir real =
    and_dir (os.abs (os.join base dir))
      (λ joined. inside_or_escapes os base joined (on_joined os real))

unfoldable pub on_base : Dirs → Bytes → Bytes → DirError ⊎ Bytes
unfolding on_real
on_base os dir base = and_dir (os.eval_symlinks base) (on_real os base dir)

unfoldable pub resolve_project_dir : Dirs → Bytes → Bytes → DirError ⊎ Bytes
unfolding on_base
resolve_project_dir os project dir =
    if os.is_abs dir then inl not_relative else and_dir (os.abs project) (on_base os dir)
