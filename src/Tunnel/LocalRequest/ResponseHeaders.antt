-- ===== src/Tunnel/LocalRequest/ResponseHeaders.antt =====
-- internal/tunnel/http_stream.go: `responseHeaders`. The iteration over the header map of a response is a list in the
-- order that the map gives.
use tuzy.Shared.{ℕ, Bool, ◌||◌, List, [], ◌∷◌, ◌++◌, ◌==◌, map, same_bytes, if◌then◌else◌}
use tuzy.Protocol.{Bytes}
use tuzy.Tunnel.CloseReason.{ascii_bytes}
use tuzy.Tunnel.LocalRequest.{HeaderLine, HttpLib, is_one_of, hop_by_hop}

-- `http.Header`: the values of each key.
abbrev pub HeaderMap : Type 0
HeaderMap = List (Bytes × List Bytes)

-- `http.Header.Values` of a canonical key.
unfoldable pub values : Bytes → HeaderMap → List Bytes
values key [] = []
values key ((k, vs) ∷ h) = let rest = values key h in if same_bytes k key then vs else rest

-- `strings.Split(v, ",")`, from the back: the first piece grows.
abbrev pub comma : ℕ
comma = 44

abbrev pub onto_piece : ℕ → List Bytes → List Bytes
onto_piece b [] = (b ∷ []) ∷ []
onto_piece b (p ∷ ps) = (b ∷ p) ∷ ps

unfoldable pub split_commas : Bytes → List Bytes
split_commas [] = [] ∷ []
split_commas (b ∷ bs) =
    let rest = split_commas bs in if b == comma then [] ∷ rest else onto_piece b rest

-- The names that `Connection` lists.
unfoldable pub listed_in : HttpLib → List Bytes → List Bytes
unfolding split_commas
listed_in lib [] = []
listed_in lib (v ∷ vs) =
    map (λ t. lib.lower (lib.trim_space t)) (split_commas v) ++ listed_in lib vs

unfoldable pub is_dropped : HttpLib → List Bytes → Bytes → Bool
is_dropped lib listed name =
    is_one_of (lib.lower name) hop_by_hop || is_one_of (lib.lower name) listed

unfoldable pub lines_of : Bytes → List Bytes → List HeaderLine
lines_of name vs = map (λ v. (name, v)) vs

unfoldable pub forward : HttpLib → List Bytes → HeaderMap → List HeaderLine
unfolding is_dropped lines_of
forward lib listed [] = []
forward lib listed ((name, vs) ∷ h) =
    let rest = forward lib listed h in
    if is_dropped lib listed name then rest else lines_of name vs ++ rest

unfoldable pub response_headers : HttpLib → HeaderMap → List HeaderLine
unfolding values listed_in forward
response_headers lib h = forward lib (listed_in lib (values (ascii_bytes "Connection") h)) h
