-- ===== src/Inspector/ContentLength.antt =====
-- internal/inspector/capture.go: `declaredContentLength`, over the bytes of the headers.
use tuzy.Shared.{
  same_bytes, ℕ, zero, suc, ◌+◌, ◌-◌, ◌*◌, ◌^◌, Bool, ◌&&◌, Option, none, some, List, [], ◌∷◌, ltb,
  leb, ◌==◌, if◌then◌else◌, length,
}
use mathlib.Core.List.{reverse, map}
use tuzy.Protocol.{Bytes}
use tuzy.Inspector.{Header}

-- `strings.EqualFold` with "content-length", whose letters fold to nothing beyond ASCII.
unfoldable pub lower : ℕ → ℕ
lower b = if leb 65 b && leb b 90 then b + 32 else b

abbrev pub content_length : Bytes
content_length =
    99 ∷ 111 ∷ 110 ∷ 116 ∷ 101 ∷ 110 ∷ 116 ∷ 45 ∷ 108 ∷ 101 ∷ 110 ∷ 103 ∷ 116 ∷ 104 ∷ []

unfoldable pub is_content_length : Bytes → Bool
unfolding lower
is_content_length name = same_bytes (map lower name) content_length

-- The white space of `strings.TrimSpace`, in UTF-8.
abbrev pub spaces : List Bytes
spaces =
    (9 ∷ [])
    ∷ (10 ∷ [])
    ∷ (11 ∷ [])
    ∷ (12 ∷ [])
    ∷ (13 ∷ [])
    ∷ (32 ∷ [])
    ∷ (194 ∷ 133 ∷ [])
    ∷ (194 ∷ 160 ∷ [])
    ∷ (225 ∷ 154 ∷ 128 ∷ [])
    ∷ (226 ∷ 128 ∷ 128 ∷ [])
    ∷ (226 ∷ 128 ∷ 129 ∷ [])
    ∷ (226 ∷ 128 ∷ 130 ∷ [])
    ∷ (226 ∷ 128 ∷ 131 ∷ [])
    ∷ (226 ∷ 128 ∷ 132 ∷ [])
    ∷ (226 ∷ 128 ∷ 133 ∷ [])
    ∷ (226 ∷ 128 ∷ 134 ∷ [])
    ∷ (226 ∷ 128 ∷ 135 ∷ [])
    ∷ (226 ∷ 128 ∷ 136 ∷ [])
    ∷ (226 ∷ 128 ∷ 137 ∷ [])
    ∷ (226 ∷ 128 ∷ 138 ∷ [])
    ∷ (226 ∷ 128 ∷ 168 ∷ [])
    ∷ (226 ∷ 128 ∷ 169 ∷ [])
    ∷ (226 ∷ 128 ∷ 175 ∷ [])
    ∷ (226 ∷ 129 ∷ 159 ∷ [])
    ∷ (227 ∷ 128 ∷ 128 ∷ [])
    ∷ []

abbrev pub after : Bytes → Bytes → Option Bytes
after [] bs = some bs
after (a ∷ as') [] = none
after (a ∷ as') (b ∷ bs) = if a == b then after as' bs else none

abbrev pub after_any : List Bytes → Bytes → Option Bytes
after_any [] bs = none
after_any (p ∷ ps) bs =
    let rest = after_any ps bs in elim (after p bs) [ none ↦ rest | some r ↦ some r ]

-- No more pieces than bytes are cut.
abbrev pub trim_front : ℕ → List Bytes → Bytes → Bytes
trim_front zero ps bs = bs
trim_front (suc fuel) ps bs = elim (after_any ps bs) [ none ↦ bs | some r ↦ trim_front fuel ps r ]

unfoldable pub trim_space : Bytes → Bytes
trim_space bs =
    let front : Bytes = reverse (trim_front (length bs) spaces bs) in
    reverse (trim_front (length front) (map reverse spaces) front)

-- `strconv.ParseInt` in base 10, of 64 bits; none is an error, or a number below 0.
unfoldable pub digits : ℕ → Bytes → Option ℕ
digits n [] = some n
digits n (b ∷ bs) =
    let rest = digits (n * 10 + (b - 48)) bs in if leb 48 b && leb b 57 then rest else none

abbrev pub if_small : ℕ → Option ℕ → Option ℕ
if_small limit none = none
if_small limit (some n) = if ltb n limit then some n else none

unfoldable pub unsigned : ℕ → Bytes → Option ℕ
unfolding digits
unsigned limit [] = none
unsigned limit (b ∷ bs) = if_small limit (digits 0 (b ∷ bs))

unfoldable pub parse_size : Bytes → Option ℕ
unfolding unsigned
parse_size [] = none
parse_size (b ∷ bs) =
    if b == 43
    then unsigned (2 ^ 63) bs
    else if b == 45
    then unsigned 1 bs
    else unsigned (2 ^ 63) (b ∷ bs)

-- `declaredContentLength`: none for -1.
abbrev pub or_else : Option ℕ → Option ℕ → Option ℕ
or_else none o = o
or_else (some n) o = some n

unfoldable pub declared_content_length : List Header → Option ℕ
unfolding is_content_length parse_size trim_space
declared_content_length [] = none
declared_content_length ((name, value) ∷ hs) =
    let rest = declared_content_length hs in
    if is_content_length name then or_else (parse_size (trim_space value)) rest else rest
