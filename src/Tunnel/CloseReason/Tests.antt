-- ===== src/Tunnel/CloseReason/Tests.antt =====
-- Runs of the close code and the close reason, and their theorems at concrete inputs.
use tuzy.Shared.{ℕ, ◌≤◌, ◌<◌, ◌≡◌, ◌⊎◌, refl, [], ◌∷◌, ◌++◌, length, take}
use tuzy.Protocol.{Bytes}
use tuzy.Tunnel.CloseReason.{truncate_reason, cut_loop, reason_limit, rune_width}
use tuzy.Tunnel.CloseReason.Cut.{IsCut, truncate_reason_lem}

-- 119 letters and a sequence of two bytes: 121 bytes.
abbrev ten : Bytes
ten = 97 ∷ 97 ∷ 97 ∷ 97 ∷ 97 ∷ 97 ∷ 97 ∷ 97 ∷ 97 ∷ 97 ∷ []

abbrev sixty : Bytes
sixty = ten ++ ten ++ ten ++ ten ++ ten ++ ten

abbrev nine : Bytes
nine = 97 ∷ 97 ∷ 97 ∷ 97 ∷ 97 ∷ 97 ∷ 97 ∷ 97 ∷ 97 ∷ []

abbrev accented : Bytes
accented = sixty ++ ten ++ ten ++ ten ++ ten ++ ten ++ nine ++ 195 ∷ 169 ∷ []

accented_run : truncate_reason accented ≡ take 119 accented
unfolding truncate_reason cut_loop rune_width
accented_run = refl

truncate_reason_lem_example :
    ((length accented ≤ reason_limit) × (truncate_reason accented ≡ accented))
    ⊎ ((reason_limit < length accented)
        × (cut : ℕ) × (truncate_reason accented ≡ take cut accented)
        × IsCut accented cut)
truncate_reason_lem_example = truncate_reason_lem accented
