-- ===== src/Tunnel/Answer/Relays.antt =====
-- What the edge is sent of a response.
use tuzy.Shared.{◌≤◌, ◌≡◌, ◌⊎◌, List, [], ◌∷◌, ◌++◌, flatten, map, length, All}
use tuzy.Protocol.{Bytes, max_body_chunk}
use tuzy.Tunnel.Flow.{SendError, Sender, Outcome, gives, fails, waits, stuck}
use tuzy.Tunnel.Flow.Body.{IsChunk, body, IsRead}
use tuzy.Tunnel.Answer.Choosing.{Response, Choice, nothing, own, relays}
use tuzy.Tunnel.Answer.{
  Piece, to_data, to_ctrl, head, chunk, ended, reset_credit, reset_local, Ending, own_page,
}

-- How what is sent may end: not at all, by one RESET, or by RES_END, but that only if nothing is left.
abbrev IsTail : Bytes → List Piece → Type 0
IsTail rest [] = Unit {0}
IsTail rest (ended ∷ []) = rest ≡ []
IsTail rest (reset_credit ∷ []) = Unit {0}
IsTail rest (reset_local ∷ []) = Unit {0}
IsTail rest _ = ⊥

-- The calls: RES_HEAD, then frames that hold a first part of the body, and an end.
record Relayed (r : Response) (w : List Piece) : Type 0 where
  pub chunks : List Bytes
  pub rest : Bytes
  pub tail : List Piece
  pub shape : w ≡ head r.status r.headers ∷ (map chunk chunks ++ tail)
  pub content : flatten chunks ++ rest ≡ body r.content
  pub sizes : All IsChunk chunks
  pub end : IsTail rest tail

abbrev IsSent : Response → List Piece → Type 0
IsSent r w = (w ≡ []) ⊎ Relayed r w

-- A frame that takes its place leaves those before.
Placed : Sender → Outcome (Unit {0}) → Type 0
Placed s (gives t s' es) = s'.frames ≡ s.frames
Placed s (fails e s') = Unit {0}
Placed s (waits s') = Unit {0}
Placed s stuck = ⊥

-- An ending sends one RESET or nothing.
IsEnding : Ending → Type 0
IsEnding ending = (e : SendError) (rest : Bytes) → IsTail rest (ending e)

-- What a response is answered with: nothing, or among the data frames RES_HEAD, then frames that hold a first part of
-- the body, and then RES_END at most, but that only if nothing is left and no RESET is sent; among the control frames
-- at most one RESET.
pub record IsRelayed (r : Response) (w : List Piece) : Type 0 where
  pub chunks : List Bytes
  pub rest : Bytes
  pub tail : List Piece
  pub data_frames : to_data w ≡ head r.status r.headers ∷ (map chunk chunks ++ tail)
  pub content : flatten chunks ++ rest ≡ body r.content
  pub sizes : All IsChunk chunks
  pub end : (tail ≡ []) ⊎ ((tail ≡ ended ∷ []) × (rest ≡ []) × (to_ctrl w ≡ []))
  pub ctrl_frames :
      (to_ctrl w ≡ []) ⊎ ((to_ctrl w ≡ reset_credit ∷ []) ⊎ (to_ctrl w ≡ reset_local ∷ []))

abbrev pub IsAnswer : Response → List Piece → Type 0
IsAnswer r w = ((to_data w ≡ []) × (to_ctrl w ≡ [])) ⊎ IsRelayed r w

-- What a choice is answered with.
abbrev pub Answers : Choice → List Piece → Type 0
Answers nothing w = (to_data w ≡ []) × (to_ctrl w ≡ [])
Answers (own page) w = IsAnswer (own_page page) w
Answers (relays r) w = IsAnswer r w

-- The reads of what is relayed keep the contract of `Read`.
abbrev pub IsReadable : Choice → Type 0
IsReadable nothing = Unit {0}
IsReadable (own page) = length page.1 ≤ max_body_chunk
IsReadable (relays r) = IsRead r.content
