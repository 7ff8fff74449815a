-- ===== src/Tunnel/Answer.antt =====
-- internal/tunnel/http_stream.go: the rest of `run`, from the request to the end of the response (what
-- comes before the response is in Answer/Choosing), and `sendSmallResponse` of session.go.
-- The request that `buildRequest` makes, the headers that `responseHeaders` makes of an answer and the page of
-- `unreachableResponse` are given; the RESET with which `onFrame` ends a stream whose queue is full is in
-- Tunnel/Http; the recorder's hooks and the texts of errors are left out.
pub mod Choosing
pub mod Relays
pub mod HostCheck
mod Tests
use tuzy.Shared.{ℕ, ◌+◌, Bool, true, false, List, [], ◌∷◌, ◌++◌, map, if◌then◌else◌}
use tuzy.Protocol.{Bytes}
use tuzy.Tunnel.Flow.{
  Event, woken, timer, done, session_over, SendError, credit_timeout, cancelled, session_done,
  read_failed, Sender, changes, Outcome, gives, fails, waits, stuck, reads, at_eof, send_body,
}
use tuzy.Tunnel.Answer.Choosing.{
  Choice, Headers, HostPolicy, Local, Response, choose, nothing, own, relays,
}

-- What the edge is sent of a response. RESET is queued among the control frames, the others among the data frames.
pub data Piece : Type 0 where
  head : ℕ → Headers → Piece
  chunk : Bytes → Piece
  ended reset_credit reset_local : Piece

abbrev pub is_reset : Piece → Bool
is_reset reset_credit = true
is_reset reset_local = true
is_reset _ = false

-- Of the frames that are sent, in the order of the calls, those that each queue gets. The writer orders the two queues
-- against each other by its own rule (Tunnel/Writer).
unfoldable pub to_data : List Piece → List Piece
to_data [] = []
to_data (p ∷ ps) = let rest = to_data ps in if is_reset p then rest else p ∷ rest

unfoldable pub to_ctrl : List Piece → List Piece
to_ctrl [] = []
to_ctrl (p ∷ ps) = let rest = to_ctrl ps in if is_reset p then p ∷ rest else rest

-- `sendData` of RES_HEAD and of RES_END: a place in the queue.
unfoldable pub take_place : List Event → Sender → Outcome (Unit {0})
take_place [] s = waits s
take_place (woken cs ∷ es) s = gives tt (changes s cs) es
take_place (timer ∷ es) s = take_place es s
take_place (done ∷ es) s = fails cancelled s
take_place (session_over ∷ es) s = fails session_done s

-- How a body that was not sent in full ends: `over` says that the stream's context has ended.
abbrev pub Ending : Type 0
Ending = SendError → List Piece

unfoldable pub run_ending : Bool → Ending
run_ending over credit_timeout = reset_credit ∷ []
run_ending over cancelled = []
run_ending over session_done = []
run_ending over read_failed = if over then [] else reset_local ∷ []

unfoldable pub small_ending : Ending
small_ending e = reset_local ∷ []

abbrev pub sent_of : Sender → List Piece
sent_of s = map chunk s.frames

-- The end of a body that was sent in full.
unfoldable pub after_end : Outcome (Unit {0}) → List Piece
after_end (gives t s es) = ended ∷ []
after_end (fails e s) = []
after_end (waits s) = []
after_end stuck = []

-- What is sent by and after `sendBody`.
unfoldable pub after_body : Ending → Outcome (Unit {0}) → List Piece
unfolding after_end take_place
after_body ending (gives t s es) = sent_of s ++ after_end (take_place es s)
after_body ending (fails e s) = sent_of s ++ ending e
after_body ending (waits s) = sent_of s
after_body ending stuck = []

unfoldable pub after_head : Ending → Response → Outcome (Unit {0}) → List Piece
unfolding after_body
after_head ending r (gives t s es) =
    head r.status r.headers ∷ after_body ending (send_body r.content s es)
after_head ending r (fails e s) = []
after_head ending r (waits s) = []
after_head ending r stuck = []

-- RES_HEAD, the body and RES_END, or how it ends before.
unfoldable pub send_response : Ending → Response → Sender → List Event → List Piece
unfolding after_head
send_response ending r s es = after_head ending r (take_place es s)

-- `sendLocalError` by `sendSmallResponse`; the page is read in one go.
abbrev pub own_page : Headers × Bytes → Response
own_page (hs, text) = record { status = 502; headers = hs; content = reads text (at_eof []) }

unfoldable pub answer_with : Bool → Choice → Sender → List Event → List Piece
unfolding run_ending small_ending send_response
answer_with over nothing s es = []
answer_with over (own page) s es = send_response small_ending (own_page page) s es
answer_with over (relays r) s es = send_response (run_ending over) r s es

-- `run`
unfoldable pub answer : Local → Bool → HostPolicy → Sender → List Event → List Piece
unfolding choose answer_with
answer l over p s es = answer_with over (choose l l.built p).choice s es
