-- ===== src/FileServer/Writer.antt =====
-- internal/fileserver/fileserver.go: `RoundTrip` with its `pipeResponseWriter`.
use tuzy.Shared.{
  ℕ, ◌+◌, ◌≡◌, refl, sym, ap, ◌∙◌, Bool, true, false, ◌&&◌, not, List, [], ◌∷◌, ◌++◌, append-nil,
  append_assoc, if◌then◌else◌,
}
use Prim.Native.String.{String}
use text.Mathlib.Text.{◌==◌ as str_eq}
use tuzy.Protocol.{Bytes}

-- How the writing end of the pipe was closed; the first close counts.
pub data PipeEnd : Type 0 where
  still_open with_eof with_error : PipeEnd

-- `pipeResponseWriter`: with the bytes that its reader got, and how often `headerDone` was closed.
pub record Writer : Type 0 where
  pub status : ℕ
  pub wrote_head : Bool
  pub header_once : Bool
  pub header_done : ℕ
  pub body : Bytes
  pub pipe : PipeEnd

abbrev pub new_writer : Writer
new_writer = record {
  status = 200;
  wrote_head = false;
  header_once = false;
  header_done = 0;
  body = [];
  pipe = still_open;
}

-- `w.headerOnce.Do`
unfoldable pub close_header : Writer → Writer
close_header w =
    if w.header_once then w else record w { header_once = true; header_done = w.header_done + 1 }

-- `WriteHeader`
unfoldable pub write_header : ℕ → Writer → Writer
unfolding close_header
write_header status w =
    if w.wrote_head then w else close_header (record w { wrote_head = true; status = status })

unfoldable pub close_pipe : PipeEnd → Writer → Writer
close_pipe end w = elim w.pipe [
  | still_open ↦ record w { pipe = end }
  | with_eof ↦ w
  | with_error ↦ w
]

-- `Write`, where the reader takes the bytes.
unfoldable pub write : Bytes → Writer → Writer
unfolding write_header
write p w =
    let w' : Writer = if w.wrote_head then w else write_header 200 w in
    record w' { body = w'.body ++ p }

-- `finish` and `abortOnPanic`
unfoldable pub finish : Writer → Writer
unfolding write_header close_pipe
finish w = close_pipe with_eof (if w.wrote_head then w else write_header 200 w)

unfoldable pub abort_on_panic : Writer → Writer
unfolding write_header close_pipe
abort_on_panic w = close_pipe with_error (if w.wrote_head then w else write_header 500 w)

-- What a handler does.
pub data Act : Type 0 where
  sets_status : ℕ → Act
  writes : Bytes → Act

unfoldable pub handle : List Act → Writer → Writer
unfolding write_header write
handle [] w = w
handle (sets_status n ∷ as') w = handle as' (write_header n w)
handle (writes p ∷ as') w = handle as' (write p w)

-- The goroutine of `RoundTrip`: the handler, which may panic after it did so much.
unfoldable pub serve_file : List Act → Bool → Writer
unfolding handle finish abort_on_panic
serve_file as' panics =
    let w : Writer = handle as' new_writer in finish (if panics then abort_on_panic w else w)

pub data Answered : Type 0 where
  not_allowed : Answered
  streams : Writer → Answered

-- `RoundTrip`
unfoldable pub round_trip : String → List Act → Bool → Answered
unfolding serve_file
round_trip method as' panics =
    if not (str_eq method "GET") && not (str_eq method "HEAD")
    then not_allowed
    else streams (serve_file as' panics)

-- The status that a visitor gets: the first that the handler sets, 200 if it writes before that or does
-- nothing, and 500 if it panics first.
abbrev pub first_status : List Act → Bool → ℕ
first_status [] panics = if panics then 500 else 200
first_status (sets_status n ∷ as') panics = n
first_status (writes p ∷ as') panics = 200

abbrev pub written : List Act → Bytes
written [] = []
written (sets_status n ∷ as') = written as'
written (writes p ∷ as') = p ++ written as'

abbrev pub ending : Bool → PipeEnd
ending panics = if panics then with_error else with_eof

-- A writer whose head is out.
abbrev pub sent : ℕ → Bytes → PipeEnd → Writer
sent n p end = record {
  status = n;
  wrote_head = true;
  header_once = true;
  header_done = 1;
  body = p;
  pipe = end;
}

handle_sent :
    (as' : List Act) (n : ℕ) (p : Bytes)
    → handle as' (sent n p still_open) ≡ sent n (p ++ written as') still_open
unfolding handle
handle_sent [] n p = ap (λ q. sent n q still_open) (sym (append-nil p))
handle_sent (sets_status m ∷ as') n p = handle_sent as' n p
handle_sent (writes q ∷ as') n p =
    handle_sent as' n (p ++ q) ∙ ap (λ r. sent n r still_open) (append_assoc p q (written as'))

-- Whatever the handler does and wherever it panics: the caller is woken once, with the status of the first
-- head; the body is all that was written; and it ends as complete only if the handler did not panic.
pub serve_file_lem :
    (as' : List Act) (panics : Bool)
    → serve_file as' panics ≡ sent (first_status as' panics) (written as') (ending panics)
unfolding serve_file handle finish abort_on_panic close_pipe
serve_file_lem [] true = refl
serve_file_lem [] false = refl
serve_file_lem (sets_status n ∷ as') true =
    ap (λ w. finish (abort_on_panic w)) (handle_sent as' n [])
serve_file_lem (sets_status n ∷ as') false = ap finish (handle_sent as' n [])
serve_file_lem (writes p ∷ as') true = ap (λ w. finish (abort_on_panic w)) (handle_sent as' 200 p)
serve_file_lem (writes p ∷ as') false = ap finish (handle_sent as' 200 p)
