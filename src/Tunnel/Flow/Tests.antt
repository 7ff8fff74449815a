-- ===== src/Tunnel/Flow/Tests.antt =====
-- Runs of the counters and of `sendBody`, and their theorems at concrete inputs.
use tuzy.Shared.{◌+◌, ◌≡◌, refl, List, [], ◌∷◌, arith}
use tuzy.Tunnel.Flow.{
  send_chunk, send_piece, acquire, send_data, add, grant_stream, Event, woken, timer, Sender,
  changes, credit_timeout, gives, fails, Reader, reads, at_eof, send_body,
}
use tuzy.Tunnel.Flow.Body.{Delivers, send_body-Delivers}
use tuzy.Tunnel.Flow.Complete.{places, send_body_complete}

abbrev small : Sender
small = record {
  stream = record { avail = 2 };
  conn = record { avail = 10 };
  frames = [];
  total = 0;
}

abbrev upload : Reader
upload = reads (1 ∷ 2 ∷ 3 ∷ []) (at_eof (4 ∷ []))

-- Two bytes go at once, the third after a grant of the stream; then the credit runs out.
abbrev trickle : List Event
trickle = woken [] ∷ woken (grant_stream 1 ∷ []) ∷ woken [] ∷ timer ∷ []

trickle_run :
    send_body upload small trickle
    ≡ fails credit_timeout (record {
      stream = record { avail = 0 };
      conn = record { avail = 7 };
      frames = (1 ∷ 2 ∷ []) ∷ (3 ∷ []) ∷ [];
      total = 3;
    })
unfolding send_body send_chunk send_piece acquire send_data changes add
trickle_run = refl

send_body-Delivers_example :
    Delivers small trickle (1 ∷ 2 ∷ 3 ∷ 4 ∷ []) (send_body upload small trickle)
send_body-Delivers_example = send_body-Delivers upload small trickle (omega arith, omega arith)

abbrev roomy : Sender
roomy = record small { stream = record { avail = 9 } }

send_body_complete_example :
    (s' : Sender) × (send_body upload roomy (places upload) ≡ gives tt s' []) × (s'.total ≡ 0 + 4)
send_body_complete_example = send_body_complete upload roomy tt (omega arith, omega arith)
