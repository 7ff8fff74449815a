-- ===== src/Tunnel/Answer/Tests.antt =====
-- Answers to a visitor.
use tuzy.Shared.{◌≡◌, refl, true, false, some, List, [], ◌∷◌}
use tuzy.Tunnel.CloseReason.{ascii_bytes}
use tuzy.Tunnel.Flow.{
  Event, woken, Sender, new_credit, at_eof, send_body, send_chunk, send_piece, acquire, send_data,
  changes,
}
use tuzy.Tunnel.Answer.Choosing.{
  Response, auto, HostPolicy, Local, relays, choose, peek, preserves, is_host_check_rejection,
}
use tuzy.Tunnel.Answer.{head, chunk, ended, answer, take_place}
use tuzy.Tunnel.Answer.HostCheck.{IsChosen, choose-IsChosen}

-- A dev server that refuses the public host, and then answers the replay.
abbrev blocked : Response
blocked = record {
  status = 403;
  headers = [];
  content = at_eof (ascii_bytes "Invalid Host header");
}

abbrev welcome : Response
welcome = record { status = 200; headers = []; content = at_eof (104 ∷ 105 ∷ []) }

abbrev dev_server : Local
dev_server = record {
  built = some true;
  answer = some blocked;
  rebuilt = true;
  second = some welcome;
  gone = false;
  page = ([], []);
  bad_page = ([], []);
}

abbrev fresh : HostPolicy
fresh = record { host_header = auto; host_rewrite = false }

abbrev sender : Sender
sender = record { stream = new_credit 100; conn = new_credit 100; frames = []; total = 0 }

abbrev quick : List Event
quick = woken [] ∷ woken [] ∷ woken [] ∷ woken [] ∷ []

choose-IsChosen_example :
    IsChosen dev_server (some true) fresh (choose dev_server (some true) fresh)
choose-IsChosen_example = choose-IsChosen dev_server fresh

replayed : (choose dev_server (some true) fresh).choice ≡ relays welcome
unfolding choose preserves is_host_check_rejection peek
replayed = refl

answered :
    answer dev_server false fresh sender quick ≡ head 200 [] ∷ chunk (104 ∷ 105 ∷ []) ∷ ended ∷ []
unfolding answer take_place new_credit preserves is_host_check_rejection peek send_body send_chunk
    send_piece acquire send_data changes
answered = refl

abbrev plain_server : Local
plain_server = record dev_server { answer = some welcome }
