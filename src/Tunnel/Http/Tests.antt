-- ===== src/Tunnel/Http/Tests.antt =====
-- Runs of an HTTP stream, and its theorems at concrete inputs.
use tuzy.Shared.{
  ◌+◌, ◌/◌, ◌<◌, ◌≡◌, inr, refl, true, false, List, [], ◌∷◌, ◌++◌, flatten, length, arith,
}
use tuzy.Protocol.{Bytes, Frame, req_body, stream_window}
use tuzy.Tunnel.Calls.{grants, returned}
use tuzy.Tunnel.Http.{
  HttpStream, finished, writing, new_http_stream, on_req_body, http_on_frame, Written, whole,
  closed_after, look, feed_step, HttpEvent, frame_in, feeds, http_step, http_run,
}
use tuzy.Tunnel.Http.Accounts.{IsConsistent, held, bodies, in_writing}
use tuzy.Tunnel.Http.Delivery.{http_run_in_order}
use tuzy.Tunnel.Http.Drain.{feeding, feeding_returns}
use tuzy.Tunnel.Http.Window.{windows, http_run_window}

abbrev body_frame : Bytes → Frame
body_frame p = record { type = req_body; stream_id = 3; payload = p; value = 0 }

-- Two chunks; the first is written, the second is in hand.
abbrev upload : List HttpEvent
upload =
    frame_in (body_frame (1 ∷ 2 ∷ []))
    ∷ feeds whole
    ∷ feeds whole
    ∷ feeds whole
    ∷ frame_in (body_frame (3 ∷ []))
    ∷ feeds whole
    ∷ []

abbrev after_upload : HttpStream
after_upload = record {
  cancelled = false;
  send_credit = record { avail = 1048576 };
  queue = [];
  queued = 1;
  req_ended = false;
  fed = false;
  feeder = writing (3 ∷ []);
  discard = false;
  ungranted = 2;
  written = 1 ∷ 2 ∷ [];
  pipe_ended = false;
}

upload_run : http_run 3 new_http_stream upload ≡ (after_upload, grants 2 ∷ [])
unfolding http_run http_step new_http_stream http_on_frame on_req_body feed_step look
upload_run = refl

http_run_in_order_example :
    after_upload.written ++ (in_writing after_upload.feeder ++ flatten after_upload.queue)
    ≡ bodies upload
http_run_in_order_example =
    http_run_in_order 3 upload after_upload (grants 2 ∷ []) upload_run refl refl refl

http_run_window_example :
    (held after_upload + after_upload.ungranted + windows (grants 2 ∷ []) ≡ length (bodies upload))
    × (after_upload.ungranted < stream_window / 4)
http_run_window_example = http_run_window 3 upload after_upload (grants 2 ∷ []) upload_run refl refl

-- The visitor is gone while the app still has to read three bytes.
abbrev left_over : HttpStream
left_over = record after_upload { cancelled = true; queue = (4 ∷ 5 ∷ []) ∷ []; queued = 3 }

left_over-IsConsistent : IsConsistent left_over
unfolding flatten
left_over-IsConsistent = record {
  counted = refl;
  bounded = omega arith;
  in_hand = omega arith;
  fed_finished = refl;
  emptied = refl;
  coalesced = omega arith;
}

abbrev closing_app : List Written
closing_app = whole ∷ whole ∷ whole ∷ closed_after 1 ∷ whole ∷ whole ∷ whole ∷ []

feeding_returns_example :
    ((http_run 3 left_over (feeding closing_app)).0.feeder ≡ finished)
    × ((http_run 3 left_over (feeding closing_app)).0.fed ≡ true)
    × (held (http_run 3 left_over (feeding closing_app)).0 ≡ 0)
    × (returned (http_run 3 left_over (feeding closing_app)).1 ≡ held left_over)
feeding_returns_example =
    feeding_returns 3 left_over closing_app left_over-IsConsistent (inr refl) (omega arith)
