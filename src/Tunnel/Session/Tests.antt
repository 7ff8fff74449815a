-- ===== src/Tunnel/Session/Tests.antt =====
-- A run of a session, and its theorem at a concrete input.
use tuzy.Shared.{refl, ◌+◌, ◌≡◌, true, none, some, List, [], ◌∷◌}
use tuzy.Protocol.{object}
use tuzy.Protocol.Decode.{decode, decode_frame}
use tuzy.Tunnel.Http.{
  whole, new_http_stream, on_req_body, http_on_frame, look, write_chunk, grant_chunk, leave,
  feed_step,
}
use tuzy.Tunnel.Session.{
  Json, ReqHead, new_session, live, send_ctrl, send_grant, grant_conn, flush_conn, perform,
  find_stream, find_object, put_object, unlist, after_step,
}
use tuzy.Tunnel.Session.Reader.{
  binary_message, broken, open_fresh, open_stream, stream_on_frame, deliver, dispatch, cancel,
  on_decoded, read_message,
}
use tuzy.Tunnel.Session.Steps.{
  remove_stream, cancel_stream, end_stream, stream_goes, step, Event, reads, goes, feeds, ends,
  flushes_idle, flush_idle, run,
}
use tuzy.Tunnel.Session.Calls.{granted, IsCoalesced}
use tuzy.Tunnel.Session.Objects.{owed_all}
use tuzy.Tunnel.Session.Idle.{run_idle}
use tuzy.Tunnel.Session.Balance.{IsValid}
use tuzy.Tunnel.Session.Conservation.{arrivals, run_conserves, run-IsValid}

-- A library that takes every payload for a GET request.
abbrev get : ReqHead
get = record { method = "GET"; path = "/"; headers = []; remote_ip = ""; kind = "http" }

abbrev lenient : Json
lenient = record {
  codecs = record { utf8_valid = λ b. true; unmarshal_map = λ b. object };
  req_head_of = λ b. some get;
  goaway_of = λ b. none;
  close_of = λ b. none;
}

-- A request with five bytes of body, of which two are passed on before it ends; a late frame of it.
abbrev visit : List Event
visit =
    reads (binary_message (0x10 ∷ 0 ∷ 0 ∷ 0 ∷ 1 ∷ 0x7b ∷ 0x7d ∷ []))
    ∷ reads (binary_message (0x11 ∷ 0 ∷ 0 ∷ 0 ∷ 1 ∷ 1 ∷ 2 ∷ []))
    ∷ reads (binary_message (0x11 ∷ 0 ∷ 0 ∷ 0 ∷ 1 ∷ 3 ∷ 4 ∷ 5 ∷ []))
    ∷ goes 1 (feeds whole)
    ∷ goes 1 (feeds whole)
    ∷ goes 1 (feeds whole)
    ∷ ends 1
    ∷ flushes_idle
    ∷ reads (binary_message (0x11 ∷ 0 ∷ 0 ∷ 0 ∷ 1 ∷ 6 ∷ []))
    ∷ reads broken
    ∷ []

run_conserves_example :
    (granted (run lenient new_session visit).ctrl
        + (run lenient new_session visit).conn_ungranted
        + owed_all (run lenient new_session visit).handlers
      ≡ arrivals lenient new_session visit)
    × IsCoalesced (run lenient new_session visit)
run_conserves_example = run_conserves lenient visit

visit_settles :
    (live (run lenient new_session visit).handlers ≡ 0)
    × ((run lenient new_session visit).flushing ≡ 0)
    × (granted (run lenient new_session visit).ctrl ≡ 3)
    × (owed_all (run lenient new_session visit).handlers ≡ 3)
unfolding new_session live send_ctrl send_grant grant_conn flush_conn perform find_stream
    find_object put_object unlist after_step open_fresh open_stream stream_on_frame deliver dispatch
    cancel on_decoded read_message flush_idle remove_stream cancel_stream end_stream stream_goes
    step run new_http_stream on_req_body http_on_frame look write_chunk grant_chunk leave feed_step
    decode decode_frame
visit_settles = (refl, refl, refl, refl)

run_idle_example :
    (granted (run lenient new_session visit).ctrl
        + owed_all (run lenient new_session visit).handlers
      ≡ arrivals lenient new_session visit)
    × ((run lenient new_session visit).conn_ungranted ≡ 0)
run_idle_example = run_idle lenient visit tt visit_settles.0 visit_settles.1

run-IsValid_example : IsValid (run lenient new_session visit)
run-IsValid_example = run-IsValid lenient visit
