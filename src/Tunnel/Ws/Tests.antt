-- ===== src/Tunnel/Ws/Tests.antt =====
-- Runs of a WebSocket stream, and its theorems at concrete inputs.
use tuzy.Shared.{
  ◌≤◌, ◌≡◌, refl, true, false, Option, none, some, List, [], ◌∷◌, ◌++◌, length, All, arith,
}
use tuzy.Protocol.{Bytes, Frame, FrameType, ws_text, ws_binary, ws_close}
use tuzy.Tunnel.Calls.{CloseMsg, sends_ctrl, ack_frame}
use tuzy.Tunnel.Ws.{WsMsg, WsStream, reading, looking, new_ws_stream, on_message, ws_on_frame}
use tuzy.Tunnel.Ws.Pumps.{edge_look, edge_step, WsEvent, frame_in, edge_goes, ws_step, ws_run}
use tuzy.Tunnel.Ws.Invariant.{in_hand, IsBounded, ws_run-IsBounded}
use tuzy.Tunnel.Ws.Closing.{closings, acknowledged, IsGoodCall, ws_run_closes_once}
use tuzy.Tunnel.Ws.Delivery.{messages, ws_run_in_order}

-- Every payload but the empty one is a close with code 4000.
abbrev any_close : Bytes → Option CloseMsg
any_close [] = none
any_close (b ∷ bs) = some (record { code = 4000; reason = b ∷ bs })

abbrev frame : FrameType → Bytes → Frame
frame t p = record { type = t; stream_id = 5; payload = p; value = 0 }

-- Two messages, of which the first is written.
abbrev chat : List WsEvent
chat =
    frame_in (frame ws_text (104 ∷ []))
    ∷ frame_in (frame ws_binary (1 ∷ 2 ∷ []))
    ∷ edge_goes true
    ∷ edge_goes true
    ∷ edge_goes true
    ∷ []

abbrev hi : WsMsg
hi = record { is_text = true; content = 104 ∷ [] }

abbrev blob : WsMsg
blob = record { is_text = false; content = 1 ∷ 2 ∷ [] }

abbrev after_chat : WsStream
after_chat = record {
  cancelled = false;
  credit = record { outstanding = 0 };
  send_credit = record { avail = 1048576 };
  unacked = 1;
  inbox = blob ∷ [];
  remote_close = none;
  local_req = none;
  close_sent = false;
  edge_pump = looking;
  local_pump = reading;
  delivered = hi ∷ [];
}

chat_run : ws_run any_close 5 new_ws_stream chat ≡ (after_chat, sends_ctrl (ack_frame 5 1) ∷ [])
unfolding ws_run ws_step new_ws_stream ws_on_frame on_message edge_step edge_look
chat_run = refl

ws_run_in_order_example :
    after_chat.delivered ++ (in_hand after_chat.edge_pump ++ after_chat.inbox) ≡ messages chat
ws_run_in_order_example =
    ws_run_in_order any_close 5 chat after_chat (sends_ctrl (ack_frame 5 1) ∷ []) chat_run refl refl

abbrev closing : List WsEvent
closing = frame_in (frame ws_close (7 ∷ [])) ∷ edge_goes true ∷ edge_goes true ∷ edge_goes true ∷ []

new-IsBounded : IsBounded new_ws_stream
unfolding new_ws_stream
new-IsBounded = record { room = omega arith; tolerated = omega arith; credited = omega arith }

ws_run-IsBounded_example : IsBounded (ws_run any_close 5 new_ws_stream (chat ++ closing)).0
ws_run-IsBounded_example =
    ws_run-IsBounded any_close 5 new_ws_stream (chat ++ closing) new-IsBounded

ws_run_closes_once_example :
    (closings (ws_run any_close 5 new_ws_stream (chat ++ closing)).1 ≤ 1)
    × All IsGoodCall (ws_run any_close 5 new_ws_stream (chat ++ closing)).1
    × (acknowledged (ws_run any_close 5 new_ws_stream (chat ++ closing)).1
        ≡ length (ws_run any_close 5 new_ws_stream (chat ++ closing)).0.delivered)
ws_run_closes_once_example = ws_run_closes_once any_close 5 (chat ++ closing)
