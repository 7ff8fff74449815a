-- ===== src/Tunnel/Ws/Closing.antt =====
-- WS_CLOSE and ACK frames of a WebSocket stream.
use tuzy.Shared.{
  ℕ, ◌+◌, ◌≤◌, ◌≡◌, inl, inr, refl, Bool, true, false, Option, Option-cases, List, [], ◌∷◌, ◌++◌,
  length, length-append, All, All-append, arith, if◌then◌else◌,
}
use tuzy.Protocol.{Bytes, FrameType, Frame, ws_close, window}
use tuzy.Tunnel.Flow.{add, try_take}
use tuzy.Tunnel.Calls.{
  Call, grants, flushes, sends_ctrl, sends_data, window_frame, ack_frame, reset_frame, drain_frame,
  text_frame, binary_frame, close_frame, CloseMsg,
}
use tuzy.Tunnel.CloseReason.{local_close_status, IsSendable, reason_limit, sendable_code-IsSendable}
use tuzy.Tunnel.CloseReason.Cut.{length-truncate_reason}
use tuzy.Tunnel.Ws.{
  WsMsg, WsStream, EdgePump, looking, stopped, holding, writing, LocalPump, reading, ended,
  relaying, new_ws_stream, send_close, on_message, ws_on_frame,
}
use tuzy.Tunnel.Ws.Pumps.{
  edge_look, edge_step, LocalRead, message, failure, local_read, local_step, WsEvent, frame_in,
  edge_goes, local_goes, closes, cancels, or_same, ws_step, ws_run,
}

-- The WS_CLOSE frames among the calls, and the messages acknowledged.
abbrev pub closings : List Call → ℕ
closings [] = 0
closings (sends_data (close_frame id c) ∷ cs) = 1 + closings cs
closings (_ ∷ cs) = closings cs

abbrev pub acknowledged : List Call → ℕ
acknowledged [] = 0
acknowledged (sends_ctrl (ack_frame id n) ∷ cs) = n + acknowledged cs
acknowledged (_ ∷ cs) = acknowledged cs

-- A close frame that the edge may pass on: a code that may be sent, and a short reason.
abbrev pub IsGoodCall : Call → Type 0
IsGoodCall (sends_data (close_frame id c)) = IsSendable c.code × (length c.reason ≤ reason_limit)
IsGoodCall _ = Unit {0}

abbrev closes_sent : WsStream → ℕ
closes_sent w = if w.close_sent then 1 else 0

-- What a step does to these: a WS_CLOSE marks the stream, which sends no second one, and an ACK is for a
-- message that the local app was given.
abbrev Counts : WsStream → WsStream × List Call → Type 0
Counts w r =
    (closes_sent w + closings r.1 ≡ closes_sent r.0)
    × (length w.delivered + acknowledged r.1 ≡ length r.0.delivered)
    × All IsGoodCall r.1

send_close-Counts : (id : ℕ) (w : WsStream) (c : CloseMsg) → Counts w (send_close id w c)
unfolding send_close
send_close-Counts id w c =
    ground (arith, sendable_code-IsSendable c.code, length-truncate_reason c.reason)

on_message-Counts : (w : WsStream) (m : WsMsg) → Counts w (on_message w m, [])
unfolding on_message
on_message-Counts w m = ground arith

ws_on_frame-Counts :
    (u : Bytes → Option CloseMsg) (id : ℕ) (w : WsStream) (f : Frame) (t : FrameType)
    → f.type ≡ t
    → Counts w (or_same w (ws_on_frame u id w f))
unfolding ws_on_frame or_same
ws_on_frame-Counts u id w f ws_close t = ground arith
ws_on_frame-Counts u id w f window t = elim (Option-cases (add w.send_credit f.value)) [
  | inl e ↦ ground (arith, e)
  | inr (c, e) ↦ ground (arith, e)
]
ws_on_frame-Counts u id w f _ t = ground (
  arith,
  on_message-Counts w (record { is_text = true; content = f.payload }),
  on_message-Counts w (record { is_text = false; content = f.payload }),
)

edge_look-Counts : (id : ℕ) (w : WsStream) (q : List WsMsg) → Counts w (edge_look id w q)
unfolding edge_look
edge_look-Counts id w [] = elim (Option-cases w.remote_close) [
  | inr (c, e) ↦ ground (arith, e, send_close-Counts id w c)
  | inl e ↦ elim (Option-cases w.local_req) [
    | inr (c, e') ↦ ground (arith, e, e', send_close-Counts id w c)
    | inl e' ↦ ground (arith, e, e')
  ]
]
edge_look-Counts id w (m ∷ rest) = ground arith

edge_step-Counts :
    (id : ℕ) (w : WsStream) (written : Bool) (p : EdgePump)
    → w.edge_pump ≡ p
    → Counts w (edge_step id w written)
unfolding edge_step
edge_step-Counts id w written looking p = ground (arith, edge_look-Counts id w w.inbox)
edge_step-Counts id w written stopped p = ground arith
edge_step-Counts id w written (holding m) p = ground arith
edge_step-Counts id w written (writing m) p = ground (arith, length-append w.delivered (m ∷ []))

local_read-Counts : (id : ℕ) (w : WsStream) (r : LocalRead) → Counts w (local_read id w r)
unfolding local_read
local_read-Counts id w (message m) = ground arith
local_read-Counts id w (failure e) =
    ground (arith, send_close-Counts id (record w { local_pump = ended }) (local_close_status e))

local_step-Counts :
    (id : ℕ) (w : WsStream) (r : LocalRead) (p : LocalPump)
    → w.local_pump ≡ p
    → Counts w (local_step id w r)
unfolding local_step try_take
local_step-Counts id w r reading p = ground (arith, local_read-Counts id w r)
local_step-Counts id w r (relaying m) p = ground arith
local_step-Counts id w r ended p = ground arith

ws_step-Counts :
    (u : Bytes → Option CloseMsg) (id : ℕ) (w : WsStream) (e : WsEvent)
    → Counts w (ws_step u id w e)
ws_step-Counts u id w (frame_in f) = unfold ws_step in ws_on_frame-Counts u id w f f.type refl
ws_step-Counts u id w (edge_goes written) =
    unfold ws_step in edge_step-Counts id w written w.edge_pump refl
ws_step-Counts u id w (local_goes r) = unfold ws_step in local_step-Counts id w r w.local_pump refl
ws_step-Counts u id w (closes c) = unfold ws_step in ground arith
ws_step-Counts u id w cancels = unfold ws_step in ground arith

closings-append : (cs ds : List Call) → closings (cs ++ ds) ≡ closings cs + closings ds
closings-append [] ds = omega arith
closings-append (sends_data (close_frame id c) ∷ cs) ds = omega (arith, closings-append cs ds)
closings-append (sends_data (text_frame id p) ∷ cs) ds = closings-append cs ds
closings-append (sends_data (binary_frame id p) ∷ cs) ds = closings-append cs ds
closings-append (sends_ctrl f ∷ cs) ds = closings-append cs ds
closings-append (grants n ∷ cs) ds = closings-append cs ds
closings-append (flushes ∷ cs) ds = closings-append cs ds

acknowledged-append :
    (cs ds : List Call) → acknowledged (cs ++ ds) ≡ acknowledged cs + acknowledged ds
acknowledged-append [] ds = omega arith
acknowledged-append (sends_ctrl (ack_frame id n) ∷ cs) ds = omega (arith, acknowledged-append cs ds)
acknowledged-append (sends_ctrl (window_frame id n) ∷ cs) ds = acknowledged-append cs ds
acknowledged-append (sends_ctrl (reset_frame id c) ∷ cs) ds = acknowledged-append cs ds
acknowledged-append (sends_ctrl drain_frame ∷ cs) ds = acknowledged-append cs ds
acknowledged-append (sends_data f ∷ cs) ds = acknowledged-append cs ds
acknowledged-append (grants n ∷ cs) ds = acknowledged-append cs ds
acknowledged-append (flushes ∷ cs) ds = acknowledged-append cs ds

ws_run-Counts :
    (u : Bytes → Option CloseMsg) (id : ℕ) (w : WsStream) (es : List WsEvent)
    → Counts w (ws_run u id w es)
unfolding ws_run
ws_run-Counts u id w [] = (omega arith, omega arith, tt)
ws_run-Counts u id w (e ∷ es) =
    let s = ws_step u id w e in
    let r = ws_run u id s.0 es in
    let (c, a, g) = ws_step-Counts u id w e in
    let (c', a', g') = ws_run-Counts u id s.0 es in
    (
      omega (arith, c, c', closings-append s.1 r.1),
      omega (arith, a, a', acknowledged-append s.1 r.1),
      All-append IsGoodCall s.1 r.1 g g',
    )

-- Over any history of a new stream, at most one WS_CLOSE is sent to the edge, each with a code that may
-- be sent and a reason of at most 120 bytes, and exactly the messages that the local app was given are
-- acknowledged.
pub ws_run_closes_once :
    (u : Bytes → Option CloseMsg) (id : ℕ) (es : List WsEvent)
    → let r = ws_run u id new_ws_stream es in
      (closings r.1 ≤ 1) × All IsGoodCall r.1 × (acknowledged r.1 ≡ length r.0.delivered)
ws_run_closes_once u id es =
    let (c, a, g) = ws_run-Counts u id new_ws_stream es in
    (unfold new_ws_stream in ground (arith, c), g, unfold new_ws_stream in omega (arith, a))
