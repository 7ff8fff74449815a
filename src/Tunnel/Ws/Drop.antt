-- ===== src/Tunnel/Ws/Drop.antt =====
-- A close, from the visitor or from the agent, overtakes the messages that wait before it.
use tuzy.Shared.{
  ℕ, ◌≡◌, refl, ◌∙◌, Bool, true, false, Option, Option-cases, inl, inr, List, [], ◌∷◌, arith,
}
use tuzy.Protocol.{Bytes, FrameType, Frame, ws_close, window}
use tuzy.Tunnel.Flow.{add, try_take}
use tuzy.Tunnel.Calls.{CloseMsg}
use tuzy.Tunnel.Ws.{
  WsMsg, WsStream, EdgePump, looking, stopped, holding, writing, LocalPump, reading, ended,
  relaying, on_message, ws_on_frame, send_close,
}
use tuzy.Tunnel.Ws.Pumps.{
  close_pending, edge_look, edge_step, LocalRead, local_step, WsEvent, frame_in, edge_goes,
  local_goes, closes, cancels, or_same, ws_step, ws_run,
}

abbrev pub is_writing : EdgePump → Bool
is_writing (writing m) = true
is_writing _ = false

-- A close is requested and no write to the local socket is under way.
abbrev Closing : WsStream → Type 0
Closing w = (close_pending w ≡ true) × (is_writing w.edge_pump ≡ false)

-- It stays so, and the local app is given nothing.
abbrev Keeps : WsStream → WsStream → Type 0
Keeps w w' = Closing w' × (w'.delivered ≡ w.delivered)

frame_in-Keeps :
    (u : Bytes → Option CloseMsg) (id : ℕ) (w : WsStream) (f : Frame) (t : FrameType)
    → f.type ≡ t
    → Closing w
    → Keeps w (or_same w (ws_on_frame u id w f)).0
unfolding ws_on_frame or_same close_pending on_message
frame_in-Keeps u id w f ws_close t k = ground arith
frame_in-Keeps u id w f window t k = elim (Option-cases (add w.send_credit f.value)) [
  | inl e ↦ ground (arith, e)
  | inr (c, e) ↦ ground (arith, e)
]
frame_in-Keeps u id w f _ t k = ground arith

edge_step-Keeps :
    (id : ℕ) (w : WsStream) (written : Bool) (p : EdgePump) (q : List WsMsg)
    → w.edge_pump ≡ p
    → w.inbox ≡ q
    → Closing w
    → Keeps w (edge_step id w written).0
unfolding edge_step edge_look send_close close_pending
edge_step-Keeps id w written looking [] p q k = ground arith
edge_step-Keeps id w written looking (m ∷ rest) p q k = ground arith
edge_step-Keeps id w written stopped _ p q k = ground arith
edge_step-Keeps id w written (holding m) _ p q k = ground arith
edge_step-Keeps id w written (writing m) _ p q k = ground arith

local_step-Keeps :
    (id : ℕ) (w : WsStream) (r : LocalRead) (p : LocalPump)
    → w.local_pump ≡ p
    → Closing w
    → Keeps w (local_step id w r).0
unfolding local_step try_take send_close close_pending
local_step-Keeps id w r reading p k = ground arith
local_step-Keeps id w r (relaying m) p k = ground arith
local_step-Keeps id w r ended p k = ground arith

ws_step-Keeps :
    (u : Bytes → Option CloseMsg) (id : ℕ) (w : WsStream) (e : WsEvent)
    → Closing w
    → Keeps w (ws_step u id w e).0
unfolding ws_step
ws_step-Keeps u id w (frame_in f) k = frame_in-Keeps u id w f f.type refl k
ws_step-Keeps u id w (edge_goes written) k =
    edge_step-Keeps id w written w.edge_pump w.inbox refl refl k
ws_step-Keeps u id w (local_goes r) k = local_step-Keeps id w r w.local_pump refl k
ws_step-Keeps u id w (closes c) k = unfold close_pending in ground arith
ws_step-Keeps u id w cancels k = unfold close_pending in ground arith

-- Once a close is requested, by WS_CLOSE of the visitor or by the agent, and no write to the local
-- socket is under way, the local app is given no further message, whatever happens: those that came
-- before the close and still wait are lost.
pub ws_run_drops :
    (u : Bytes → Option CloseMsg) (id : ℕ) (w : WsStream) (es : List WsEvent)
    → close_pending w ≡ true
    → is_writing w.edge_pump ≡ false
    → (ws_run u id w es).0.delivered ≡ w.delivered
unfolding ws_run
ws_run_drops u id w [] c p = refl
ws_run_drops u id w (e ∷ es) c p =
    let ((c', p'), d) = ws_step-Keeps u id w e (c, p) in
    ws_run_drops u id (ws_step u id w e).0 es c' p' ∙ d
