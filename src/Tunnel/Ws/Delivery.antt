-- ===== src/Tunnel/Ws/Delivery.antt =====
-- Messages from the visitor to the local app: in order while no close is requested, and none any more
-- once one is.
use tuzy.Shared.{
  ℕ, ◌≡◌, inl, inr, refl, sym, ap, subst, ◌∙◌, Bool, true, false, Option, none, Option-cases, List,
  [], ◌∷◌, ◌++◌, append-nil, append_assoc, arith,
}
use tuzy.Protocol.{Bytes, FrameType, Frame, ws_text, ws_binary, window}
use tuzy.Tunnel.Flow.{add, try_take}
use tuzy.Tunnel.Calls.{Call, CloseMsg}
use tuzy.Tunnel.Ws.{
  WsMsg, WsStream, EdgePump, looking, stopped, holding, writing, LocalPump, reading, ended,
  relaying, new_ws_stream, on_message, ws_on_frame, send_close,
}
use tuzy.Tunnel.Ws.Pumps.{
  edge_look, edge_step, LocalRead, local_step, WsEvent, frame_in, edge_goes, local_goes, closes,
  cancels, or_same, ws_step, ws_run,
}
use tuzy.Tunnel.Ws.Invariant.{in_hand}

-- The messages that an event brings.
abbrev pub message_of : Frame → List WsMsg
message_of f = elim f.type [
  | ws_text ↦ record { is_text = true; content = f.payload } ∷ []
  | ws_binary ↦ record { is_text = false; content = f.payload } ∷ []
  | _ ↦ []
]

abbrev pub messages : List WsEvent → List WsMsg
messages [] = []
messages (frame_in f ∷ es) = message_of f ++ messages es
messages (_ ∷ es) = messages es

abbrev messages_in : WsEvent → List WsMsg
messages_in (frame_in f) = message_of f
messages_in _ = []

-- The messages given to the local app, in hand and waiting.
abbrev InOrder : WsStream → List WsMsg → Type 0
InOrder w ms =
    w.cancelled ≡ false → w.local_req ≡ none → w.delivered ++ (in_hand w.edge_pump ++ w.inbox) ≡ ms

queued_last :
    (w : WsStream) (m : WsMsg) (ms : List WsMsg)
    → w.delivered ++ (in_hand w.edge_pump ++ w.inbox) ≡ ms
    → w.delivered ++ (in_hand w.edge_pump ++ (w.inbox ++ m ∷ [])) ≡ ms ++ m ∷ []
queued_last w m ms e =
    ap (◌++◌ w.delivered) (sym (append_assoc (in_hand w.edge_pump) w.inbox (m ∷ [])))
    ∙ sym (append_assoc w.delivered _ (m ∷ []))
    ∙ ap (λ q. q ++ m ∷ []) e

on_message-InOrder :
    (w : WsStream) (m : WsMsg) (ms : List WsMsg)
    → InOrder w ms
    → InOrder (on_message w m) (ms ++ m ∷ [])
unfolding on_message
on_message-InOrder w m ms o = λ c l. ground (arith, o, queued_last w m ms)

frame_in-InOrder :
    (u : Bytes → Option CloseMsg) (id : ℕ) (w : WsStream) (f : Frame) (t : FrameType)
    (ms : List WsMsg)
    → f.type ≡ t
    → InOrder w ms
    → InOrder (or_same w (ws_on_frame u id w f)).0 (ms ++ message_of f)
unfolding ws_on_frame or_same
frame_in-InOrder u id w f ws_text ms t o = λ c l.
    ground (arith, on_message-InOrder w (record { is_text = true; content = f.payload }) ms o)
frame_in-InOrder u id w f ws_binary ms t o = λ c l.
    ground (arith, on_message-InOrder w (record { is_text = false; content = f.payload }) ms o)
frame_in-InOrder u id w f window ms t o = elim (Option-cases (add w.send_credit f.value)) [
  | inl e ↦ λ c l. ground (arith, e, o, append-nil ms)
  | inr (k, e) ↦ λ c l. ground (arith, e, o, append-nil ms)
]
frame_in-InOrder u id w f _ ms t o = λ c l. ground (arith, o, append-nil ms)

edge_look-InOrder :
    (id : ℕ) (w : WsStream) (q : List WsMsg) (ms : List WsMsg)
    → w.inbox ≡ q
    → w.edge_pump ≡ looking
    → InOrder w ms
    → InOrder (edge_look id w q).0 ms
unfolding edge_look send_close
edge_look-InOrder id w [] ms q p o = λ c l. ground (arith, o)
edge_look-InOrder id w (m ∷ rest) ms q p o = λ c l. ground (arith, o)

edge_step-InOrder :
    (id : ℕ) (w : WsStream) (written : Bool) (p : EdgePump) (ms : List WsMsg)
    → w.edge_pump ≡ p
    → InOrder w ms
    → InOrder (edge_step id w written).0 ms
unfolding edge_step
edge_step-InOrder id w written looking ms p o =
    λ c l. ground (arith, edge_look-InOrder id w w.inbox ms refl p o)
edge_step-InOrder id w written stopped ms p o = λ c l. ground (arith, o)
edge_step-InOrder id w written (holding m) ms p o = λ c l. ground (arith, o)
edge_step-InOrder id w written (writing m) ms p o =
    λ c l. ground (arith, o, append_assoc w.delivered (m ∷ []) w.inbox)

local_step-InOrder :
    (id : ℕ) (w : WsStream) (r : LocalRead) (p : LocalPump) (ms : List WsMsg)
    → w.local_pump ≡ p
    → InOrder w ms
    → InOrder (local_step id w r).0 ms
unfolding local_step try_take send_close
local_step-InOrder id w r reading ms p o = λ c l. ground (arith, o)
local_step-InOrder id w r (relaying m) ms p o = λ c l. ground (arith, o)
local_step-InOrder id w r ended ms p o = λ c l. ground (arith, o)

ws_step-InOrder :
    (u : Bytes → Option CloseMsg) (id : ℕ) (w : WsStream) (e : WsEvent) (ms : List WsMsg)
    → InOrder w ms
    → InOrder (ws_step u id w e).0 (ms ++ messages_in e)
ws_step-InOrder u id w (frame_in f) ms o =
    unfold ws_step in frame_in-InOrder u id w f f.type ms refl o
ws_step-InOrder u id w (edge_goes written) ms o =
    rw (append-nil ms) (unfold ws_step in edge_step-InOrder id w written w.edge_pump ms refl o)
ws_step-InOrder u id w (local_goes r) ms o =
    rw (append-nil ms) (unfold ws_step in local_step-InOrder id w r w.local_pump ms refl o)
ws_step-InOrder u id w (closes c) ms o = unfold ws_step in λ k l. ground (arith, o, append-nil ms)
ws_step-InOrder u id w cancels ms o = unfold ws_step in λ k l. cc

messages_first :
    (e : WsEvent) (es : List WsEvent) → messages (e ∷ es) ≡ messages_in e ++ messages es
messages_first (frame_in f) es = refl
messages_first (edge_goes written) es = refl
messages_first (local_goes r) es = refl
messages_first (closes c) es = refl
messages_first cancels es = refl

ws_run-InOrder :
    (u : Bytes → Option CloseMsg) (id : ℕ) (w : WsStream) (es : List WsEvent) (ms : List WsMsg)
    → InOrder w ms
    → InOrder (ws_run u id w es).0 (ms ++ messages es)
unfolding ws_run
ws_run-InOrder u id w [] ms o = rw (append-nil ms) o
ws_run-InOrder u id w (e ∷ es) ms o =
    subst (InOrder (ws_run u id (ws_step u id w e).0 es).0)
      (append_assoc ms (messages_in e) (messages es) ∙ ap (◌++◌ ms) (sym (messages_first e es)))
      (ws_run-InOrder u id (ws_step u id w e).0 es (ms ++ messages_in e)
        (ws_step-InOrder u id w e ms o))

-- From a new stream and over any history: if in the state reached the stream is not cancelled and the
-- agent has not asked to close the local socket, then the messages given to the local app, the one in
-- hand and those that wait are together the messages that the edge sent, in their order.
pub ws_run_in_order :
    (u : Bytes → Option CloseMsg) (id : ℕ) (es : List WsEvent) (w : WsStream) (cs : List Call)
    → ws_run u id new_ws_stream es ≡ (w, cs)
    → w.cancelled ≡ false
    → w.local_req ≡ none
    → w.delivered ++ (in_hand w.edge_pump ++ w.inbox) ≡ messages es
unfolding new_ws_stream
ws_run_in_order u id es w cs r c l =
    let o : InOrder w (messages es) =
      subst (λ (x : WsStream × List Call). InOrder x.0 (messages es)) r
        (ws_run-InOrder u id new_ws_stream es [] (λ _ _. refl)) in
    o c l
