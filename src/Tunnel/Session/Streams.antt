-- ===== src/Tunnel/Session/Streams.antt =====
-- Each step of a stream, as the session sees it: the stream stays sound, and what it owes and returns
-- balances.
use tuzy.Shared.{
  ℕ, ◌+◌, ◌≤◌, ◌<◌, ◌≡◌, refl, subst, Bool, inl, inr, Option, some, Option-cases, List, [], ◌∷◌,
  length, All, arith,
}
use tuzy.Protocol.{Bytes, FrameType, Frame, stream_window, req_body, ws_close, window}
use tuzy.Tunnel.Flow.{add, try_take}
use tuzy.Tunnel.Calls.{Call, CloseMsg, returned}
use tuzy.Tunnel.Http.{
  HttpStream, Feeder, looking, leaving, finished, writing, granting, Written, on_req_body,
  http_on_frame, feed_step,
}
use tuzy.Tunnel.Http.Accounts.{IsConsistent, body_of, http_on_frame-Balanced, feed_step-Balanced}
use tuzy.Tunnel.Ws.{WsStream, WsMsg, LocalPump, reading, ended, relaying, ws_on_frame, send_close}
use tuzy.Tunnel.Ws.Pumps.{LocalRead, edge_look, edge_step, local_step, or_same}
use tuzy.Tunnel.Ws.Invariant.{
  IsBounded, ws_on_frame-IsBounded, edge_step-IsBounded, local_step-IsBounded,
}
use tuzy.Tunnel.Session.{Json, Stream, http, ws}
use tuzy.Tunnel.Session.Reader.{stream_on_frame}
use tuzy.Tunnel.Session.Steps.{Go, feeds, pumps_edge, pumps_local, stream_goes}
use tuzy.Tunnel.Session.Calls.{IsOrdinary}
use tuzy.Tunnel.Session.Objects.{owed, IsSound}

-- A step that brings n bytes of body to a stream.
pub record Steps (st : Stream) (n : ℕ) (r : Stream × List Call) : Type 0 where
  pub sound : IsSound r.0
  pub balance : owed r.0 + returned r.1 ≡ owed st + n
  pub ordinary : All IsOrdinary r.1

http_on_frame-IsOrdinary :
    (id : ℕ) (h : HttpStream) (f : Frame) (t : FrameType) (r : HttpStream × List Call)
    → f.type ≡ t
    → length (body_of f) ≤ stream_window
    → http_on_frame id h f ≡ some r
    → All IsOrdinary r.1
unfolding http_on_frame on_req_body
http_on_frame-IsOrdinary id h f req_body r t l e = ground arith
http_on_frame-IsOrdinary id h f window r t l e = elim (Option-cases (add h.send_credit f.value)) [
  | inl x ↦ ground (arith, x)
  | inr (c, x) ↦ ground (arith, x)
]
http_on_frame-IsOrdinary id h f _ r t l e = ground arith

feed_step-IsOrdinary :
    (id : ℕ) (h : HttpStream) (w : Written) (fd : Feeder)
    → h.feeder ≡ fd
    → 0 < id
    → IsConsistent h
    → All IsOrdinary (feed_step id h w).1
unfolding feed_step
feed_step-IsOrdinary id h w looking f p c = ground arith
feed_step-IsOrdinary id h w leaving f p c = ground arith
feed_step-IsOrdinary id h w finished f p c = ground arith
feed_step-IsOrdinary id h w (writing chunk) f p c = ground arith
feed_step-IsOrdinary id h w (granting chunk) f p c = ground arith

ws_on_frame-returns :
    (u : Bytes → Option CloseMsg) (id : ℕ) (w : WsStream) (f : Frame) (t : FrameType)
    (r : WsStream × List Call)
    → f.type ≡ t
    → length (body_of f) ≤ stream_window
    → ws_on_frame u id w f ≡ some r
    → (returned r.1 ≡ length (body_of f)) × All IsOrdinary r.1
unfolding ws_on_frame
ws_on_frame-returns u id w f ws_close r t l e = ground arith
ws_on_frame-returns u id w f window r t l e = elim (Option-cases (add w.send_credit f.value)) [
  | inl x ↦ ground (arith, x)
  | inr (c, x) ↦ ground (arith, x)
]
ws_on_frame-returns u id w f _ r t l e = ground arith

edge_look-returns :
    (id : ℕ) (w : WsStream) (q : List WsMsg)
    → (returned (edge_look id w q).1 ≡ 0) × All IsOrdinary (edge_look id w q).1
unfolding edge_look send_close
edge_look-returns id w [] = ground arith
edge_look-returns id w (m ∷ q) = ground arith

edge_step-returns :
    (id : ℕ) (w : WsStream) (written : Bool)
    → (returned (edge_step id w written).1 ≡ 0) × All IsOrdinary (edge_step id w written).1
unfolding edge_step
edge_step-returns id w written = ground (arith, edge_look-returns id w w.inbox)

local_step-returns :
    (id : ℕ) (w : WsStream) (r : LocalRead) (p : LocalPump)
    → w.local_pump ≡ p
    → (returned (local_step id w r).1 ≡ 0) × All IsOrdinary (local_step id w r).1
unfolding local_step try_take send_close
local_step-returns id w r reading p = ground arith
local_step-returns id w r (relaying m) p = ground arith
local_step-returns id w r ended p = ground arith

pub stream_on_frame-Steps :
    (js : Json) (id : ℕ) (st : Stream) (f : Frame) (r : Stream × List Call)
    → IsSound st
    → length (body_of f) ≤ stream_window
    → stream_on_frame js id st f ≡ some r
    → Steps st (length (body_of f)) r
unfolding stream_on_frame or_same
stream_on_frame-Steps js id (http h) f r s l e = elim (Option-cases (http_on_frame id h f)) [
  | inl x ↦ absurd (ground (arith, x))
  | inr (q, x) ↦
      let (c, b) = http_on_frame-Balanced id h f f.type q refl s x in
      let o = http_on_frame-IsOrdinary id h f f.type q refl l x in
      let e' : r ≡ (http q.0, q.1) = ground (arith, x) in
      rw e' (record { sound = c; balance = b; ordinary = o })
]
stream_on_frame-Steps js id (ws w) f r s l e =
    elim (Option-cases (ws_on_frame js.close_of id w f)) [
      | inl x ↦ absurd (ground (arith, x))
      | inr (q, x) ↦
          let b = ws_on_frame-IsBounded js.close_of id w f f.type refl s in
          let (n, o) = ws_on_frame-returns js.close_of id w f f.type q refl l x in
          let e' : r ≡ (ws q.0, q.1) = ground (arith, x) in
          let b' : IsBounded q.0 =
            subst (λ (o : Option (WsStream × List Call)). IsBounded (or_same w o).0) x b in
          rw e' (record { sound = b'; balance = omega (arith, n); ordinary = o })
    ]

pub stream_goes-Steps :
    (id : ℕ) (st : Stream) (g : Go) → 0 < id → IsSound st → Steps st 0 (stream_goes id st g)
unfolding stream_goes
stream_goes-Steps id (http h) (feeds w) p s =
    let (c, b) = feed_step-Balanced id h w h.feeder refl s in
    record { sound = c; balance = b; ordinary = feed_step-IsOrdinary id h w h.feeder refl p s }
stream_goes-Steps id (ws w) (pumps_edge written) p s =
    let (n, o) = edge_step-returns id w written in
    record {
      sound = edge_step-IsBounded id w written w.edge_pump refl s;
      balance = omega (arith, n);
      ordinary = o;
    }
stream_goes-Steps id (ws w) (pumps_local r) p s =
    let (n, o) = local_step-returns id w r w.local_pump refl in
    record {
      sound = local_step-IsBounded id w r w.local_pump refl s;
      balance = omega (arith, n);
      ordinary = o;
    }
stream_goes-Steps id (http h) (pumps_edge _) p s = record {
  sound = s;
  balance = omega arith;
  ordinary = tt;
}
stream_goes-Steps id (http h) (pumps_local _) p s = record {
  sound = s;
  balance = omega arith;
  ordinary = tt;
}
stream_goes-Steps id (ws w) (feeds _) p s = record {
  sound = s;
  balance = omega arith;
  ordinary = tt;
}
