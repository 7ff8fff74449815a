-- ===== src/Tunnel/Session/Calls.antt =====
-- The receive credit of the connection: what the calls of a stream do to it.
use tuzy.Shared.{
  ℕ, ◌+◌, ◌/◌, ◌%◌, ◌≤◌, ◌<◌, ◌^◌, ◌≡◌, refl, ◌∙◌, List, [], ◌∷◌, ◌++◌, All, arith, ◌==◌,
  if◌then◌else◌,
}
use tuzy.Protocol.{conn_window, stream_window}
use tuzy.Tunnel.Calls.{
  Call, grants, flushes, sends_ctrl, sends_data, CtrlFrame, window_frame, returned,
}
use tuzy.Tunnel.Session.{Session, send_ctrl, grant_conn, flush_conn, perform}

-- The connection credit in the frames of the queue `ctrl`.
abbrev pub conn_credit_of : CtrlFrame → ℕ
conn_credit_of (window_frame id n) = if id == 0 then n else 0
conn_credit_of _ = 0

abbrev pub granted : List CtrlFrame → ℕ
granted [] = 0
granted (f ∷ fs) = conn_credit_of f + granted fs

pub granted-snoc :
    (fs : List CtrlFrame) (f : CtrlFrame) → granted (fs ++ f ∷ []) ≡ granted fs + conn_credit_of f
granted-snoc [] f = omega arith
granted-snoc (g ∷ fs) f = omega (arith, granted-snoc fs f)

-- Credit granted and not yet granted.
abbrev pub settled_credit : Session → ℕ
settled_credit s = granted s.ctrl + s.conn_ungranted

-- Less than a quarter of the window waits.
abbrev pub IsCoalesced : Session → Type 0
IsCoalesced s = s.conn_ungranted < conn_window / 4

-- A call that returns at most a stream's window, and sends no credit on stream 0 itself.
abbrev pub IsOrdinary : Call → Type 0
IsOrdinary (grants n) = n ≤ stream_window
IsOrdinary (sends_ctrl f) = conn_credit_of f ≡ 0
IsOrdinary _ = Unit {0}

-- From s to s' the connection was credited n bytes.
pub record Credits (n : ℕ) (s s' : Session) : Type 0 where
  pub credited : settled_credit s' ≡ settled_credit s + n
  pub coalesced : IsCoalesced s'
  pub same_handlers : s'.handlers ≡ s.handlers
  pub same_seen : s'.max_seen ≡ s.max_seen

pub grant_conn-Credits :
    (n : ℕ) (s : Session) → n ≤ stream_window → IsCoalesced s → Credits n s (grant_conn n s)
unfolding grant_conn
grant_conn-Credits n s h c =
    ground (arith, granted-snoc s.ctrl (window_frame 0 ((s.conn_ungranted + n) % 2 ^ 32)))

pub flush_conn-Credits : (s : Session) → IsCoalesced s → Credits 0 s (flush_conn s)
unfolding flush_conn
flush_conn-Credits s c =
    ground (arith, granted-snoc s.ctrl (window_frame 0 (s.conn_ungranted % 2 ^ 32)))

Credits-trans : (m n : ℕ) (s t u : Session) → Credits m s t → Credits n t u → Credits (m + n) s u
Credits-trans m n s t u a b = record {
  credited = omega (arith, a.credited, b.credited);
  coalesced = b.coalesced;
  same_handlers = b.same_handlers ∙ a.same_handlers;
  same_seen = b.same_seen ∙ a.same_seen;
}

Credits-none : (n : ℕ) (s t u : Session) → Credits 0 s t → Credits n t u → Credits n s u
Credits-none n s t u a b = record {
  credited = omega (arith, a.credited, b.credited);
  coalesced = b.coalesced;
  same_handlers = b.same_handlers ∙ a.same_handlers;
  same_seen = b.same_seen ∙ a.same_seen;
}

pub send_ctrl-Credits :
    (f : CtrlFrame) (s : Session)
    → conn_credit_of f ≡ 0
    → IsCoalesced s
    → Credits 0 s (send_ctrl f s)
unfolding send_ctrl
send_ctrl-Credits f s z c = record {
  credited = omega (arith, granted-snoc s.ctrl f);
  coalesced = c;
  same_handlers = refl;
  same_seen = refl;
}

pub perform-Credits :
    (cs : List Call) (s : Session)
    → All IsOrdinary cs
    → IsCoalesced s
    → Credits (returned cs) s (perform cs s)
unfolding perform
perform-Credits [] s o c = record {
  credited = omega arith;
  coalesced = c;
  same_handlers = refl;
  same_seen = refl;
}
perform-Credits (grants n ∷ cs) s o c =
    let a = grant_conn-Credits n s o.0 c in
    Credits-trans n (returned cs) s (grant_conn n s) _ a
      (perform-Credits cs (grant_conn n s) o.1 a.coalesced)
perform-Credits (flushes ∷ cs) s o c =
    let a = flush_conn-Credits s c in
    Credits-none (returned cs) s (flush_conn s) _ a
      (perform-Credits cs (flush_conn s) o.1 a.coalesced)
perform-Credits (sends_ctrl f ∷ cs) s o c =
    let a = send_ctrl-Credits f s o.0 c in
    Credits-none (returned cs) s (send_ctrl f s) _ a
      (perform-Credits cs (send_ctrl f s) o.1 a.coalesced)
perform-Credits (sends_data f ∷ cs) s o c =
    let s' : Session = record s { data_frames = s.data_frames ++ f ∷ [] } in
    let b = perform-Credits cs s' o.1 c in
    record {
      credited = b.credited;
      coalesced = b.coalesced;
      same_handlers = b.same_handlers;
      same_seen = b.same_seen;
    }
