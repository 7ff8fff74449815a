-- ===== src/Tunnel/Session/Balance.antt =====
-- The connection's receive credit over a step of the session.
use tuzy.Shared.{ℕ, ◌+◌, ◌≡◌, ap, some, List, arith}
use tuzy.Tunnel.Calls.{Call, returned}
use tuzy.Tunnel.Session.{Session, Stream, find_object, put_object, perform, after_step}
use tuzy.Tunnel.Session.Calls.{settled_credit, IsCoalesced, Credits, perform-Credits}
use tuzy.Tunnel.Session.Objects.{owed_all, AreSound, put_object-AreSound, owed-put_object}
use tuzy.Tunnel.Session.Streams.{Steps}

-- The ids of the streams go up to the highest seen, each stream is sound, and less than a quarter of a
-- window waits.
pub record IsValid (s : Session) : Type 0 where
  pub streams : AreSound (s.max_seen + 1) s.handlers
  pub waiting : IsCoalesced s

-- All the credit that the edge was given back, will be, or is owed for bytes of body that are held.
abbrev pub account : Session → ℕ
account s = settled_credit s + owed_all s.handlers

-- From s to s' the session took in n bytes of body.
pub record Takes (n : ℕ) (s s' : Session) : Type 0 where
  pub valid : IsValid s'
  pub balance : account s' ≡ account s + n

pub Takes-refl : (s : Session) → IsValid s → Takes 0 s s
Takes-refl s v = record { valid = v; balance = omega arith }

pub Takes-trans : (m n : ℕ) (s t u : Session) → Takes m s t → Takes n t u → Takes (m + n) s u
Takes-trans m n s t u a b = record {
  valid = b.valid;
  balance = omega (arith, a.balance, b.balance);
}

pub Credits-Takes : (n : ℕ) (s s' : Session) → IsValid s → Credits n s s' → Takes n s s'
Credits-Takes n s s' v c = record {
  valid = record { streams = rw (c.same_handlers, c.same_seen) v.streams; waiting = c.coalesced };
  balance = omega (arith, c.credited, ap owed_all c.same_handlers);
}

-- New streams for old, with the same debts.
pub same_owed-Takes :
    (s s' : Session)
    → IsValid s
    → AreSound (s'.max_seen + 1) s'.handlers
    → owed_all s'.handlers ≡ owed_all s.handlers
    → s'.ctrl ≡ s.ctrl
    → s'.conn_ungranted ≡ s.conn_ungranted
    → Takes 0 s s'
same_owed-Takes s s' v a o c u = record {
  valid = record { streams = a; waiting = omega (arith, v.waiting, u) };
  balance = rw (o, c, u) (omega arith);
}

pub after_step-Takes :
    (id n : ℕ) (st : Stream) (r : Stream × List Call) (s : Session)
    → IsValid s
    → find_object id s.handlers ≡ some st
    → Steps st n r
    → Takes n s (after_step id r s)
unfolding after_step
after_step-Takes id n st r s v e q =
    let s' : Session = record s { handlers = put_object id r.0 s.handlers } in
    let a = put_object-AreSound id (s.max_seen + 1) r.0 s.handlers q.sound v.streams in
    let t =
      Credits-Takes (returned r.1) s' (perform r.1 s') (record { streams = a; waiting = v.waiting })
        (perform-Credits r.1 s' q.ordinary v.waiting) in
    record {
      valid = t.valid;
      balance = omega (arith, t.balance, q.balance, owed-put_object id r.0 st s.handlers e);
    }
