-- ===== src/Tunnel/Flow/Body.antt =====
-- `sendBody`: what the RES_BODY frames hold, in whatever way the credit and the queue come and go.
use tuzy.Shared.{
  flatten, flatten-snoc, ℕ, zero, suc, ◌+◌, ◌≤◌, ◌≡◌, sym, ap, ◌∙◌, List, [], ◌∷◌, ◌++◌, length,
  take, drop, All, All-append, arith, take-append-drop, length-take, length-drop, append-nil,
  append_assoc, length-append,
}
use tuzy.Protocol.{Bytes, max_body_chunk}
use tuzy.Tunnel.Flow.{
  read_failed, Event, Sender, Outcome, gives, fails, waits, stuck, and_then, send_piece, send_chunk,
  Reader, reads, at_eof, read_error, send_body,
}
use tuzy.Tunnel.Flow.Bounds.{Spends, stream_grants, conn_grants, Piece, send_piece-Piece}

-- A payload that a RES_BODY frame may carry, and that says something.
abbrev pub IsChunk : Bytes → Type 0
IsChunk p = (1 ≤ length p) × (length p ≤ max_body_chunk)

-- The bytes `p` were sent, as frames that follow those before, and paid for.
pub record Sent (s : Sender) (es : List Event) (p : Bytes) (s' : Sender) (es' : List Event)
    : Type 0 where
  pub content : flatten s'.frames ≡ flatten s.frames ++ p
  pub count : s'.total ≡ s.total + length p
  pub paid : Spends 0 s es s' es'
  pub chunks : All IsChunk s.frames → All IsChunk s'.frames

-- A first part of the bytes `p` was sent and `rest` was not.
pub record Partly (s : Sender) (es : List Event) (p : Bytes) (s' : Sender) : Type 0 where
  pub rest : Bytes
  pub content : flatten s'.frames ++ rest ≡ flatten s.frames ++ p
  pub count : s'.total + length rest ≡ s.total + length p
  pub paid_stream : s'.total ≤ s.total + s.stream.avail + stream_grants es
  pub paid_conn : s'.total ≤ s.total + s.conn.avail + conn_grants es
  pub chunks : All IsChunk s.frames → All IsChunk s'.frames

-- Sent in full if the call returns with no error, and a first part of it otherwise. The call is
-- never out of rounds.
abbrev pub Delivers {ℓ} : {A : Type ℓ} → Sender → List Event → Bytes → Outcome A → Type 0
Delivers s es p (gives _ s' es') = Sent s es p s' es'
Delivers s es p (fails _ s') = Partly s es p s'
Delivers s es p (waits s') = Partly s es p s'
Delivers s es p stuck = ⊥

Sent-refl : (s : Sender) (es : List Event) → Sent s es [] s es
Sent-refl s es = record {
  content = sym (append-nil _);
  count = omega arith;
  paid = omega arith;
  chunks = λ h. h;
}

module _ (s : Sender) (es : List Event) (p q : Bytes) (s' : Sender) (es' : List Event) where
  Sent-append :
      (s'' : Sender) (es'' : List Event)
      → Sent s es p s' es'
      → Sent s' es' q s'' es''
      → Sent s es (p ++ q) s'' es''
  Sent-append s'' es'' a b = record {
    content = b.content ∙ ap (λ l. l ++ q) a.content ∙ append_assoc _ p q;
    count = omega (arith, a.count, b.count, length-append p q);
    paid = omega (arith, a.paid, b.paid);
    chunks = λ h. b.chunks (a.chunks h);
  }

  Sent-Partly : (s'' : Sender) → Sent s es p s' es' → Partly s' es' q s'' → Partly s es (p ++ q) s''
  Sent-Partly s'' a b = record {
    rest = b.rest;
    content = b.content ∙ ap (λ l. l ++ q) a.content ∙ append_assoc _ p q;
    count = omega (arith, a.count, b.count, length-append p q);
    paid_stream = omega (arith, a.paid, b.paid_stream);
    paid_conn = omega (arith, a.paid, b.paid_conn);
    chunks = λ h. b.chunks (a.chunks h);
  }

Partly-more :
    (s : Sender) (es : List Event) (p q : Bytes) (s' : Sender)
    → Partly s es p s'
    → Partly s es (p ++ q) s'
Partly-more s es p q s' a = record {
  rest = a.rest ++ q;
  content = sym (append_assoc _ a.rest q) ∙ ap (λ l. l ++ q) a.content ∙ append_assoc _ p q;
  count = omega (arith, a.count, length-append p q, length-append a.rest q);
  paid_stream = a.paid_stream;
  paid_conn = a.paid_conn;
  chunks = a.chunks;
}

Sent→Partly :
    (s : Sender) (es : List Event) (p : Bytes) (s' : Sender) (es' : List Event)
    → Sent s es p s' es'
    → Partly s es p s'
Sent→Partly s es p s' es' a = record {
  rest = [];
  content = append-nil _ ∙ a.content;
  count = omega (arith, a.count);
  paid_stream = omega (arith, a.paid);
  paid_conn = omega (arith, a.paid);
  chunks = a.chunks;
}

-- Two calls in a row.
Delivers-join {ℓ} :
    {B : Type ℓ} (s : Sender) (es : List Event) (p q : Bytes) (s' : Sender) (es' : List Event)
    (o : Outcome B)
    → Sent s es p s' es'
    → Delivers s' es' q o
    → Delivers s es (p ++ q) o
Delivers-join s es p q s' es' (gives _ s'' es'') d x = Sent-append s es p q s' es' s'' es'' d x
Delivers-join s es p q s' es' (fails _ s'') d x = Sent-Partly s es p q s' es' s'' d x
Delivers-join s es p q s' es' (waits s'') d x = Sent-Partly s es p q s' es' s'' d x
Delivers-join s es p q s' es' stuck d x = x

Delivers-then {ℓ κ} :
    {A : Type ℓ} {B : Type κ} (s : Sender) (es : List Event) (p q : Bytes) (o : Outcome A)
    (f : A → Sender → List Event → Outcome B)
    → Delivers s es p o
    → ((a : A) (s' : Sender) (es' : List Event) → Delivers s' es' q (f a s' es'))
    → Delivers s es (p ++ q) (and_then o f)
Delivers-then s es p q (gives a s' es') f d h =
    Delivers-join s es p q s' es' (f a s' es') d (h a s' es')
Delivers-then s es p q (fails e s') f d h = Partly-more s es p q s' d
Delivers-then s es p q (waits s') f d h = Partly-more s es p q s' d
Delivers-then s es p q stuck f d h = d

-- A call that changes nothing.
Partly-none :
    (s : Sender) (es : List Event) (p : Bytes) (s' : Sender)
    → (s'.total ≡ s.total) × (s'.frames ≡ s.frames)
    → Partly s es p s'
Partly-none s es p s' (t, f) = record {
  rest = p;
  content = rw f;
  count = omega (arith, t);
  paid_stream = omega (arith, t);
  paid_conn = omega (arith, t);
  chunks = rw f (λ h. h);
}

Piece-Sent :
    (s : Sender) (es : List Event) (buf : Bytes) (k : ℕ) (s' : Sender) (es' : List Event)
    → length buf ≤ max_body_chunk
    → Piece s es buf (gives k s' es')
    → Sent s es (take k buf) s' es'
Piece-Sent s es buf k s' es' h (paid, k_pos, k_le, t, f) =
    let n = length-take k buf k_le in
    record {
      content = ap flatten f ∙ flatten-snoc s.frames (take k buf);
      count = omega (arith, t, n);
      paid = paid;
      chunks = λ a. rw f (
          All-append IsChunk s.frames (take k buf ∷ []) a
            ((omega (arith, n), omega (arith, n)), tt));
    }

send_chunk-Delivers :
    (fuel : ℕ) (p : Bytes) (s : Sender) (es : List Event)
    → length p ≤ fuel
    → length p ≤ max_body_chunk
    → Delivers s es p (send_chunk fuel p s es)
unfolding send_chunk
send_chunk-Delivers fuel [] s es h m = Sent-refl s es
send_chunk-Delivers zero (b ∷ bs) s es h m = absurd (omega arith)
send_chunk-Delivers (suc fuel) (b ∷ bs) s es h m =
    piece (send_piece (b ∷ bs) s es) (send_piece-Piece (b ∷ bs) s es) λ k s' es' pos.
      send_chunk-Delivers fuel (drop k (b ∷ bs)) s' es' (omega (arith, length-drop k (b ∷ bs)))
        (omega (arith, length-drop k (b ∷ bs)))
  where
    piece :
        (o : Outcome ℕ)
        → Piece s es (b ∷ bs) o
        → ((k : ℕ) (s' : Sender) (es' : List Event)
            → 1 ≤ k
            → Delivers s' es' (drop k (b ∷ bs)) (send_chunk fuel (drop k (b ∷ bs)) s' es'))
        → Delivers s es (b ∷ bs) (and_then o (λ k s' es'. send_chunk fuel (drop k (b ∷ bs)) s' es'))
    piece (gives k s' es') x rec = rw (take-append-drop k (b ∷ bs)) at (
        Delivers-join s es (take k (b ∷ bs)) (drop k (b ∷ bs)) s' es' _
          (Piece-Sent s es (b ∷ bs) k s' es' m x) (rec k s' es' x.1))
    piece (fails e s') x rec = Partly-none s es (b ∷ bs) s' x
    piece (waits s') x rec = Partly-none s es (b ∷ bs) s' x
    piece stuck x rec = x

-- The bytes of a body, and the contract of `Read`: at most the buffer's size at a time.
abbrev pub body : Reader → Bytes
body (reads p r) = p ++ body r
body (at_eof p) = p
body (read_error p) = p

abbrev pub IsRead : Reader → Type 0
IsRead (reads p r) = (length p ≤ max_body_chunk) × IsRead r
IsRead (at_eof p) = length p ≤ max_body_chunk
IsRead (read_error p) = length p ≤ max_body_chunk

-- However the body is read and however credit and the queue come and go, the RES_BODY frames that
-- `send_body` queues hold the bytes of the body in order: all of them if it returns with no error,
-- and a first part if it fails or still waits. The bytes sent are at most the stream's credit and
-- at most the connection's, the grants of the schedule included; no frame is empty or above 64 KiB.
-- The inner loop never runs out of its rounds.
pub send_body-Delivers :
    (r : Reader) (s : Sender) (es : List Event)
    → IsRead r
    → Delivers s es (body r) (send_body r s es)
unfolding send_body
send_body-Delivers (reads p r) s es h =
    Delivers-then s es p (body r) _ _ (send_chunk-Delivers (length p) p s es (omega arith) h.0)
      (λ _ s' es'. send_body-Delivers r s' es' h.1)
send_body-Delivers (at_eof p) s es h = send_chunk-Delivers (length p) p s es (omega arith) h
send_body-Delivers (read_error p) s es h =
    failed (send_chunk (length p) p s es) (send_chunk-Delivers (length p) p s es (omega arith) h)
  where
    failed :
        (o : Outcome (Unit {0}))
        → Delivers s es p o
        → Delivers s es p (and_then {B = Unit {0}} o (λ _ s' es'. fails read_failed s'))
    failed (gives _ s' es') x = Sent→Partly s es p s' es' x
    failed (fails e s') x = x
    failed (waits s') x = x
    failed stuck x = x
