-- ===== src/Tunnel/Flow/Complete.antt =====
-- `sendBody` finishes when the windows are large enough and the writer keeps up.
use tuzy.Shared.{
  ℕ, ◌+◌, ◌-◌, ◌≤◌, ◌≡◌, refl, ap, List, [], ◌∷◌, ◌++◌, length, take, drop, arith, length-append,
}
use tuzy.Protocol.{Bytes}
use tuzy.Tunnel.Flow.{
  Event, woken, changes, Sender, gives, acquire, send_data, send_piece, send_chunk, Reader, reads,
  at_eof, read_error, send_body,
}
use tuzy.Tunnel.Flow.Body.{body}

take_all {ℓ} : {A : Type ℓ} (p : List A) → take (length p) p ≡ p
take_all [] = refl
take_all (x ∷ p) = ap (◌∷◌ x) (take_all p)

drop_all {ℓ} : {A : Type ℓ} (p : List A) → drop (length p) p ≡ []
drop_all [] = refl
drop_all (x ∷ p) = drop_all p

-- The state after `p` went out as one frame.
abbrev paid_for : Sender → Bytes → Sender
paid_for s p = record {
  stream = record { avail = s.stream.avail - length p };
  conn = record { avail = s.conn.avail - length p };
  frames = s.frames ++ p ∷ [];
  total = s.total + length p;
}

-- Both windows have room for `n` bytes.
abbrev pub HasRoom : Sender → ℕ → Type 0
HasRoom s n = (n ≤ s.stream.avail) × (n ≤ s.conn.avail)

acquire_all :
    (s : Sender) (es : List Event) (n : ℕ)
    → 1 ≤ n
    → HasRoom s n
    → acquire (woken [] ∷ es) s n
      ≡ gives n
          (record s {
            stream = record { avail = s.stream.avail - n };
            conn = record { avail = s.conn.avail - n };
          })
          (woken [] ∷ es)
unfolding acquire
acquire_all s es n pos room = ground arith

send_piece_all :
    (b : ℕ) (bs : Bytes) (s : Sender) (es : List Event)
    → HasRoom s (length (b ∷ bs))
    → send_piece (b ∷ bs) s (woken [] ∷ es) ≡ gives (length (b ∷ bs)) (paid_for s (b ∷ bs)) es
unfolding send_piece send_data changes
send_piece_all b bs s es room =
    rw (acquire_all s es (length (b ∷ bs)) (omega arith) room)
      (ap (λ p. gives (length (b ∷ bs)) (piece p) es) (take_all (b ∷ bs)))
  where
    piece : Bytes → Sender
    piece p = record {
      stream = record { avail = s.stream.avail - length (b ∷ bs) };
      conn = record { avail = s.conn.avail - length (b ∷ bs) };
      frames = s.frames ++ p ∷ [];
      total = s.total + length p;
    }

-- Each chunk that is read goes out whole, as one frame, and takes one place in the queue.
abbrev pub places : Reader → List Event
places (reads [] r) = places r
places (reads (b ∷ bs) r) = woken [] ∷ places r
places (at_eof []) = []
places (at_eof (b ∷ bs)) = woken [] ∷ []
places (read_error p) = []

abbrev pub IsWhole : Reader → Type 0
IsWhole (reads p r) = IsWhole r
IsWhole (at_eof p) = Unit {0}
IsWhole (read_error p) = ⊥

send_chunk_all :
    (b : ℕ) (bs : Bytes) (s : Sender) (es : List Event)
    → HasRoom s (length (b ∷ bs))
    → send_chunk (length (b ∷ bs)) (b ∷ bs) s (woken [] ∷ es) ≡ gives tt (paid_for s (b ∷ bs)) es
unfolding send_chunk
send_chunk_all b bs s es room =
    rw (send_piece_all b bs s es room)
      (ap (λ q. send_chunk (length bs) q (paid_for s (b ∷ bs)) es) (drop_all bs))

-- If the body is read without an error, both windows have room for it, and the queue takes a frame
-- for each chunk, then `send_body` returns with no error and has sent every byte.
pub send_body_complete :
    (r : Reader) (s : Sender)
    → IsWhole r
    → HasRoom s (length (body r))
    → (s' : Sender) × (send_body r s (places r) ≡ gives tt s' [])
      × (s'.total ≡ s.total + length (body r))
unfolding send_body send_chunk
send_body_complete (reads [] r) s w room = send_body_complete r s w room
send_body_complete (reads (b ∷ bs) r) s w room =
    let n = length-append (b ∷ bs) (body r) in
    let (s', e, t) =
      send_body_complete r (paid_for s (b ∷ bs)) w (omega (arith, n), omega (arith, n)) in
    (
      s',
      rw (send_chunk_all b bs s (places r) (omega (arith, n), omega (arith, n))) e,
      omega (arith, t, n),
    )
send_body_complete (at_eof []) s w room = (s, refl, omega arith)
send_body_complete (at_eof (b ∷ bs)) s w room =
    (paid_for s (b ∷ bs), send_chunk_all b bs s [] room, refl)
send_body_complete (read_error p) s w room = absurd w
