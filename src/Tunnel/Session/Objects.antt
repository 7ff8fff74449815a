-- ===== src/Tunnel/Session/Objects.antt =====
-- The streams of a session: their ids, and the credit that they owe together.
use tuzy.Shared.{
  ℕ, ◌+◌, ◌≤◌, ◌<◌, ◌≡◌, inl, inr, refl, ap, subst, Bool-cases, Option, none, some, List, [], ◌∷◌,
  arith, ◌==◌,
}
use tuzy.Tunnel.Http.Accounts.{IsConsistent, held}
use tuzy.Tunnel.Ws.Invariant.{IsBounded}
use tuzy.Tunnel.Session.{Stream, http, ws, Handler, find_stream, find_object, put_object, unlist}
use tuzy.Tunnel.Session.Steps.{cancel_stream, abort_all}

-- What a stream owes the connection.
abbrev pub owed : Stream → ℕ
owed (http h) = held h
owed (ws w) = 0

abbrev pub owed_all : List Handler → ℕ
owed_all [] = 0
owed_all (h ∷ hs) = owed h.stream + owed_all hs

abbrev pub IsSound : Stream → Type 0
IsSound (http h) = IsConsistent h
IsSound (ws w) = IsBounded w

-- Ids are positive, fall along the list and stay below a bound; each stream is sound.
abbrev pub AreSound : ℕ → List Handler → Type 0
AreSound top [] = Unit {0}
AreSound top (h ∷ hs) = (0 < h.id) × (h.id < top) × IsSound h.stream × AreSound h.id hs

pub AreSound-mono : (m n : ℕ) (hs : List Handler) → m ≤ n → AreSound m hs → AreSound n hs
AreSound-mono m n [] l a = tt
AreSound-mono m n (h ∷ hs) l (p, b, s, r) = (p, omega arith, s, r)

pub find_object-IsSound :
    (id top : ℕ) (hs : List Handler) (st : Stream)
    → AreSound top hs
    → find_object id hs ≡ some st
    → (0 < id) × IsSound st
unfolding find_object
find_object-IsSound id top [] st a e = absurd (cc)
find_object-IsSound id top (h ∷ hs) st (p, b, s, r) e = elim (Bool-cases (h.id == id)) [
  | inl hit ↦ (ground (arith, hit), subst IsSound (some_inj (h.stream) st (rw hit at e)) s)
  | inr miss ↦ find_object-IsSound id h.id hs st r (rw miss at e)
]
  where
    some_inj : (a b : Stream) → some a ≡ some b → a ≡ b
    some_inj a b e' = cc

-- An update of a stream keeps the others.
pub put_object-AreSound :
    (id top : ℕ) (st : Stream) (hs : List Handler)
    → IsSound st
    → AreSound top hs
    → AreSound top (put_object id st hs)
unfolding put_object
put_object-AreSound id top st [] s a = tt
put_object-AreSound id top st (h ∷ hs) s (p, b, s', r) = elim (Bool-cases (h.id == id)) [
  | inl hit ↦ rw hit (p, b, s, r)
  | inr miss ↦ rw miss (p, b, s', put_object-AreSound id h.id st hs s r)
]

pub owed-put_object :
    (id : ℕ) (st old : Stream) (hs : List Handler)
    → find_object id hs ≡ some old
    → owed_all (put_object id st hs) + owed old ≡ owed_all hs + owed st
unfolding find_object put_object
owed-put_object id st old [] e = absurd (cc)
owed-put_object id st old (h ∷ hs) e = elim (Bool-cases (h.id == id)) [
  | inl hit ↦
      let same : owed h.stream ≡ owed old = ap owed_of (rw hit at e) in rw hit (omega (arith, same))
  | inr miss ↦ rw miss (omega (arith, owed-put_object id st old hs (rw miss at e)))
]
  where
    owed_of : Option Stream → ℕ
    owed_of none = 0
    owed_of (some x) = owed x

-- The handler in the map is the object of its id, since no two have one id.
find_stream-above :
    (id top : ℕ) (hs : List Handler) → AreSound top hs → top ≤ id → find_stream id hs ≡ none
unfolding find_stream
find_stream-above id top [] a l = refl
find_stream-above id top (h ∷ hs) (p, b, s, r) l = ground (arith, find_stream-above id h.id hs r)

pub find_stream→find_object :
    (id top : ℕ) (hs : List Handler) (st : Stream)
    → AreSound top hs
    → find_stream id hs ≡ some st
    → find_object id hs ≡ some st
unfolding find_stream find_object
find_stream→find_object id top [] st a e = e
find_stream→find_object id top (h ∷ hs) st (p, b, s, r) e =
    ground (arith, find_stream-above id h.id hs r, find_stream→find_object id h.id hs st r)

pub unlist-AreSound :
    (id top : ℕ) (hs : List Handler) → AreSound top hs → AreSound top (unlist id hs)
unfolding unlist
unlist-AreSound id top [] a = tt
unlist-AreSound id top (h ∷ hs) (p, b, s, r) = elim (Bool-cases (h.id == id)) [
  | inl hit ↦ rw hit (p, b, s, r)
  | inr miss ↦ rw miss (p, b, s, unlist-AreSound id h.id hs r)
]

pub owed-unlist : (id : ℕ) (hs : List Handler) → owed_all (unlist id hs) ≡ owed_all hs
unfolding unlist
owed-unlist id [] = refl
owed-unlist id (h ∷ hs) = elim (Bool-cases (h.id == id)) [
  | inl hit ↦ rw hit refl
  | inr miss ↦ rw miss (ap (λ n. owed h.stream + n) (owed-unlist id hs))
]

pub cancel_stream-IsSound :
    (st : Stream) → IsSound st → IsSound (cancel_stream st) × (owed (cancel_stream st) ≡ owed st)
unfolding cancel_stream
cancel_stream-IsSound (http h) s = ground arith
cancel_stream-IsSound (ws w) s = ground arith

pub abort_all-AreSound :
    (top : ℕ) (hs : List Handler)
    → AreSound top hs
    → AreSound top (abort_all hs) × (owed_all (abort_all hs) ≡ owed_all hs)
unfolding abort_all
abort_all-AreSound top [] a = (tt, refl)
abort_all-AreSound top (h ∷ hs) (p, b, s, r) =
    let (c, o) = cancel_stream-IsSound h.stream s in
    let (t, q) = abort_all-AreSound h.id hs r in
    elim (Bool-cases h.listed) [
      | inl yes' ↦ rw yes' ((p, b, c, t), omega (arith, o, q))
      | inr no' ↦ rw no' ((p, b, s, t), omega (arith, q))
    ]
