-- ===== src/Tunnel/Writer/Close.antt =====
-- `writeLoop` and `drain`: the close comes after all that its queue held before it.
use tuzy.Shared.{
  ℕ, zero, suc, ◌≡◌, refl, sym, ap, subst, ◌∙◌, Bool, true, false, Option, none, some, List, [],
  ◌∷◌, ◌++◌,
}
use tuzy.Tunnel.Writer.Cases.{writer_step-keeps}
use tuzy.Tunnel.Writer.Order.{own, on_wire, in_hand, queue, accepted, writes_in_order}
use tuzy.Tunnel.Writer.{
  OutFrame, text_out, binary_out, close_out, Lane, in_ctrl, in_data, Place, looking, waiting,
  writing, left, Ended, write_failed, elsewhere, closed_with, Line, new_line, LineEvent, queues,
  ends, looks, takes, sees_end, wrote, cancel, receive_ctrl, receive_data, look, see_end,
  finish_write, writer_step, line_step, line_run,
}

-- A session that ended by a close of the writer: the writer has left, with that close in hand.
abbrev pub LeftClosed : Ended → Place → Type 0
LeftClosed (closed_with c) (left (some (lane, close_out d))) = c ≡ d
LeftClosed (closed_with c) _ = ⊥
LeftClosed _ _ = Unit {0}

abbrev pub IsClosed : Option Ended → Place → Type 0
IsClosed none p = Unit {0}
IsClosed (some e) p = LeftClosed e p

abbrev is_gone : Place → Bool
is_gone (left o) = true
is_gone _ = false

-- While the writer runs, the session has not ended by its close.
moves : (o : Option Ended) (p p' : Place) → is_gone p ≡ false → IsClosed o p → IsClosed o p'
moves none p p' n h = tt
moves (some write_failed) p p' n h = tt
moves (some elsewhere) p p' n h = tt
moves (some (closed_with c)) looking p' n h = absurd h
moves (some (closed_with c)) waiting p' n h = absurd h
moves (some (closed_with c)) (writing lane f) p' n h = absurd h
moves (some (closed_with c)) (left o) p' n h = absurd (cc)

cancelled :
    (e : Ended) (o : Option Ended) (p p' : Place)
    → is_gone p ≡ false
    → LeftClosed e p'
    → IsClosed o p
    → IsClosed (cancel e o) p'
unfolding cancel
cancelled e none p p' n c h = c
cancelled e (some e') p p' n c h = moves (some e') p p' n h

abbrev HasClosed : Line → Type 0
HasClosed l = IsClosed l.ended l.place

module _ (l : Line) (h : HasClosed l) where
  from : (p p' : Place) → l.place ≡ p → is_gone p ≡ false → IsClosed l.ended p'
  from p p' e n = moves l.ended p p' n (subst (λ p. IsClosed l.ended p) e h)

  look-HasClosed : (q : List OutFrame) → l.place ≡ looking → HasClosed (look q l)
  unfolding look receive_ctrl
  look-HasClosed [] e = from looking waiting e refl
  look-HasClosed (f ∷ fs) e = from looking (writing in_ctrl f) e refl

  receive_ctrl-HasClosed : (q : List OutFrame) → l.place ≡ waiting → HasClosed (receive_ctrl q l)
  unfolding receive_ctrl
  receive_ctrl-HasClosed [] e = h
  receive_ctrl-HasClosed (f ∷ fs) e = from waiting (writing in_ctrl f) e refl

  receive_data-HasClosed : (q : List OutFrame) → l.place ≡ waiting → HasClosed (receive_data q l)
  unfolding receive_data
  receive_data-HasClosed [] e = h
  receive_data-HasClosed (f ∷ fs) e = from waiting (writing in_data f) e refl

  see_end-HasClosed : (o : Option Ended) → l.place ≡ waiting → HasClosed (see_end o l)
  unfolding see_end
  see_end-HasClosed none e = h
  see_end-HasClosed (some o) e = from waiting (left none) e refl

  stopped :
      (lane : Lane) (f : OutFrame) (e : Ended) (p' : Place)
      → l.place ≡ writing lane f
      → LeftClosed e p'
      → IsClosed (cancel e l.ended) p'
  stopped lane f e p' at c =
      cancelled e l.ended (writing lane f) p' refl c (subst (λ p. IsClosed l.ended p) at h)

  finish_write-HasClosed :
      (lane : Lane) (f : OutFrame) (ok : Bool)
      → l.place ≡ writing lane f
      → HasClosed (finish_write lane f ok l)
  unfolding finish_write
  finish_write-HasClosed lane (close_out (suc n)) ok e =
      stopped lane (close_out (suc n)) (closed_with (suc n)) (left (some (lane, close_out (suc n))))
        e refl
  finish_write-HasClosed lane (close_out zero) false e =
      stopped lane (close_out zero) write_failed (left (some (lane, close_out zero))) e tt
  finish_write-HasClosed lane (close_out zero) true e =
      from (writing lane (close_out zero)) looking e refl
  finish_write-HasClosed lane (text_out b) false e =
      stopped lane (text_out b) write_failed (left (some (lane, text_out b))) e tt
  finish_write-HasClosed lane (text_out b) true e = from (writing lane (text_out b)) looking e refl
  finish_write-HasClosed lane (binary_out b) false e =
      stopped lane (binary_out b) write_failed (left (some (lane, binary_out b))) e tt
  finish_write-HasClosed lane (binary_out b) true e =
      from (writing lane (binary_out b)) looking e refl

  writer_step-HasClosed : (e : LineEvent) → HasClosed (writer_step l.place e l)
  writer_step-HasClosed e =
      writer_step-keeps HasClosed l h (look-HasClosed l.ctrl) (receive_ctrl-HasClosed l.ctrl)
        (receive_data-HasClosed l.data_) (see_end-HasClosed l.ended) finish_write-HasClosed l.place
        e refl

  ended-IsClosed : (o : Option Ended) (p : Place) → IsClosed o p → IsClosed (cancel elsewhere o) p
  unfolding cancel
  ended-IsClosed none p h = tt
  ended-IsClosed (some e) p h = h

  line_step-HasClosed : (e : LineEvent) → HasClosed (line_step e l)
  unfolding line_step
  line_step-HasClosed (queues in_ctrl f) = h
  line_step-HasClosed (queues in_data f) = h
  line_step-HasClosed ends = ended-IsClosed l.ended l.place h
  line_step-HasClosed looks = writer_step-HasClosed looks
  line_step-HasClosed (takes x) = writer_step-HasClosed (takes x)
  line_step-HasClosed sees_end = writer_step-HasClosed sees_end
  line_step-HasClosed (wrote ok) = writer_step-HasClosed (wrote ok)

line_run-HasClosed : (es : List LineEvent) (l : Line) → HasClosed l → HasClosed (line_run es l)
unfolding line_run
line_run-HasClosed [] l h = h
line_run-HasClosed (e ∷ es) l h = line_run-HasClosed es (line_step e l) (line_step-HasClosed l h e)

close_in_hand :
    (c : ℕ) (p : Place)
    → LeftClosed (closed_with c) p
    → (lane : Lane) × (p ≡ left (some (lane, close_out c)))
close_in_hand c (left (some (lane, close_out d))) h =
    (lane, ap (λ d. left (some (lane, close_out d))) (sym h))
close_in_hand c (left (some (lane, text_out b))) h = absurd h
close_in_hand c (left (some (lane, binary_out b))) h = absurd h
close_in_hand c (left none) h = absurd h
close_in_hand c looking h = absurd h
close_in_hand c waiting h = absurd h
close_in_hand c (writing lane f) h = absurd h

close_behind :
    (lane : Lane) (c : ℕ) (l : Line)
    → l.place ≡ left (some (lane, close_out c))
    → on_wire lane l.wire ++ (in_hand lane l.place ++ queue lane l)
      ≡ on_wire lane l.wire ++ (close_out c ∷ queue lane l)
unfolding in_hand own
close_behind in_ctrl c l e = rw e refl
close_behind in_data c l e = rw e refl

-- When the session ends by the close that the writer took from a queue, all frames that this queue took before the
-- close are on the wire, in their order.
pub close_comes_last :
    (es : List LineEvent) (c : ℕ)
    → (line_run es new_line).ended ≡ some (closed_with c)
    → (lane : Lane) × (accepted lane es new_line
        ≡ on_wire lane (line_run es new_line).wire
          ++ (close_out c ∷ queue lane (line_run es new_line)))
unfolding new_line
close_comes_last es c e =
    let l : Line = line_run es new_line in
    let (lane, p) : (lane : Lane) × (l.place ≡ left (some (lane, close_out c))) =
      close_in_hand c l.place
        (subst (λ o. IsClosed o l.place) e (line_run-HasClosed es new_line tt)) in
    (lane, (writes_in_order es lane).0 ∙ close_behind lane c l p)
