-- ===== src/Tunnel/Writer/Priority.antt =====
-- `writeLoop`: control frames go first.
use tuzy.Shared.{
  ℕ, zero, suc, ◌+◌, ◌≤◌, ◌≡◌, refl, subst, ◌⊎◌, inl, inr, Bool, true, false, Bool-cases, Option,
  none, some, List, [], ◌∷◌, ◌++◌, ltb, length, length-append, arith,
}
use tuzy.Tunnel.Writer.Cases.{writer_step-keeps}
use tuzy.Tunnel.Writer.Order.{own, on_wire, in_hand, on_wire-snoc}
use tuzy.Tunnel.Writer.{
  OutFrame, text_out, binary_out, close_out, Lane, in_ctrl, in_data, Place, looking, waiting,
  writing, left, Ended, Line, ctrl_room, LineEvent, queues, ends, looks, takes, sees_end, wrote,
  enqueue, receive_ctrl, receive_data, look, see_end, finish_write, writer_step, line_step,
  line_run,
}

-- How many frames of a lane the writer has taken.
unfoldable pub taken : Lane → List (Lane × OutFrame) → Place → ℕ
unfolding on_wire in_hand
taken lane w p = length (on_wire lane w) + length (in_hand lane p)

-- At the second select a data frame may still be taken.
unfoldable may_take : Place → ℕ
may_take waiting = 1
may_take _ = 0

taken-snoc :
    (lane lane' : Lane) (f : OutFrame) (w : List (Lane × OutFrame))
    → taken lane (w ++ (lane', f) ∷ []) looking ≡ taken lane w (writing lane' f)
unfolding taken in_hand
taken-snoc lane lane' f w =
    rw (on_wire-snoc lane lane' f w, length-append (on_wire lane w) (own lane lane' f))
      (omega arith)

enqueue-grows : (n : ℕ) (f : OutFrame) (q : List OutFrame) → length q ≤ length (enqueue n f q)
unfolding enqueue
enqueue-grows n f q = elim (Bool-cases (ltb (length q) n)) [
  | inl h ↦ rw (h, length-append q (f ∷ [])) (omega arith)
  | inr h ↦ rw h (omega arith)
]

-- So many control frames have been taken, or they are still queued and no more than so many data frames were taken.
module _ (goal most : ℕ) where
  unfoldable Ahead : List (Lane × OutFrame) → Place → List OutFrame → Type 0
  unfolding taken may_take
  Ahead w p c =
      (goal ≤ taken in_ctrl w p)
      ⊎ ((taken in_data w p + may_take p ≤ most) × (goal ≤ taken in_ctrl w p + length c))

  -- A step that takes no data frame, and queues or takes every control frame it meets, keeps it.
  goes_on :
      (t d b n t' d' b' n' : ℕ)
      → t ≤ t'
      → d' + b' ≤ d + b
      → t + n ≤ t' + n'
      → (goal ≤ t) ⊎ ((d + b ≤ most) × (goal ≤ t + n))
      → (goal ≤ t') ⊎ ((d' + b' ≤ most) × (goal ≤ t' + n'))
  goes_on t d b n t' d' b' n' x y z (inl g) = inl (omega (arith, x, g))
  goes_on t d b n t' d' b' n' x y z (inr (h, g)) = inr (omega (arith, y, h), omega (arith, z, g))

  took_ctrl :
      (w : List (Lane × OutFrame)) (p : Place) (f : OutFrame) (fs : List OutFrame)
      → in_hand in_ctrl p ≡ []
      → in_hand in_data p ≡ []
      → Ahead w p (f ∷ fs)
      → Ahead w (writing in_ctrl f) fs
  unfolding Ahead in_hand
  took_ctrl w p f fs c d h =
      goes_on _ _ _ _ _ _ _ _ (rw c (omega arith)) (rw d (omega arith)) (rw c (omega arith)) h

  took_data :
      (w : List (Lane × OutFrame)) (f : OutFrame) (c : List OutFrame)
      → Ahead w waiting c
      → Ahead w (writing in_data f) c
  unfolding Ahead in_hand
  took_data w f c h = goes_on _ _ _ _ _ _ _ _ (omega arith) (omega arith) (omega arith) h

  found_none : (w : List (Lane × OutFrame)) → Ahead w looking [] → Ahead w waiting []
  unfolding Ahead in_hand
  found_none w (inl g) = inl g
  found_none w (inr (h, g)) = inl (omega (arith, g))

  went :
      (w : List (Lane × OutFrame)) (c : List OutFrame) → Ahead w waiting c → Ahead w (left none) c
  unfolding Ahead in_hand
  went w c h = goes_on _ _ _ _ _ _ _ _ (omega arith) (omega arith) (omega arith) h

  wrote_it :
      (w : List (Lane × OutFrame)) (lane : Lane) (f : OutFrame) (c : List OutFrame)
      → Ahead w (writing lane f) c
      → Ahead (w ++ (lane, f) ∷ []) looking c
  unfolding Ahead
  wrote_it w lane f c h = rw (taken-snoc in_ctrl lane f w, taken-snoc in_data lane f w) h

  failed_it :
      (w : List (Lane × OutFrame)) (lane : Lane) (f : OutFrame) (c : List OutFrame)
      → Ahead w (writing lane f) c
      → Ahead w (left (some (lane, f))) c
  unfolding Ahead in_hand
  failed_it w lane f c h = h

  finish_write-Ahead :
      (l : Line) (lane : Lane) (f : OutFrame) (ok : Bool)
      → Ahead l.wire (writing lane f) l.ctrl
      → (let l' : Line = finish_write lane f ok l in Ahead l'.wire l'.place l'.ctrl)
  unfolding finish_write
  finish_write-Ahead l lane (close_out (suc n)) ok h =
      failed_it l.wire lane (close_out (suc n)) l.ctrl h
  finish_write-Ahead l lane (close_out zero) false h =
      failed_it l.wire lane (close_out zero) l.ctrl h
  finish_write-Ahead l lane (close_out zero) true h = wrote_it l.wire lane (close_out zero) l.ctrl h
  finish_write-Ahead l lane (text_out b) false h = failed_it l.wire lane (text_out b) l.ctrl h
  finish_write-Ahead l lane (text_out b) true h = wrote_it l.wire lane (text_out b) l.ctrl h
  finish_write-Ahead l lane (binary_out b) false h = failed_it l.wire lane (binary_out b) l.ctrl h
  finish_write-Ahead l lane (binary_out b) true h = wrote_it l.wire lane (binary_out b) l.ctrl h

  abbrev IsAhead : Line → Type 0
  IsAhead l = Ahead l.wire l.place l.ctrl

  -- From what a line is known to be.
  at :
      (l : Line) (p : Place) (q : List OutFrame)
      → l.place ≡ p
      → l.ctrl ≡ q
      → IsAhead l
      → Ahead l.wire p q
  at l p q e c h = subst (λ p. Ahead l.wire p q) e (subst (Ahead l.wire l.place) c h)

  look-IsAhead :
      (l : Line) (q : List OutFrame) → Ahead l.wire looking q → l.ctrl ≡ q → IsAhead (look q l)
  unfolding look receive_ctrl in_hand
  look-IsAhead l [] h c = rw c (found_none l.wire h)
  look-IsAhead l (f ∷ fs) h c = took_ctrl l.wire looking f fs refl refl h

  receive_ctrl-IsAhead :
      (l : Line) (q : List OutFrame)
      → IsAhead l
      → l.place ≡ waiting
      → l.ctrl ≡ q
      → IsAhead (receive_ctrl q l)
  unfolding receive_ctrl in_hand
  receive_ctrl-IsAhead l [] h e c = h
  receive_ctrl-IsAhead l (f ∷ fs) h e c =
      took_ctrl l.wire waiting f fs refl refl (at l waiting (f ∷ fs) e c h)

  receive_data-IsAhead :
      (l : Line) (q : List OutFrame) → IsAhead l → l.place ≡ waiting → IsAhead (receive_data q l)
  unfolding receive_data
  receive_data-IsAhead l [] h e = h
  receive_data-IsAhead l (f ∷ fs) h e = took_data l.wire f l.ctrl (at l waiting l.ctrl e refl h)

  see_end-IsAhead :
      (l : Line) (o : Option Ended) → IsAhead l → l.place ≡ waiting → IsAhead (see_end o l)
  unfolding see_end
  see_end-IsAhead l none h e = h
  see_end-IsAhead l (some o) h e = went l.wire l.ctrl (at l waiting l.ctrl e refl h)

  writer_step-IsAhead : (e : LineEvent) (l : Line) → IsAhead l → IsAhead (writer_step l.place e l)
  writer_step-IsAhead e l h =
      writer_step-keeps IsAhead l h (λ p. look-IsAhead l l.ctrl (at l looking l.ctrl p refl h) refl)
        (λ p. receive_ctrl-IsAhead l l.ctrl h p refl) (λ p. receive_data-IsAhead l l.data_ h p)
        (λ p. see_end-IsAhead l l.ended h p)
        (λ lane f ok p. finish_write-Ahead l lane f ok (at l (writing lane f) l.ctrl p refl h))
        l.place e refl

  line_step-IsAhead : (e : LineEvent) (l : Line) → IsAhead l → IsAhead (line_step e l)
  unfolding line_step Ahead
  line_step-IsAhead (queues in_ctrl f) l h =
      goes_on _ _ _ _ _ _ _ _ (omega arith) (omega arith)
        (omega (arith, enqueue-grows ctrl_room f l.ctrl)) h
  line_step-IsAhead (queues in_data f) l h = h
  line_step-IsAhead ends l h = h
  line_step-IsAhead looks l h = writer_step-IsAhead looks l h
  line_step-IsAhead (takes x) l h = writer_step-IsAhead (takes x) l h
  line_step-IsAhead sees_end l h = writer_step-IsAhead sees_end l h
  line_step-IsAhead (wrote ok) l h = writer_step-IsAhead (wrote ok) l h

  line_run-IsAhead : (es : List LineEvent) (l : Line) → IsAhead l → IsAhead (line_run es l)
  unfolding line_run
  line_run-IsAhead [] l h = h
  line_run-IsAhead (e ∷ es) l h = line_run-IsAhead es (line_step e l) (line_step-IsAhead e l h)

at_most_one : (p : Place) → may_take p ≤ 1
unfolding may_take
at_most_one looking = omega arith
at_most_one waiting = omega arith
at_most_one (writing lane f) = omega arith
at_most_one (left o) = omega arith

-- Control frames go first: from any moment on, whatever is queued and whatever happens, at most one data frame is
-- taken before all control frames that are queued at that moment have been taken.
pub ctrl_goes_first :
    (es : List LineEvent) (l : Line)
    → (taken in_ctrl l.wire l.place + length l.ctrl
        ≤ taken in_ctrl (line_run es l).wire (line_run es l).place)
      ⊎ (taken in_data (line_run es l).wire (line_run es l).place
          ≤ taken in_data l.wire l.place + 1)
unfolding Ahead
ctrl_goes_first es l =
    elim (line_run-IsAhead (taken in_ctrl l.wire l.place + length l.ctrl)
      (taken in_data l.wire l.place + may_take l.place) es l (inr (omega arith, omega arith))) [
        | inl g ↦ inl g
        | inr p ↦ inr (few _ _ _ _ (at_most_one l.place) p.0)
      ]
  where
    few : (a b c d : ℕ) → b ≤ 1 → c + d ≤ a + b → c ≤ a + 1
    few a b c d h k = omega (arith, h, k)
