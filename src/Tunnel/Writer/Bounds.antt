-- ===== src/Tunnel/Writer/Bounds.antt =====
-- `writeLoop`: the queues keep to their room.
use tuzy.Shared.{
  ℕ, zero, suc, ◌≤◌, ◌≡◌, refl, ap, inl, inr, Bool, true, false, Bool-cases, Option, none, some,
  List, [], ◌∷◌, ltb, ltb→lt, length, length-append, arith,
}
use tuzy.Tunnel.Writer.Cases.{writer_step-keeps}
use tuzy.Tunnel.Writer.{
  OutFrame, text_out, binary_out, close_out, Lane, in_ctrl, in_data, Ended, Line, ctrl_room,
  data_room, LineEvent, queues, ends, looks, takes, sees_end, wrote, enqueue, receive_ctrl,
  receive_data, look, see_end, finish_write, writer_step, line_step, line_run,
}

-- Neither queue holds more than its room.
abbrev pub Fits : Line → Type 0
Fits l = (length l.ctrl ≤ ctrl_room) × (length l.data_ ≤ data_room)

enqueue-le : (n : ℕ) (f : OutFrame) (q : List OutFrame) → length q ≤ n → length (enqueue n f q) ≤ n
unfolding enqueue
enqueue-le n f q h = elim (Bool-cases (ltb (length q) n)) [
  | inl less ↦ rw (less, length-append q (f ∷ [])) (omega (arith, ltb→lt (length q) n less))
  | inr full ↦ rw full h
]

module _ (l : Line) where
  receive_ctrl-Fits : (q : List OutFrame) → l.ctrl ≡ q → Fits l → Fits (receive_ctrl q l)
  unfolding receive_ctrl
  receive_ctrl-Fits [] c h = h
  receive_ctrl-Fits (f ∷ fs) c (h, k) = (shorter (length fs) (ap length c) h, k)
    where
      shorter : (n : ℕ) → length l.ctrl ≡ suc n → length l.ctrl ≤ ctrl_room → n ≤ ctrl_room
      shorter n e h = omega (arith, e, h)

  receive_data-Fits : (q : List OutFrame) → l.data_ ≡ q → Fits l → Fits (receive_data q l)
  unfolding receive_data
  receive_data-Fits [] c h = h
  receive_data-Fits (f ∷ fs) c (h, k) = (h, shorter (length fs) (ap length c) k)
    where
      shorter : (n : ℕ) → length l.data_ ≡ suc n → length l.data_ ≤ data_room → n ≤ data_room
      shorter n e h = omega (arith, e, h)

  look-Fits : (q : List OutFrame) → l.ctrl ≡ q → Fits l → Fits (look q l)
  unfolding look
  look-Fits [] c h = h
  look-Fits (f ∷ fs) c h = receive_ctrl-Fits (f ∷ fs) c h

  see_end-Fits : (e : Option Ended) → Fits l → Fits (see_end e l)
  unfolding see_end
  see_end-Fits none h = h
  see_end-Fits (some e) h = h

  finish_write-Fits :
      (lane : Lane) (f : OutFrame) (ok : Bool) → Fits l → Fits (finish_write lane f ok l)
  unfolding finish_write
  finish_write-Fits lane (close_out (suc n)) ok h = h
  finish_write-Fits lane (close_out zero) false h = h
  finish_write-Fits lane (close_out zero) true h = h
  finish_write-Fits lane (text_out b) false h = h
  finish_write-Fits lane (text_out b) true h = h
  finish_write-Fits lane (binary_out b) false h = h
  finish_write-Fits lane (binary_out b) true h = h

  writer_step-Fits : (e : LineEvent) → Fits l → Fits (writer_step l.place e l)
  writer_step-Fits e h =
      writer_step-keeps Fits l h (λ p. look-Fits l.ctrl refl h)
        (λ p. receive_ctrl-Fits l.ctrl refl h) (λ p. receive_data-Fits l.data_ refl h)
        (λ p. see_end-Fits l.ended h) (λ lane f ok p. finish_write-Fits lane f ok h) l.place e refl

  line_step-Fits : (e : LineEvent) → Fits l → Fits (line_step e l)
  unfolding line_step
  line_step-Fits (queues in_ctrl f) (h, k) = (enqueue-le ctrl_room f l.ctrl h, k)
  line_step-Fits (queues in_data f) (h, k) = (h, enqueue-le data_room f l.data_ k)
  line_step-Fits ends h = h
  line_step-Fits looks h = writer_step-Fits looks h
  line_step-Fits (takes x) h = writer_step-Fits (takes x) h
  line_step-Fits sees_end h = writer_step-Fits sees_end h
  line_step-Fits (wrote ok) h = writer_step-Fits (wrote ok) h

pub line_run-Fits : (es : List LineEvent) (l : Line) → Fits l → Fits (line_run es l)
unfolding line_run
line_run-Fits [] l h = h
line_run-Fits (e ∷ es) l h = line_run-Fits es (line_step e l) (line_step-Fits l e h)
