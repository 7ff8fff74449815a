-- ===== src/Tunnel/Writer/Order.antt =====
-- `writeLoop`: what has been queued is written in order, and a close comes after all that its queue held.
use tuzy.Shared.{
  ℕ, zero, suc, ◌≡◌, refl, sym, ap, ap₂, ◌∙◌, inl, inr, Bool, true, false, Bool-cases, Option, none,
  some, List, [], ◌∷◌, ◌++◌, append-nil, append_assoc, ltb, if◌then◌else◌, length, arith,
}
use tuzy.Tunnel.Writer.Bounds.{Fits, line_run-Fits}
use tuzy.Tunnel.Writer.Cases.{writer_step-keeps}
use tuzy.Tunnel.Writer.{
  OutFrame, text_out, binary_out, close_out, Lane, in_ctrl, in_data, Place, looking, waiting,
  writing, left, Ended, Line, ctrl_room, data_room, new_line, LineEvent, queues, ends, looks, takes,
  sees_end, wrote, enqueue, receive_ctrl, receive_data, look, see_end, finish_write, writer_step,
  line_step, line_run,
}

-- The frame, if it is of the lane.
unfoldable pub own : Lane → Lane → OutFrame → List OutFrame
own in_ctrl in_ctrl f = f ∷ []
own in_data in_data f = f ∷ []
own _ _ f = []

unfoldable pub on_wire : Lane → List (Lane × OutFrame) → List OutFrame
unfolding own
on_wire lane [] = []
on_wire lane ((lane', f) ∷ w) = own lane lane' f ++ on_wire lane w

unfoldable pub in_hand : Lane → Place → List OutFrame
unfolding own
in_hand lane (writing lane' f) = own lane lane' f
in_hand lane (left (some (lane', f))) = own lane lane' f
in_hand lane _ = []

unfoldable pub queue : Lane → Line → List OutFrame
queue in_ctrl l = l.ctrl
queue in_data l = l.data_

abbrev pub room : Lane → ℕ
room in_ctrl = ctrl_room
room in_data = data_room

-- What a lane was given: on the wire, in hand and queued.
abbrev pub given : Lane → Line → List OutFrame
given lane l = on_wire lane l.wire ++ (in_hand lane l.place ++ queue lane l)

-- The frame that an event puts into the queue of a lane.
unfoldable pub admitted : LineEvent → Lane → Line → List OutFrame
admitted (queues in_ctrl f) in_ctrl l = if ltb (length l.ctrl) ctrl_room then f ∷ [] else []
admitted (queues in_data f) in_data l = if ltb (length l.data_) data_room then f ∷ [] else []
admitted _ _ l = []

-- All frames that a history puts into the queue of a lane, in order.
unfoldable pub accepted : Lane → List LineEvent → Line → List OutFrame
accepted lane [] l = []
accepted lane (e ∷ es) l = admitted e lane l ++ accepted lane es (line_step e l)

pub on_wire-snoc :
    (lane lane' : Lane) (f : OutFrame) (w : List (Lane × OutFrame))
    → on_wire lane (w ++ (lane', f) ∷ []) ≡ on_wire lane w ++ own lane lane' f
unfolding on_wire
on_wire-snoc lane lane' f [] = append-nil (own lane lane' f)
on_wire-snoc lane lane' f ((lane'', g) ∷ w) =
    rw (on_wire-snoc lane lane' f w)
      (sym (append_assoc (own lane lane'' g) (on_wire lane w) (own lane lane' f)))

given_by :
    (lane : Lane) (l : Line) (p : Place) (q : List OutFrame)
    → l.place ≡ p
    → queue lane l ≡ q
    → on_wire lane l.wire ++ (in_hand lane p ++ q) ≡ given lane l
given_by lane l p q e c =
    ap (λ r. on_wire lane l.wire ++ r) (sym (ap₂ (λ p q. in_hand lane p ++ q) e c))

module _ (l : Line) where
  look-given :
      (lane : Lane) (q : List OutFrame)
      → l.ctrl ≡ q
      → l.place ≡ looking
      → given lane (look q l) ≡ given lane l
  unfolding look receive_ctrl in_hand queue own
  look-given in_ctrl [] c p = given_by in_ctrl l looking l.ctrl p refl
  look-given in_data [] c p = given_by in_data l looking l.data_ p refl
  look-given in_ctrl (f ∷ fs) c p = given_by in_ctrl l looking (f ∷ fs) p c
  look-given in_data (f ∷ fs) c p = given_by in_data l looking l.data_ p refl

  receive_ctrl-given :
      (lane : Lane) (q : List OutFrame)
      → l.ctrl ≡ q
      → l.place ≡ waiting
      → given lane (receive_ctrl q l) ≡ given lane l
  unfolding receive_ctrl in_hand queue own
  receive_ctrl-given lane [] c p = refl
  receive_ctrl-given in_ctrl (f ∷ fs) c p = given_by in_ctrl l waiting (f ∷ fs) p c
  receive_ctrl-given in_data (f ∷ fs) c p = given_by in_data l waiting l.data_ p refl

  receive_data-given :
      (lane : Lane) (q : List OutFrame)
      → l.data_ ≡ q
      → l.place ≡ waiting
      → given lane (receive_data q l) ≡ given lane l
  unfolding receive_data in_hand queue own
  receive_data-given lane [] c p = refl
  receive_data-given in_ctrl (f ∷ fs) c p = given_by in_ctrl l waiting l.ctrl p refl
  receive_data-given in_data (f ∷ fs) c p = given_by in_data l waiting (f ∷ fs) p c

  see_end-given :
      (lane : Lane) (e : Option Ended) → l.place ≡ waiting → given lane (see_end e l) ≡ given lane l
  unfolding see_end in_hand queue
  see_end-given lane none p = refl
  see_end-given in_ctrl (some e) p = given_by in_ctrl l waiting l.ctrl p refl
  see_end-given in_data (some e) p = given_by in_data l waiting l.data_ p refl

  wrote-given :
      (lane lane' : Lane) (f : OutFrame)
      → l.place ≡ writing lane' f
      → on_wire lane (l.wire ++ (lane', f) ∷ []) ++ queue lane l ≡ given lane l
  unfolding in_hand
  wrote-given lane lane' f p =
      rw
        (
          on_wire-snoc lane lane' f l.wire,
          append_assoc (on_wire lane l.wire) (own lane lane' f) (queue lane l),
        )
        (given_by lane l (writing lane' f) (queue lane l) p refl)

  left-given :
      (lane lane' : Lane) (f : OutFrame)
      → l.place ≡ writing lane' f
      → on_wire lane l.wire ++ (own lane lane' f ++ queue lane l) ≡ given lane l
  unfolding in_hand
  left-given lane lane' f p = given_by lane l (writing lane' f) (queue lane l) p refl

  finish_write-given :
      (lane lane' : Lane) (f : OutFrame) (ok : Bool)
      → l.place ≡ writing lane' f
      → given lane (finish_write lane' f ok l) ≡ given lane l
  unfolding finish_write in_hand queue
  finish_write-given in_ctrl lane' (close_out (suc n)) ok p =
      left-given in_ctrl lane' (close_out (suc n)) p
  finish_write-given in_data lane' (close_out (suc n)) ok p =
      left-given in_data lane' (close_out (suc n)) p
  finish_write-given in_ctrl lane' (close_out zero) false p =
      left-given in_ctrl lane' (close_out zero) p
  finish_write-given in_ctrl lane' (close_out zero) true p =
      wrote-given in_ctrl lane' (close_out zero) p
  finish_write-given in_ctrl lane' (text_out b) false p = left-given in_ctrl lane' (text_out b) p
  finish_write-given in_ctrl lane' (text_out b) true p = wrote-given in_ctrl lane' (text_out b) p
  finish_write-given in_ctrl lane' (binary_out b) false p =
      left-given in_ctrl lane' (binary_out b) p
  finish_write-given in_ctrl lane' (binary_out b) true p =
      wrote-given in_ctrl lane' (binary_out b) p
  finish_write-given in_data lane' (close_out zero) false p =
      left-given in_data lane' (close_out zero) p
  finish_write-given in_data lane' (close_out zero) true p =
      wrote-given in_data lane' (close_out zero) p
  finish_write-given in_data lane' (text_out b) false p = left-given in_data lane' (text_out b) p
  finish_write-given in_data lane' (text_out b) true p = wrote-given in_data lane' (text_out b) p
  finish_write-given in_data lane' (binary_out b) false p =
      left-given in_data lane' (binary_out b) p
  finish_write-given in_data lane' (binary_out b) true p =
      wrote-given in_data lane' (binary_out b) p

writer_step-given :
    (lane : Lane) (e : LineEvent) (l : Line) → given lane (writer_step l.place e l) ≡ given lane l
writer_step-given lane e l =
    writer_step-keeps (λ l'. given lane l' ≡ given lane l) l refl (look-given l lane l.ctrl refl)
      (receive_ctrl-given l lane l.ctrl refl) (receive_data-given l lane l.data_ refl)
      (see_end-given l lane l.ended) (finish_write-given l lane) l.place e refl

enqueue_lem :
    (n : ℕ) (f : OutFrame) (q : List OutFrame)
    → enqueue n f q ≡ q ++ (if ltb (length q) n then f ∷ [] else [])
unfolding enqueue
enqueue_lem n f q = elim (Bool-cases (ltb (length q) n)) [
  | inl h ↦ rw h refl
  | inr h ↦ rw h (sym (append-nil q))
]

-- What a queue gains goes behind all that its lane was given.
behind :
    (lane : Lane) (l : Line) (q fs : List OutFrame)
    → q ≡ queue lane l ++ fs
    → on_wire lane l.wire ++ (in_hand lane l.place ++ q) ≡ given lane l ++ fs
behind lane l q fs e =
    rw (e, sym (append_assoc (in_hand lane l.place) (queue lane l) fs))
      (sym (append_assoc (on_wire lane l.wire) (in_hand lane l.place ++ queue lane l) fs))

line_step-given :
    (lane : Lane) (e : LineEvent) (l : Line)
    → given lane (line_step e l) ≡ given lane l ++ admitted e lane l
unfolding line_step admitted queue
line_step-given in_ctrl (queues in_ctrl f) l = behind in_ctrl l _ _ (enqueue_lem ctrl_room f l.ctrl)
line_step-given in_data (queues in_data f) l =
    behind in_data l _ _ (enqueue_lem data_room f l.data_)
line_step-given in_ctrl (queues in_data f) l = sym (append-nil (given in_ctrl l))
line_step-given in_data (queues in_ctrl f) l = sym (append-nil (given in_data l))
line_step-given in_ctrl ends l = sym (append-nil (given in_ctrl l))
line_step-given in_data ends l = sym (append-nil (given in_data l))
line_step-given lane looks l = writer_step-given lane looks l ∙ sym (append-nil (given lane l))
line_step-given lane (takes x) l =
    writer_step-given lane (takes x) l ∙ sym (append-nil (given lane l))
line_step-given lane sees_end l =
    writer_step-given lane sees_end l ∙ sym (append-nil (given lane l))
line_step-given lane (wrote ok) l =
    writer_step-given lane (wrote ok) l ∙ sym (append-nil (given lane l))

line_run-given :
    (lane : Lane) (es : List LineEvent) (l : Line)
    → given lane (line_run es l) ≡ given lane l ++ accepted lane es l
unfolding line_run accepted
line_run-given lane [] l = sym (append-nil (given lane l))
line_run-given lane (e ∷ es) l =
    line_run-given lane es (line_step e l)
    ∙ ap (λ g. g ++ accepted lane es (line_step e l)) (line_step-given lane e l)
    ∙ append_assoc (given lane l) (admitted e lane l) (accepted lane es (line_step e l))

-- Whatever order the sends, the selects and the writes come in: the frames that a queue took are those on the
-- wire, the one in hand and those still queued, in the order in which they were taken; and the queues hold at most
-- 256 and 16 frames.
pub writes_in_order :
    (es : List LineEvent) (lane : Lane)
    → (accepted lane es new_line ≡ given lane (line_run es new_line)) × Fits (line_run es new_line)
unfolding new_line on_wire in_hand queue
writes_in_order es lane = (
  sym (line_run-given lane es new_line ∙ ap (λ g. g ++ accepted lane es new_line) (empty lane)),
  line_run-Fits es new_line (omega arith, omega arith),
)
  where
    empty : (lane : Lane) → given lane new_line ≡ []
    empty in_ctrl = refl
    empty in_data = refl
