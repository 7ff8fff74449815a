-- ===== src/Tunnel/Writer.antt =====
-- internal/tunnel/session.go: `writeLoop`, the goroutine that writes to the connection, with the two queues
-- that feed it: `ctrl`, of 256 frames, and `data`, of 16. Each of its selects is a step, and so is each write;
-- others queue frames and end the session between them.
pub mod Cases
pub mod Bounds
pub mod Order
pub mod Priority
pub mod Close
mod Tests
use tuzy.Shared.{
  ℕ, suc, ◌+◌, Bool, true, false, Option, none, some, List, [], ◌∷◌, ◌++◌, ltb, if◌then◌else◌,
  length,
}
use tuzy.Protocol.{Bytes}

-- `outFrame`: a text or a binary message, or the close that `drain` queues, with its code.
pub data OutFrame : Type 0 where
  text_out binary_out : Bytes → OutFrame
  close_out : ℕ → OutFrame

-- The queue that a frame came from.
pub data Lane : Type 0 where
  in_ctrl in_data : Lane

-- Where the goroutine stands: at the first select, at the second, writing a frame, or gone, with the frame
-- that it then had in hand.
pub data Place : Type 0 where
  looking waiting : Place
  writing : Lane → OutFrame → Place
  left : Option (Lane × OutFrame) → Place

-- How the session ended.
pub data Ended : Type 0 where
  write_failed elsewhere : Ended
  closed_with : ℕ → Ended

-- What the writer shares with the session: the queues, what is on the wire, and the end of the session's context.
pub record Line : Type 0 where
  pub ctrl : List OutFrame
  pub data_ : List OutFrame
  pub wire : List (Lane × OutFrame)
  pub ended : Option Ended
  pub place : Place

abbrev pub ctrl_room : ℕ
ctrl_room = 256

abbrev pub data_room : ℕ
data_room = 16

unfoldable pub new_line : Line
new_line = record { ctrl = []; data_ = []; wire = []; ended = none; place = looking }

-- What happens on the line.
pub data LineEvent : Type 0 where
  -- A send to a queue; it waits while the queue is full.
  queues : Lane → OutFrame → LineEvent
  -- `s.cancel` by another goroutine.
  ends : LineEvent
  -- The first select of the loop; the cases of the second.
  looks : LineEvent
  takes : Lane → LineEvent
  sees_end : LineEvent
  -- The end of a write.
  wrote : Bool → LineEvent

-- A send to a channel of so much room.
unfoldable pub enqueue : ℕ → OutFrame → List OutFrame → List OutFrame
enqueue room f q = if ltb (length q) room then q ++ f ∷ [] else q

-- `context.CancelCauseFunc`: the first cause wins.
unfoldable pub cancel : Ended → Option Ended → Option Ended
cancel e none = some e
cancel e (some e') = some e'

-- A receive that has a frame, or else does not happen.
unfoldable pub receive_ctrl : List OutFrame → Line → Line
receive_ctrl [] l = l
receive_ctrl (f ∷ fs) l = record l { ctrl = fs; place = writing in_ctrl f }

unfoldable pub receive_data : List OutFrame → Line → Line
receive_data [] l = l
receive_data (f ∷ fs) l = record l { data_ = fs; place = writing in_data f }

-- The first select: a control frame if there is one, or on to the second.
unfoldable pub look : List OutFrame → Line → Line
unfolding receive_ctrl
look [] l = record l { place = waiting }
look (f ∷ fs) l = receive_ctrl (f ∷ fs) l

unfoldable pub see_end : Option Ended → Line → Line
see_end none l = l
see_end (some e) l = record l { place = left none }

-- `write`: a frame that is a close ends the session with `closeWith`, whatever the write would do.
unfoldable pub finish_write : Lane → OutFrame → Bool → Line → Line
unfolding cancel
finish_write lane (close_out (suc n)) ok l = record l {
  ended = cancel (closed_with (suc n)) l.ended;
  place = left (some (lane, close_out (suc n)));
}
finish_write lane f false l = record l {
  ended = cancel write_failed l.ended;
  place = left (some (lane, f));
}
finish_write lane f true l = record l { wire = l.wire ++ (lane, f) ∷ []; place = looking }

-- A step of the writer from where it stands; any other event does not happen there.
unfoldable pub writer_step : Place → LineEvent → Line → Line
unfolding look receive_ctrl receive_data see_end finish_write
writer_step looking looks l = look l.ctrl l
writer_step waiting (takes in_ctrl) l = receive_ctrl l.ctrl l
writer_step waiting (takes in_data) l = receive_data l.data_ l
writer_step waiting sees_end l = see_end l.ended l
writer_step (writing lane f) (wrote ok) l = finish_write lane f ok l
writer_step _ _ l = l

unfoldable pub line_step : LineEvent → Line → Line
unfolding writer_step enqueue cancel
line_step (queues in_ctrl f) l = record l { ctrl = enqueue ctrl_room f l.ctrl }
line_step (queues in_data f) l = record l { data_ = enqueue data_room f l.data_ }
line_step ends l = record l { ended = cancel elsewhere l.ended }
line_step e l = writer_step l.place e l

unfoldable pub line_run : List LineEvent → Line → Line
unfolding line_step
line_run [] l = l
line_run (e ∷ es) l = line_run es (line_step e l)
