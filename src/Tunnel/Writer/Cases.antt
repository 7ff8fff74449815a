-- ===== src/Tunnel/Writer/Cases.antt =====
-- `writeLoop`: a step of the writer is one of five, or changes nothing.
use tuzy.Shared.{◌≡◌, Bool}
use tuzy.Tunnel.Writer.{
  OutFrame, Lane, in_ctrl, in_data, Place, looking, waiting, writing, left, Line, LineEvent, queues,
  ends, looks, takes, sees_end, wrote, receive_ctrl, receive_data, look, see_end, finish_write,
  writer_step,
}

-- What holds of a line, and after each of the five steps where the writer may take it, holds after every step.
module _ (P : Line → Type 0) (l : Line) (s : P l) (look_lem : l.place ≡ looking → P (look l.ctrl l))
    (ctrl_lem : l.place ≡ waiting → P (receive_ctrl l.ctrl l))
    (data_lem : l.place ≡ waiting → P (receive_data l.data_ l))
    (end_lem : l.place ≡ waiting → P (see_end l.ended l))
    (write_lem : (lane : Lane) (f : OutFrame) (ok : Bool)
      → l.place ≡ writing lane f
      → P (finish_write lane f ok l)) where
  pub writer_step-keeps : (p : Place) (e : LineEvent) → l.place ≡ p → P (writer_step p e l)
  unfolding writer_step
  writer_step-keeps looking looks p = look_lem p
  writer_step-keeps looking (takes in_ctrl) p = s
  writer_step-keeps looking (takes in_data) p = s
  writer_step-keeps looking sees_end p = s
  writer_step-keeps looking (wrote ok) p = s
  writer_step-keeps looking (queues lane' g) p = s
  writer_step-keeps looking ends p = s
  writer_step-keeps waiting looks p = s
  writer_step-keeps waiting (takes in_ctrl) p = ctrl_lem p
  writer_step-keeps waiting (takes in_data) p = data_lem p
  writer_step-keeps waiting sees_end p = end_lem p
  writer_step-keeps waiting (wrote ok) p = s
  writer_step-keeps waiting (queues lane' g) p = s
  writer_step-keeps waiting ends p = s
  writer_step-keeps (writing lane f) looks p = s
  writer_step-keeps (writing lane f) (takes in_ctrl) p = s
  writer_step-keeps (writing lane f) (takes in_data) p = s
  writer_step-keeps (writing lane f) sees_end p = s
  writer_step-keeps (writing lane f) (wrote ok) p = write_lem lane f ok p
  writer_step-keeps (writing lane f) (queues lane' g) p = s
  writer_step-keeps (writing lane f) ends p = s
  writer_step-keeps (left o) looks p = s
  writer_step-keeps (left o) (takes in_ctrl) p = s
  writer_step-keeps (left o) (takes in_data) p = s
  writer_step-keeps (left o) sees_end p = s
  writer_step-keeps (left o) (wrote ok) p = s
  writer_step-keeps (left o) (queues lane' g) p = s
  writer_step-keeps (left o) ends p = s
