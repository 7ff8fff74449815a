-- ===== src/Tunnel/Writer/Tests.antt =====
-- Runs of the writer.
use tuzy.Shared.{◌+◌, ◌≤◌, ◌≡◌, refl, ◌⊎◌, true, some, List, [], ◌∷◌, ◌++◌, length}
use tuzy.Tunnel.Writer.{
  binary_out, close_out, Lane, in_ctrl, in_data, Line, new_line, LineEvent, queues, looks, takes,
  wrote, closed_with, line_run,
}
use tuzy.Tunnel.Writer.Bounds.{Fits}
use tuzy.Tunnel.Writer.Order.{on_wire, queue, given, accepted, writes_in_order}
use tuzy.Tunnel.Writer.Priority.{taken, ctrl_goes_first}
use tuzy.Tunnel.Writer.Close.{close_comes_last}

-- Two responses and a grant, then the close of a drain and a frame too late.
abbrev day : List LineEvent
day =
    looks
    ∷ queues in_data (binary_out (1 ∷ []))
    ∷ queues in_data (binary_out (2 ∷ []))
    ∷ queues in_ctrl (binary_out (9 ∷ []))
    ∷ takes in_data
    ∷ wrote true
    ∷ looks
    ∷ wrote true
    ∷ queues in_data (close_out 1000)
    ∷ queues in_data (binary_out (3 ∷ []))
    ∷ looks
    ∷ takes in_data
    ∷ wrote true
    ∷ looks
    ∷ takes in_data
    ∷ wrote true
    ∷ []

writes_in_order_example :
    (accepted in_data day new_line ≡ given in_data (line_run day new_line))
    × Fits (line_run day new_line)
writes_in_order_example = writes_in_order day in_data

day_closes : (line_run day new_line).ended ≡ some (closed_with 1000)
unfolding line_run new_line
day_closes = refl

close_comes_last_example :
    (lane : Lane) × (accepted lane day new_line
      ≡ on_wire lane (line_run day new_line).wire
        ++ (close_out 1000 ∷ queue lane (line_run day new_line)))
close_comes_last_example = close_comes_last day 1000 day_closes

abbrev burst : Line
burst = record new_line {
  ctrl = binary_out (1 ∷ []) ∷ binary_out (2 ∷ []) ∷ [];
  data_ = binary_out (3 ∷ []) ∷ [];
}

ctrl_goes_first_example :
    (taken in_ctrl burst.wire burst.place + length burst.ctrl
      ≤ taken in_ctrl (line_run day burst).wire (line_run day burst).place)
    ⊎ (taken in_data (line_run day burst).wire (line_run day burst).place
        ≤ taken in_data burst.wire burst.place + 1)
ctrl_goes_first_example = ctrl_goes_first day burst

wire_of_the_day :
    (line_run day new_line).wire
    ≡ (in_data, binary_out (1 ∷ []))
      ∷ (in_ctrl, binary_out (9 ∷ []))
      ∷ (in_data, binary_out (2 ∷ []))
      ∷ []
unfolding line_run new_line
wire_of_the_day = refl
