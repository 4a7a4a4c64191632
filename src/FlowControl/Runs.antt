-- ===== src/FlowControl/Runs.antt =====
-- Concrete runs of the flow control, and its theorems at concrete inputs.
use uquic.Shared.{
  ◌+◌, ◌*◌, ◌/◌, ◌≤◌, max, ◌≡◌, refl, true, false, ◌↔◌, if◌then◌else◌, leb, none, some, List, [],
  ◌∷◌,
}
use uquic.FlowControl.Base
use uquic.FlowControl.Base.{
  BaseFlowController, Tuning, is_newly_blocked, update_send_window, send_window_size,
  add_bytes_sent, check_flow_control_violation, start_new_auto_tuning_epoch, has_window_update,
  maybe_adjust_window_size, increased_size,
}
use uquic.FlowControl.Connection
use uquic.FlowControl.Connection.{
  new_connection_flow_controller, reset, start_tuning, increment_highest_received,
  ensure_minimum_window_size, grow_window, restart,
}
use uquic.FlowControl.Stream
use uquic.FlowControl.Stream.{
  Controllers, new_stream_flow_controller, update_highest_received, contradicts_final_offset,
  raise_offset, abandon, finish_update, follow_growth,
}
use uquic.FlowControl.Session.{
  Session, Event, opened, called, max_data, connection_update, received, read, sent, abandoned,
  stream_update, run, step, call_at, call,
}
use uquic.FlowControl.Window.{get_window_update_bounds}
use uquic.FlowControl.Balance.{is_acceptable, update_highest_received_iff}
use uquic.FlowControl.Totals.{IsBalanced, run-new_connection-IsBalanced}

abbrev tuning : Tuning
tuning = record { smoothed_rtt = 10; allowed_time = λ n size. 4 * n * 10 / size }

-- A connection with a window of 100 that grows up to 400.
abbrev connection : BaseFlowController
connection = new_connection_flow_controller 100 400 (some (λ n. true))

abbrev controllers : Controllers
controllers = record {
  stream = new_stream_flow_controller 60 200 80;
  connection = record connection { send_window = 50 };
}

abbrev events : List Event
events =
    opened 60 200 80
    ∷ opened 60 200 80
    ∷ called 0 (received 50 false 1)
    ∷ called 1 (received 30 true 2)
    ∷ called 0 (read 40)
    ∷ called 1 abandoned
    ∷ called 0 (stream_update tuning 3)
    ∷ connection_update tuning 4
    ∷ called 0 (received 90 false 5)
    ∷ max_data 20
    ∷ called 0 (sent 15)
    ∷ []

abbrev start : Session
start = record { streams = []; connection = connection }

abbrev reached : Session
reached = elim (run events start) [ none ↦ start | some x ↦ x ]

-- A second final offset that differs is refused, and data beyond the connection's window too.
final_offset_changed :
    run
      (called 0 (received 40 true 6) ∷ called 0 (received 30 true 7) ∷ [])
      (record { streams = new_stream_flow_controller 60 200 80 ∷ []; connection = connection })
    ≡ none
unfolding run step call_at call update_highest_received contradicts_final_offset raise_offset
    check_flow_control_violation start_tuning start_new_auto_tuning_epoch increment_highest_received
final_offset_changed = refl

reset_unused : reset (record connection { bytes_sent = 7; send_window = 9 }) ≡ some connection
unfolding reset
reset_unused = refl

get_window_update_bounds_example :
    ((Base.get_window_update tuning 4 (record connection { bytes_read = 60 })).0 ≡ (
      if leb 100 (60 + 100 * 3 / 4)
      then (Base.get_window_update tuning 4
          (record connection { bytes_read = 60 })).1.receive_window
      else 0))
    × ((Base.get_window_update tuning 4 (record connection { bytes_read = 60 })).1.receive_window
        ≡ (if leb 100 (60 + 100 * 3 / 4)
            then 60
              + (Base.get_window_update tuning 4
                  (record connection { bytes_read = 60 })).1.receive_window_size
            else 100))
    × (100
        ≤ (Base.get_window_update tuning 4
            (record connection { bytes_read = 60 })).1.receive_window_size)
    × ((Base.get_window_update tuning 4
          (record connection { bytes_read = 60 })).1.receive_window_size
        ≤ max 100 400)
    × ((Base.get_window_update tuning 4 (record connection { bytes_read = 60 })).1.bytes_read ≡ 60)
    × (100
        ≤ (Base.get_window_update tuning 4
            (record connection { bytes_read = 60 })).1.receive_window)
get_window_update_bounds_example =
    get_window_update_bounds tuning 4 (record connection { bytes_read = 60 })

abbrev blocked : BaseFlowController
blocked = record connection { bytes_sent = 50; send_window = 50 }

update_highest_received_iff_example :
    ((update_highest_received controllers 50 true 1).0 ≡ none)
    ↔ (is_acceptable controllers 50 true ≡ true)
update_highest_received_iff_example = update_highest_received_iff controllers 50 true 1

events-reached : run events start ≡ some reached
unfolding run step call_at call update_highest_received contradicts_final_offset raise_offset
    check_flow_control_violation start_tuning start_new_auto_tuning_epoch increment_highest_received
    abandon Stream.add_bytes_read Connection.add_bytes_read Stream.add_bytes_sent
    Stream.get_window_update finish_update follow_growth ensure_minimum_window_size grow_window
    restart Base.get_window_update has_window_update maybe_adjust_window_size increased_size
    update_send_window
events-reached = refl

run-new_connection-IsBalanced_example : IsBalanced reached
run-new_connection-IsBalanced_example =
    run-new_connection-IsBalanced 100 400 (some (λ n. true)) events reached events-reached
