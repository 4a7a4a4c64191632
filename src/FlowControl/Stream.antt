-- ===== src/FlowControl/Stream.antt =====
-- internal/flowcontrol/stream_flow_controller.go. The connection's controller, which all streams
-- share, is passed in and out beside the stream's.
use uquic.Shared.{
  ℕ, ◌-◌, ◌*◌, ◌/◌, min, Bool, true, false, not, ◌&&◌, Option, none, some, ltb, ◌==◌, if◌then◌else◌,
  Result, ok, err, Panic,
}
use uquic.FlowControl.Base
use uquic.FlowControl.Base.{
  BaseFlowController, Tuning, has_window_update, check_flow_control_violation,
}
use uquic.FlowControl.Connection
use uquic.FlowControl.Connection.{
  FlowError, final_size_error, flow_control_error, start_tuning, raise_highest,
  increment_highest_received, ensure_minimum_window_size,
}

pub record StreamFlowController : Type 0 where
  pub base : BaseFlowController
  pub received_final_offset : Bool

abbrev pub new_stream_flow_controller : ℕ → ℕ → ℕ → StreamFlowController
new_stream_flow_controller receive_window max_receive_window initial_send_window = record {
  base = record {
    bytes_sent = 0;
    send_window = initial_send_window;
    last_blocked_at = 0;
    bytes_read = 0;
    highest_received = 0;
    receive_window = receive_window;
    receive_window_size = receive_window;
    max_receive_window_size = max_receive_window;
    allow_window_increase = none;
    epoch_start_time = none;
    epoch_start_offset = 0;
  };
  received_final_offset = false;
}

-- A stream's controller and the connection's.
pub record Controllers : Type 0 where
  pub stream : StreamFlowController
  pub connection : BaseFlowController

abbrev pub set_base : StreamFlowController → BaseFlowController → StreamFlowController
set_base s c = record s { base = c }

-- The check against a final offset that is already known: whether it fails.
unfoldable pub contradicts_final_offset : StreamFlowController → ℕ → Bool → Bool
contradicts_final_offset s offset final =
    s.received_final_offset
    && (if final && not (offset == s.base.highest_received)
        then true
        else ltb s.base.highest_received offset)

abbrev pub mark_final : StreamFlowController → Bool → StreamFlowController
mark_final s final = if final then record s { received_final_offset = true } else s

-- The last part of `UpdateHighestReceived`: the offset is higher than all before.
unfoldable pub raise_offset : Controllers → ℕ → ℕ → Option FlowError × Controllers
raise_offset c offset now =
    let base = raise_highest (start_tuning now c.stream.base) offset in
    let (e, connection) =
      increment_highest_received c.connection (offset - c.stream.base.highest_received) now in
    if check_flow_control_violation base
    then (some flow_control_error, record c { stream = set_base c.stream base })
    else (e, record { stream = set_base c.stream base; connection = connection })

unfoldable pub update_highest_received : Controllers → ℕ → Bool → ℕ → Option FlowError × Controllers
update_highest_received c offset final now =
    let c' = record c { stream = mark_final c.stream final } in
    if contradicts_final_offset c.stream offset final
    then (some final_size_error, c)
    else if offset == c.stream.base.highest_received
    then (none, c')
    else if ltb offset c.stream.base.highest_received
    then ((if final then some final_size_error else none), c')
    else raise_offset c' offset now

unfoldable pub should_queue_window_update : StreamFlowController → Bool
should_queue_window_update s = not s.received_final_offset && has_window_update s.base

-- The flags say whether the stream and the connection have a window update.
unfoldable pub add_bytes_read : Controllers → ℕ → (Bool × Bool) × Controllers
add_bytes_read c n =
    let stream = set_base c.stream (Base.add_bytes_read c.stream.base n) in
    let (has_connection_update, connection) = Connection.add_bytes_read c.connection n in
    (
      (should_queue_window_update stream, has_connection_update),
      record { stream = stream; connection = connection },
    )

unfoldable pub abandon : Controllers → Controllers
abandon c =
    let unread = c.stream.base.highest_received - c.stream.base.bytes_read in
    let stream =
      set_base c.stream (record c.stream.base { bytes_read = c.stream.base.highest_received }) in
    if ltb 0 unread
    then record { stream = stream; connection = (Connection.add_bytes_read c.connection unread).1 }
    else record c { stream = stream }

unfoldable pub add_bytes_sent : Controllers → ℕ → Controllers
add_bytes_sent c n = record {
  stream = set_base c.stream (Base.add_bytes_sent c.stream.base n);
  connection = Base.add_bytes_sent c.connection n;
}

unfoldable pub send_window_size : Controllers → ℕ
send_window_size c = min (Base.send_window_size c.stream.base) (Base.send_window_size c.connection)

unfoldable pub is_newly_blocked : StreamFlowController → Bool × StreamFlowController
is_newly_blocked s =
    let (blocked_at, base) = Base.is_newly_blocked s.base in
    (elim blocked_at [ none ↦ false | some offset ↦ true ], set_base s base)

-- `ByteCount(float64(receiveWindowSize) * ConnectionFlowControlMultiplier)`, the multiplier 1.5;
-- float64 is exact here for windows below 2^51.
abbrev pub scale_for_connection : ℕ → ℕ
scale_for_connection size = size * 3 / 2

-- The connection's controller after the stream's window size went from `old` to `new`.
unfoldable pub follow_growth : ℕ → ℕ → ℕ → BaseFlowController → Result Panic BaseFlowController
follow_growth old new now connection =
    if ltb old new
    then ensure_minimum_window_size (scale_for_connection new) now connection
    else ok connection

-- The answer, with the connection's controller after that.
unfoldable pub finish_update :
    StreamFlowController → ℕ → Result Panic BaseFlowController → Result Panic (ℕ × Controllers)
finish_update s offset (ok connection) = ok (offset, record { stream = s; connection = connection })
finish_update s offset (err e) = err e

unfoldable pub get_window_update : Tuning → ℕ → Controllers → Result Panic (ℕ × Controllers)
get_window_update t now c =
    let (offset, base) = Base.get_window_update t now c.stream.base in
    if c.stream.received_final_offset
    then ok (0, c)
    else finish_update (set_base c.stream base) offset
        (follow_growth c.stream.base.receive_window_size base.receive_window_size now c.connection)
