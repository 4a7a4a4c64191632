-- ===== src/FlowControl/Connection.antt =====
-- internal/flowcontrol/connection_flow_controller.go. The logging is left out.
use uquic.Shared.{
  ℕ, ◌+◌, ◌-◌, min, Bool, true, false, ◌||◌, ◌&&◌, Option, none, some, ltb, leb, ◌==◌,
  if◌then◌else◌, Result, ok, err, Panic, panic,
}
use uquic.FlowControl.Base
use uquic.FlowControl.Base.{
  BaseFlowController, Tuning, has_window_update, start_new_auto_tuning_epoch,
  check_flow_control_violation,
}

-- The codes of the transport errors.
pub data FlowError : Type 0 where
  final_size_error : FlowError
  flow_control_error : FlowError

abbrev pub new_connection_flow_controller : ℕ → ℕ → Option (ℕ → Bool) → BaseFlowController
new_connection_flow_controller receive_window max_receive_window allow = record {
  bytes_sent = 0;
  send_window = 0;
  last_blocked_at = 0;
  bytes_read = 0;
  highest_received = 0;
  receive_window = receive_window;
  receive_window_size = receive_window;
  max_receive_window_size = max_receive_window;
  allow_window_increase = allow;
  epoch_start_time = none;
  epoch_start_offset = 0;
}

-- The auto-tuning starts with the first byte received.
unfoldable pub start_tuning : ℕ → BaseFlowController → BaseFlowController
start_tuning now c = if c.highest_received == 0 then start_new_auto_tuning_epoch now c else c

abbrev pub raise_highest : BaseFlowController → ℕ → BaseFlowController
raise_highest c offset = record c { highest_received = offset }

unfoldable pub increment_highest_received :
    BaseFlowController → ℕ → ℕ → Option FlowError × BaseFlowController
increment_highest_received c increment now =
    let c' = raise_highest (start_tuning now c) (c.highest_received + increment) in
    ((if check_flow_control_violation c' then some flow_control_error else none), c')

unfoldable pub add_bytes_read : BaseFlowController → ℕ → Bool × BaseFlowController
add_bytes_read c n = let c' = Base.add_bytes_read c n in (has_window_update c', c')

abbrev pub get_window_update : Tuning → ℕ → BaseFlowController → ℕ × BaseFlowController
get_window_update t now c = Base.get_window_update t now c

-- The callback is called without a test for nil, which panics.
unfoldable pub grow_window :
    BaseFlowController → ℕ → Option (ℕ → Bool) → Result Panic BaseFlowController
grow_window c new_size none = if ltb c.receive_window_size new_size then err panic else ok c
grow_window c new_size (some allow) =
    if ltb c.receive_window_size new_size && allow (new_size - c.receive_window_size)
    then ok (record c { receive_window_size = new_size })
    else ok c

-- The epoch starts after the window has grown, if it does.
unfoldable pub restart : ℕ → Result Panic BaseFlowController → Result Panic BaseFlowController
restart now (ok c) = ok (start_new_auto_tuning_epoch now c)
restart now (err e) = err e

unfoldable pub ensure_minimum_window_size :
    ℕ → ℕ → BaseFlowController → Result Panic BaseFlowController
ensure_minimum_window_size inc now c =
    if leb inc c.receive_window_size
    then ok c
    else restart now (grow_window c (min inc c.max_receive_window_size) c.allow_window_increase)

abbrev pub is_started : Option ℕ → Bool
is_started none = false
is_started (some start) = true

-- `none` is the error: data has been read.
unfoldable pub reset : BaseFlowController → Option BaseFlowController
reset c =
    if ltb 0 c.bytes_read || (ltb 0 c.highest_received || is_started c.epoch_start_time)
    then none
    else some (record c { bytes_sent = 0; last_blocked_at = 0; send_window = 0 })
