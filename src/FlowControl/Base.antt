-- ===== src/FlowControl/Base.antt =====
-- internal/flowcontrol/base_flow_controller.go: the state and the operations that the flow
-- controllers of a stream and of the connection share. A `ByteCount` is a natural number, and a
-- comparison of a difference that could be negative is written with a sum. An operation runs under
-- the controller's lock, so it is one step.
use uquic.Shared.{
  ℕ, ◌+◌, ◌-◌, ◌*◌, ◌/◌, min, Bool, true, false, ◌&&◌, ◌||◌, Option, none, some, ltb, leb, ◌==◌,
  if◌then◌else◌,
}

pub record BaseFlowController : Type 0 where
  pub bytes_sent : ℕ
  pub send_window : ℕ
  pub last_blocked_at : ℕ
  pub bytes_read : ℕ
  pub highest_received : ℕ
  pub receive_window : ℕ
  pub receive_window_size : ℕ
  pub max_receive_window_size : ℕ
  -- the callback, which may be nil
  pub allow_window_increase : Option (ℕ → Bool)
  -- none: the zero time
  pub epoch_start_time : Option ℕ
  pub epoch_start_offset : ℕ

-- What the auto-tuning reads from outside: the smoothed RTT of `rttStats`, and the product
-- `time.Duration(4*fraction*float64(rtt))` as a function of `bytesReadInEpoch` and the window size,
-- since the rounding of floating-point numbers is not modelled.
pub record Tuning : Type 0 where
  pub smoothed_rtt : ℕ
  pub allowed_time : ℕ → ℕ → ℕ

unfoldable pub send_window_size : BaseFlowController → ℕ
send_window_size c = if ltb c.send_window c.bytes_sent then 0 else c.send_window - c.bytes_sent

-- Go's pair of the flag and the offset is an option here.
unfoldable pub is_newly_blocked : BaseFlowController → Option ℕ × BaseFlowController
is_newly_blocked c =
    if ltb 0 (send_window_size c) || c.send_window == c.last_blocked_at
    then (none, c)
    else (some c.send_window, record c { last_blocked_at = c.send_window })

abbrev pub add_bytes_sent : BaseFlowController → ℕ → BaseFlowController
add_bytes_sent c n = record c { bytes_sent = c.bytes_sent + n }

unfoldable pub update_send_window : BaseFlowController → ℕ → Bool × BaseFlowController
update_send_window c offset =
    if ltb c.send_window offset then (true, record c { send_window = offset }) else (false, c)

abbrev pub add_bytes_read : BaseFlowController → ℕ → BaseFlowController
add_bytes_read c n = record c { bytes_read = c.bytes_read + n }

-- `ByteCount(float64(receiveWindowSize) * (1 - WindowUpdateThreshold))` with the threshold 0.25;
-- float64 is exact here for windows below 2^51.
abbrev pub window_update_threshold : ℕ → ℕ
window_update_threshold size = size * 3 / 4

unfoldable pub has_window_update : BaseFlowController → Bool
has_window_update c =
    leb c.receive_window (c.bytes_read + window_update_threshold c.receive_window_size)

unfoldable pub start_new_auto_tuning_epoch : ℕ → BaseFlowController → BaseFlowController
start_new_auto_tuning_epoch now c = record c {
  epoch_start_time = some now;
  epoch_start_offset = c.bytes_read;
}

-- `now.Sub(epochStartTime) < limit`; from the zero time the difference is the largest duration.
abbrev pub is_within : Option ℕ → ℕ → ℕ → Bool
is_within none now limit = false
is_within (some start) now limit = ltb now (start + limit)

-- The callback, where nil allows everything.
abbrev pub allows : Option (ℕ → Bool) → ℕ → Bool
allows none n = true
allows (some allow) n = allow n

unfoldable pub increased_size : BaseFlowController → BaseFlowController
increased_size c =
    let new_size = min (2 * c.receive_window_size) c.max_receive_window_size in
    if ltb c.receive_window_size new_size
      && allows c.allow_window_increase (new_size - c.receive_window_size)
    then record c { receive_window_size = new_size }
    else c

unfoldable pub maybe_adjust_window_size : Tuning → ℕ → BaseFlowController → BaseFlowController
maybe_adjust_window_size t now c =
    if leb c.bytes_read (c.epoch_start_offset + c.receive_window_size / 2)
    then c
    else if t.smoothed_rtt == 0
    then c
    else start_new_auto_tuning_epoch now (
        if is_within c.epoch_start_time now
          (t.allowed_time (c.bytes_read - c.epoch_start_offset) c.receive_window_size)
        then increased_size c
        else c)

abbrev pub slide_window : BaseFlowController → BaseFlowController
slide_window c = record c { receive_window = c.bytes_read + c.receive_window_size }

unfoldable pub get_window_update : Tuning → ℕ → BaseFlowController → ℕ × BaseFlowController
get_window_update t now c =
    if has_window_update c
    then (let c' = slide_window (maybe_adjust_window_size t now c) in (c'.receive_window, c'))
    else (0, c)

unfoldable pub check_flow_control_violation : BaseFlowController → Bool
check_flow_control_violation c = ltb c.receive_window c.highest_received
