-- ===== src/FlowControl/Window.antt =====
-- The windows that a controller grants: `getWindowUpdate`, and what bounds the auto-tuning.
use uquic.Shared.{ℕ, ◌+◌, ◌*◌, ◌/◌, ◌≤◌, max, ◌≡◌, leb, if◌then◌else◌, arith, none, some}
use uquic.FlowControl.Base.{
  BaseFlowController, Tuning, has_window_update, get_window_update, maybe_adjust_window_size,
  increased_size, start_new_auto_tuning_epoch, send_window_size, is_newly_blocked, add_bytes_sent,
}

increased_size_bounds :
    (c : BaseFlowController)
    → (c.receive_window_size ≤ (increased_size c).receive_window_size)
      × ((increased_size c).receive_window_size
          ≤ max c.receive_window_size c.max_receive_window_size)
      × ((increased_size c).bytes_read ≡ c.bytes_read)
unfolding increased_size
increased_size_bounds c = ground arith

adjust_bounds :
    (t : Tuning) (now : ℕ) (c : BaseFlowController)
    → (c.receive_window_size ≤ (maybe_adjust_window_size t now c).receive_window_size)
      × ((maybe_adjust_window_size t now c).receive_window_size
          ≤ max c.receive_window_size c.max_receive_window_size)
      × ((maybe_adjust_window_size t now c).bytes_read ≡ c.bytes_read)
unfolding maybe_adjust_window_size start_new_auto_tuning_epoch
adjust_bounds t now c = let h = increased_size_bounds c in ground arith

-- A window update is due exactly if at most three quarters of the window size are left. Then the new
-- limit is what has been read and the window size, and the limit is the answer; otherwise the limit
-- stays and the answer is 0. The window size does not shrink, and grows at most to the maximum.
-- Nothing is read, and the limit granted before is never taken back.
pub get_window_update_bounds :
    (t : Tuning) (now : ℕ) (c : BaseFlowController)
    → ((get_window_update t now c).0 ≡ (
        if leb c.receive_window (c.bytes_read + c.receive_window_size * 3 / 4)
        then (get_window_update t now c).1.receive_window
        else 0))
      × ((get_window_update t now c).1.receive_window ≡ (
          if leb c.receive_window (c.bytes_read + c.receive_window_size * 3 / 4)
          then c.bytes_read + (get_window_update t now c).1.receive_window_size
          else c.receive_window))
      × (c.receive_window_size ≤ (get_window_update t now c).1.receive_window_size)
      × ((get_window_update t now c).1.receive_window_size
          ≤ max c.receive_window_size c.max_receive_window_size)
      × ((get_window_update t now c).1.bytes_read ≡ c.bytes_read)
      × (c.receive_window ≤ (get_window_update t now c).1.receive_window)
unfolding get_window_update has_window_update
get_window_update_bounds t now c = let h = adjust_bounds t now c in ground arith

increased_size_keeps :
    (c : BaseFlowController)
    → ((increased_size c).highest_received ≡ c.highest_received)
      × ((increased_size c).bytes_sent ≡ c.bytes_sent)
unfolding increased_size
increased_size_keeps c = ground arith

pub get_window_update_keeps :
    (t : Tuning) (now : ℕ) (c : BaseFlowController)
    → ((get_window_update t now c).1.highest_received ≡ c.highest_received)
      × ((get_window_update t now c).1.bytes_sent ≡ c.bytes_sent)
unfolding get_window_update maybe_adjust_window_size start_new_auto_tuning_epoch
get_window_update_keeps t now c = let h = increased_size_keeps c in ground arith

-- If `IsNewlyBlocked` reports an offset, it is the send window, and all of it is used. Asked again
-- after `n` more bytes were sent, it reports nothing.
is_newly_blocked_once :
    (c : BaseFlowController) (offset n : ℕ)
    → (is_newly_blocked c).0 ≡ some offset
    → (offset ≡ c.send_window)
      × (c.send_window ≤ c.bytes_sent)
      × ((is_newly_blocked (add_bytes_sent (is_newly_blocked c).1 n)).0 ≡ none)
unfolding is_newly_blocked send_window_size
is_newly_blocked_once c offset n e = ground arith
