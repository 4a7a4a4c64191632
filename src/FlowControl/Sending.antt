-- ===== src/FlowControl/Sending.antt =====
-- The side that sends: its windows, and the reset after a rejected 0-RTT.
use uquic.Shared.{ℕ, ◌-◌, ◌≤◌, max, ◌≡◌, ltb, leb, arith, ◌&&◌}
use uquic.FlowControl.Base
use uquic.FlowControl.Base.{BaseFlowController, Tuning, send_window_size, update_send_window}
use uquic.FlowControl.Stream
use uquic.FlowControl.Stream.{Controllers}

-- While the stream and the connection are within the windows that the peer allowed, sending `n` more
-- bytes keeps both within them exactly if `n` is at most `SendWindowSize`. What may be sent after
-- that is less by `n`, or nothing.
send_window_size_exact :
    (c : Controllers) (n : ℕ)
    → c.stream.base.bytes_sent ≤ c.stream.base.send_window
    → c.connection.bytes_sent ≤ c.connection.send_window
    → (leb n (Stream.send_window_size c) ≡ (
        leb (Stream.add_bytes_sent c n).stream.base.bytes_sent c.stream.base.send_window
        && leb (Stream.add_bytes_sent c n).connection.bytes_sent c.connection.send_window))
      × (Stream.send_window_size (Stream.add_bytes_sent c n) ≡ Stream.send_window_size c - n)
unfolding Stream.send_window_size Stream.add_bytes_sent Base.send_window_size
send_window_size_exact c n h1 h2 = ground arith

-- `UpdateSendWindow` never lowers the window: the new one is the larger of the old one and the
-- offset, and the answer says whether it changed. What could be sent before can still be sent.
update_send_window-max :
    (c : BaseFlowController) (offset : ℕ)
    → ((update_send_window c offset).1.send_window ≡ max c.send_window offset)
      × ((update_send_window c offset).0 ≡ ltb c.send_window offset)
      × (send_window_size c ≤ send_window_size (update_send_window c offset).1)
unfolding update_send_window send_window_size
update_send_window-max c offset = ground arith
