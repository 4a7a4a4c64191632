-- ===== src/FlowControl/Session.antt =====
-- A connection with its streams: the controllers of all streams, the newest first, beside the one
-- that they share, and the calls that the connection makes on them.
use uquic.Shared.{
  ℕ, zero, suc, ◌-◌, min, Bool, Option, none, some, List, [], ◌∷◌, Result, ok, err, Panic,
}
use uquic.FlowControl.Base
use uquic.FlowControl.Base.{BaseFlowController, Tuning}
use uquic.FlowControl.Connection
use uquic.FlowControl.Connection.{FlowError}
use uquic.FlowControl.Stream
use uquic.FlowControl.Stream.{
  StreamFlowController, Controllers, new_stream_flow_controller, update_highest_received, abandon,
  set_base,
}

-- A call on the controller of one stream. `read n` is a read with a buffer of `n` bytes: a stream
-- hands out no more than it has received.
pub data Call : Type 0 where
  received : (offset : ℕ) → (final : Bool) → (now : ℕ) → Call
  read : (n : ℕ) → Call
  abandoned : Call
  sent : (n : ℕ) → Call
  max_stream_data : (offset : ℕ) → Call
  stream_update : (t : Tuning) → (now : ℕ) → Call

-- The new state, or none after a transport error, which closes the connection, and after a panic.
abbrev pub unless_failed : Option FlowError × Controllers → Option Controllers
unless_failed (none, c) = some c
unless_failed (some e, c) = none

abbrev pub unless_panic : Result Panic (ℕ × Controllers) → Option Controllers
unless_panic (ok (offset, c)) = some c
unless_panic (err e) = none

unfoldable pub call : Call → Controllers → Option Controllers
call (received offset final now) c = unless_failed (update_highest_received c offset final now)
call (read n) c =
    some
      (Stream.add_bytes_read c
        (min n (c.stream.base.highest_received - c.stream.base.bytes_read))).1
call abandoned c = some (abandon c)
call (sent n) c = some (Stream.add_bytes_sent c n)
call (max_stream_data offset) c =
    some (record c { stream = set_base c.stream (Base.update_send_window c.stream.base offset).1 })
call (stream_update t now) c = unless_panic (Stream.get_window_update t now c)

pub record Session : Type 0 where
  pub streams : List StreamFlowController
  pub connection : BaseFlowController

abbrev pub put_first : Option Controllers → List StreamFlowController → Option Session
put_first none ss = none
put_first (some c) ss = some (record { streams = c.stream ∷ ss; connection = c.connection })

abbrev pub put_back : StreamFlowController → Option Session → Option Session
put_back s none = none
put_back s (some x) = some (record x { streams = s ∷ x.streams })

-- The call on the stream at index `i`; nothing happens if there is no such stream.
unfoldable pub call_at : Call → ℕ → List StreamFlowController → BaseFlowController → Option Session
call_at a i [] c = some (record { streams = []; connection = c })
call_at a zero (s ∷ ss) c = put_first (call a (record { stream = s; connection = c })) ss
call_at a (suc i) (s ∷ ss) c = put_back s (call_at a i ss c)

pub data Event : Type 0 where
  opened : (receive_window max_receive_window initial_send_window : ℕ) → Event
  called : (i : ℕ) → (a : Call) → Event
  max_data : (offset : ℕ) → Event
  connection_update : (t : Tuning) → (now : ℕ) → Event

unfoldable pub step : Event → Session → Option Session
step (opened w m i) x = some (record x { streams = new_stream_flow_controller w m i ∷ x.streams })
step (called i a) x = call_at a i x.streams x.connection
step (max_data offset) x =
    some (record x { connection = (Base.update_send_window x.connection offset).1 })
step (connection_update t now) x =
    some (record x { connection = (Connection.get_window_update t now x.connection).1 })

abbrev pub and_then : Option Session → (Session → Option Session) → Option Session
and_then none f = none
and_then (some x) f = f x

unfoldable pub run : List Event → Session → Option Session
run [] x = some x
run (e ∷ es) x = and_then (step e x) (run es)
