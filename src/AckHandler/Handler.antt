-- ===== src/AckHandler/Handler.antt =====
-- internal/ackhandler/received_packet_handler.go: the three packet number spaces. `sentPackets` is the
-- sending side: `ReceivedPacket` on it is not modelled, and what `GetLowestPacketNotConfirmedAcked`
-- answers is an argument. A call on a tracker that was dropped panics.
pub mod Spaces
mod Runs
use uquic.Shared.{
  ℕ, zero, Bool, false, Option, none, some, ltb, if◌then◌else◌, Result, ok, err, Panic, panic,
  ◌>>=◌, ◌>>◌,
}
use uquic.AckHandler.History
use uquic.AckHandler.Tracker.{
  Ecn, Tracker, TrackerError, zero_rtt_after_one_rtt, AppTracker, track_packet, take_ack,
  new_tracker, new_app_tracker, ignore_packets_below, track_app_packet, take_app_ack,
}
use uquic.Wire.AckFrame.{AckFrame}
use uquic.Wire.Frame.{EncryptionLevel, initial, handshake, zero_rtt, one_rtt}

-- `none` is a tracker that was dropped. `lowest_one_rtt` is none for InvalidPacketNumber.
pub record Handler : Type 0 where
  pub initial_packets : Option Tracker
  pub handshake_packets : Option Tracker
  pub app_data_packets : AppTracker
  pub lowest_one_rtt : Option ℕ

unfoldable pub new_handler : Handler
new_handler = record {
  initial_packets = some new_tracker;
  handshake_packets = some new_tracker;
  app_data_packets = new_app_tracker;
  lowest_one_rtt = none;
}

-- An error and the new state, or a panic.
abbrev pub Outcome : Type 0
Outcome = Result Panic (Option TrackerError × Handler)

unfoldable pub receive_initial : Handler → Option Tracker → ℕ → Ecn → Bool → Outcome
receive_initial h none pn ecn elic = err panic
receive_initial h (some t) pn ecn elic =
    let (e, t') = track_packet t pn ecn elic in ok (e, record h { initial_packets = some t' })

unfoldable pub receive_handshake : Handler → Option Tracker → ℕ → Ecn → Bool → Outcome
receive_handshake h none pn ecn elic = ok (none, h)
receive_handshake h (some t) pn ecn elic =
    let (e, t') = track_packet t pn ecn elic in ok (e, record h { handshake_packets = some t' })

unfoldable pub receive_app_data : Handler → ℕ → Ecn → ℕ → Bool → Outcome
receive_app_data h pn ecn rcv elic = do
  (e, app) ← track_app_packet h.app_data_packets pn ecn rcv elic
  ok (e, record h { app_data_packets = app })

-- `h.lowest1RTTPacket != InvalidPacketNumber && pn > h.lowest1RTTPacket`
abbrev pub is_above : Option ℕ → ℕ → Bool
is_above none pn = false
is_above (some lowest) pn = ltb lowest pn

abbrev pub lower : Option ℕ → ℕ → Option ℕ
lower none pn = some pn
lower (some lowest) pn = if ltb pn lowest then some pn else some lowest

-- The packets below `lowest` are ignored, unless the packet was refused.
unfoldable pub ignore_confirmed : ℕ → Option TrackerError × Handler → Option TrackerError × Handler
ignore_confirmed lowest (none, h) =
    (none, record h { app_data_packets = ignore_packets_below h.app_data_packets lowest })
ignore_confirmed lowest (some e, h) = (some e, h)

-- `ReceivedPacket`. `lowest` is what the sending side answers.
unfoldable pub receive_packet : Handler → ℕ → Ecn → EncryptionLevel → ℕ → Bool → ℕ → Outcome
receive_packet h pn ecn initial rcv elic lowest = receive_initial h h.initial_packets pn ecn elic
receive_packet h pn ecn handshake rcv elic lowest =
    receive_handshake h h.handshake_packets pn ecn elic
receive_packet h pn ecn zero_rtt rcv elic lowest =
    if is_above h.lowest_one_rtt pn
    then ok (some zero_rtt_after_one_rtt, h)
    else receive_app_data h pn ecn rcv elic
receive_packet h pn ecn one_rtt rcv elic lowest =
    receive_app_data (record h { lowest_one_rtt = lower h.lowest_one_rtt pn }) pn ecn rcv elic
    >>= λ r. ok (ignore_confirmed lowest r)

-- 1-RTT keys are never dropped, and dropping 0-RTT keys changes nothing.
unfoldable pub drop_packets : Handler → EncryptionLevel → Result Panic Handler
drop_packets h initial = ok (record h { initial_packets = none })
drop_packets h handshake = ok (record h { handshake_packets = none })
drop_packets h zero_rtt = ok h
drop_packets h one_rtt = err panic

unfoldable pub get_alarm_timeout : Handler → Option ℕ
get_alarm_timeout h = h.app_data_packets.ack_alarm

unfoldable pub take_space_ack : Option Tracker → Option AckFrame × Option Tracker
take_space_ack none = (none, none)
take_space_ack (some t) = let (ack, t') = take_ack t in (ack, some t')

-- `GetAckFrame`
unfoldable pub get_ack_frame : Handler → EncryptionLevel → ℕ → Bool → Option AckFrame × Handler
get_ack_frame h initial now only =
    let (ack, t) = take_space_ack h.initial_packets in (ack, record h { initial_packets = t })
get_ack_frame h handshake now only =
    let (ack, t) = take_space_ack h.handshake_packets in (ack, record h { handshake_packets = t })
get_ack_frame h one_rtt now only =
    let (ack, t) = take_app_ack h.app_data_packets now only in
    (ack, record h { app_data_packets = t })
get_ack_frame h zero_rtt now only = (none, h)

unfoldable pub is_known : Option Tracker → ℕ → Result Panic Bool
is_known none pn = err panic
is_known (some t) pn = ok (History.is_potentially_duplicate t.packet_history pn)

-- `IsPotentiallyDuplicate`
unfoldable pub is_potentially_duplicate : Handler → ℕ → EncryptionLevel → Result Panic Bool
is_potentially_duplicate h pn initial = is_known h.initial_packets pn
is_potentially_duplicate h pn handshake = is_known h.handshake_packets pn
is_potentially_duplicate h pn zero_rtt =
    ok (History.is_potentially_duplicate h.app_data_packets.base.packet_history pn)
is_potentially_duplicate h pn one_rtt =
    ok (History.is_potentially_duplicate h.app_data_packets.base.packet_history pn)
