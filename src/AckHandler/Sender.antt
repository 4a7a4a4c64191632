-- ===== src/AckHandler/Sender.antt =====
-- internal/ackhandler/sent_packet_handler.go: the state of the sending side, and what its operations share.
-- A time is a number of nanoseconds, 0 the zero time; times are later than any duration, so that a time minus
-- a duration does not wrap. Byte counts stay below 2^62. Congestion control is behind the interface
-- SendAlgorithm of internal/congestion/interface.go, on a state of any type `C`. The calls of frame handlers are listed in the
-- order in which they are made. Logger and tracer are left out.
pub mod Acks
pub mod Losses
pub mod Alarm
pub mod Calls
pub mod Control
pub mod Restart
pub mod Covered
pub mod Acked
pub mod Timer
pub mod Migration
pub mod Spaces
pub mod Flight
pub mod Picked
pub mod Paid
pub mod Settled
pub mod Charged
pub mod Kept
pub mod TimedOut
pub mod Dropped
pub mod Restarted
pub mod Reached
mod Runs
use uquic.Shared.{
  ℕ, zero, ◌+◌, ◌-◌, ◌*◌, Bool, true, false, ◌&&◌, Option, none, some, List, [], ◌∷◌, ◌++◌, ltb,
  leb, if◌then◌else◌, Result, ok, err, Panic, ◌>>=◌, ◌>>◌,
}
use uquic.Wire.Frame.{EncryptionLevel, initial, handshake, zero_rtt, one_rtt}
use uquic.Protocol.StreamId.{Perspective}
use uquic.AckHandler.Ecn.{EcnTracker}
use uquic.AckHandler.Rtt.{RttStats}
use uquic.AckHandler.Sent.{HandledFrame, Packet, is_empty_list}
use uquic.AckHandler.Space.{PacketNumberSpace}

-- What the handler calls of SendAlgorithm.
pub record SendAlgorithm (C : Type 0) : Type 0 where
  pub on_packet_sent : C → (sent_time bytes_in_flight packet_number bytes : ℕ) → Bool → C
  pub can_send : C → (bytes_in_flight : ℕ) → Bool
  pub has_pacing_budget : C → (now : ℕ) → Bool
  pub time_until_send : C → (bytes_in_flight : ℕ) → ℕ
  pub maybe_exit_slow_start : C → RttStats → C
  pub on_packet_acked : C → (number acked_bytes prior_in_flight event_time : ℕ) → C
  pub on_congestion_event : C → (number lost_bytes prior_in_flight : ℕ) → C
  pub set_max_datagram_size : C → ℕ → C
  -- `NewCubicSender`
  pub fresh : (initial_max_datagram_size : ℕ) → C

-- The calls on frame handlers.
pub data Notice : Type 0 where
  on_acked : (frame : ℕ) → Notice
  on_lost : (frame : ℕ) → Notice

pub data SendMode : Type 0 where
  send_none send_ack send_pto_initial send_pto_handshake send_pto_app_data send_pacing_limited
        send_any :
      SendMode

pub data TimerType : Type 0 where
  timer_type_unset timer_type_ack timer_type_pto timer_type_path_probe : TimerType

-- `encryption_level` is none for the zero value.
pub record AlarmTimer : Type 0 where
  pub time : ℕ
  pub timer_type : TimerType
  pub encryption_level : Option EncryptionLevel

abbrev pub no_alarm : AlarmTimer
no_alarm = record { time = 0; timer_type = timer_type_unset; encryption_level = none }

-- sentPacketHandler. `none` is a packet number space that was dropped. The ECN tracker is there if ECN is enabled.
pub record Sender (C : Type 0) : Type 0 where
  pub initial_packets : Option PacketNumberSpace
  pub handshake_packets : Option PacketNumberSpace
  pub app_data_packets : PacketNumberSpace
  pub peer_completed_address_validation : Bool
  pub bytes_received : ℕ
  pub bytes_sent : ℕ
  pub peer_address_validated : Bool
  pub handshake_confirmed : Bool
  pub lowest_not_confirmed_acked : ℕ
  pub bytes_in_flight : ℕ
  pub congestion : C
  pub rtt_stats : RttStats
  pub pto_count : ℕ
  pub pto_mode : SendMode
  pub num_probes_to_send : ℕ
  pub alarm : AlarmTimer
  pub ecn_tracker : Option EcnTracker
  pub perspective : Perspective
  pub notices : List Notice

pub data SenderError : Type 0 where
  panics : SenderError
  ack_for_unsent_packet : SenderError
  ack_for_skipped_packet : (pn : ℕ) → SenderError
  bug_wrong_packet : (pn : ℕ) → SenderError
  not_in_history : (pn : ℕ) → SenderError
  bug_spaces_dropped : SenderError
  unexpected_level : SenderError

abbrev pub lift {ℓ} : {A : Type ℓ} → Result Panic A → Result SenderError A
lift (ok a) = ok a
lift (err e) = err panics

-- A call on a space that may have been dropped, which is a nil pointer.
abbrev pub need : Option PacketNumberSpace → Result SenderError PacketNumberSpace
need none = err panics
need (some space) = ok space

abbrev pub is_one_rtt : EncryptionLevel → Bool
is_one_rtt one_rtt = true
is_one_rtt _ = false

module _ {C : Type 0} where
  -- getPacketNumberSpace
  abbrev pub get_packet_number_space : Sender C → EncryptionLevel → Option PacketNumberSpace
  get_packet_number_space h initial = h.initial_packets
  get_packet_number_space h handshake = h.handshake_packets
  get_packet_number_space h zero_rtt = some h.app_data_packets
  get_packet_number_space h one_rtt = some h.app_data_packets

  -- A space that changed, through its pointer.
  abbrev pub put_space : Sender C → EncryptionLevel → PacketNumberSpace → Sender C
  put_space h initial space = record h { initial_packets = some space }
  put_space h handshake space = record h { handshake_packets = some space }
  put_space h zero_rtt space = record h { app_data_packets = space }
  put_space h one_rtt space = record h { app_data_packets = space }

  unfoldable pub remove_from_bytes_in_flight : Sender C → Packet → Result SenderError (Sender C)
  remove_from_bytes_in_flight h p =
      if p.included_in_bytes_in_flight
      then if ltb h.bytes_in_flight p.length
        then err panics
        else ok (record h { bytes_in_flight = h.bytes_in_flight - p.length })
      else ok h

  unfoldable pub remove_all_from_bytes_in_flight :
      Sender C → List Packet → Result SenderError (Sender C)
  remove_all_from_bytes_in_flight h [] = ok h
  remove_all_from_bytes_in_flight h (p ∷ ps) = do
    h1 ← remove_from_bytes_in_flight h p
    remove_all_from_bytes_in_flight h1 ps

  unfoldable pub is_amplification_limited : Sender C → Bool
  is_amplification_limited h =
      if h.peer_address_validated then false else leb (3 * h.bytes_received) h.bytes_sent

-- The calls that a list of frames gives rise to.
unfoldable pub notify : (ℕ → Notice) → List HandledFrame → List Notice
notify call [] = []
notify call (f ∷ fs) = if f.has_handler then call f.frame ∷ notify call fs else notify call fs

-- Frames, then stream frames.
unfoldable pub notices_of : (ℕ → Notice) → Packet → List Notice
notices_of call p = notify call p.frames ++ notify call p.stream_frames

-- queueFramesForRetransmission; the packet is dropped by all who call it.
unfoldable pub queue_frames_for_retransmission :
    {C : Type 0} → Sender C → Packet → Result SenderError (Sender C)
queue_frames_for_retransmission h p =
    if is_empty_list p.frames && is_empty_list p.stream_frames
    then err panics
    else ok (record h { notices = h.notices ++ notices_of on_lost p })
