-- ===== src/AckHandler/Sender/Losses.antt =====
-- detectLostPackets and detectLostPathProbes of sent_packet_handler.go. The product of the largest round-trip time
-- with 9.0/8 is exact in floating point below 2^49 nanoseconds, and is rounded down.
use uquic.Shared.{
  ℕ, ◌+◌, ◌-◌, ◌*◌, ◌/◌, max, Bool, true, false, not, ◌&&◌, ◌||◌, Option, none, some, List, [], ◌∷◌,
  ◌++◌, ltb, leb, ◌==◌, if◌then◌else◌, Result, ok, err, ◌>>=◌,
}
use uquic.Wire.Frame.{EncryptionLevel}
use uquic.AckHandler.Ecn.{EcnTracker, lost_packet}
use uquic.AckHandler.Rtt.{RttStats, timer_granularity}
use uquic.AckHandler.Sent.{
  HandledFrame, Packet, yielded, declare_lost, remove_path_probe, has_outstanding_path_probes,
}
use uquic.AckHandler.Space.{PacketNumberSpace}
use uquic.AckHandler.Sender.{
  SendAlgorithm, Sender, SenderError, panics, lift, need, is_one_rtt, get_packet_number_space,
  put_space, remove_from_bytes_in_flight, queue_frames_for_retransmission, Notice, on_lost,
}

-- packetThreshold
abbrev pub packet_threshold : ℕ
packet_threshold = 3

-- pathProbePacketLossTimeout
abbrev pub path_probe_packet_loss_timeout : ℕ
path_probe_packet_loss_timeout = 1000000000

unfoldable pub loss_delay_of : RttStats → ℕ
loss_delay_of r = max (9 * max r.latest_rtt r.smoothed_rtt / 8) timer_granularity

abbrev pub is_above : ℕ → Option ℕ → Bool
is_above pn none = true
is_above pn (some largest) = ltb largest pn

abbrev pub is_reordered : ℕ → Option ℕ → Bool
is_reordered pn none = false
is_reordered pn (some largest) = leb (pn + packet_threshold) largest

-- packetLost
unfoldable pub is_lost : (lost_send_time : ℕ) → Option ℕ → Packet → Bool
is_lost lost_send_time largest_acked p =
    leb p.send_time lost_send_time || is_reordered p.packet_number largest_acked

abbrev pub is_regular : Packet → Bool
is_regular p = not p.skipped_packet && not p.is_path_probe_packet

abbrev pub tell_ecn : EncryptionLevel → ℕ → Option EcnTracker → Option EcnTracker
tell_ecn level pn none = none
tell_ecn level pn (some e) = if is_one_rtt level then some (lost_packet e pn) else some e

module _ {C : Type 0} (algorithm : SendAlgorithm C) where
  -- What follows `DeclareLost` for a regular packet.
  unfoldable pub lose_regular :
      Sender C → EncryptionLevel → (prior_in_flight : ℕ) → Packet → Result SenderError (Sender C)
  lose_regular h level prior p = do
    h1 ← remove_from_bytes_in_flight h p
    h2 ← queue_frames_for_retransmission h1 p
    let congestion =
        if p.is_path_mtu_probe_packet
        then h2.congestion
        else algorithm.on_congestion_event h2.congestion p.packet_number p.length prior
    ok (record h2 {
      congestion = congestion;
      ecn_tracker = tell_ecn level p.packet_number h2.ecn_tracker;
    })

  unfoldable pub lose :
      Sender C
      → EncryptionLevel
      → (prior_in_flight : ℕ) → PacketNumberSpace
      → Packet
      → Result SenderError (Sender C)
  lose h level prior space p = do
    history ← lift (declare_lost space.history p.packet_number)
    let h1 = put_space h level (record space { history = history })
    if is_regular p then lose_regular h1 level prior p else ok h1

  -- The body of the loop; `delay` is lossDelay.
  unfoldable pub consider :
      Sender C
      → EncryptionLevel
      → (now delay prior_in_flight : ℕ) → PacketNumberSpace
      → Packet
      → Result SenderError (Sender C)
  consider h level now delay prior space p =
      if is_lost (now - delay) space.largest_acked p
      then lose h level prior space p
      else if space.loss_time == 0
      then ok (put_space h level (record space { loss_time = p.send_time + delay }))
      else ok h

  unfoldable pub consider_all :
      Sender C
      → EncryptionLevel
      → (now delay prior_in_flight : ℕ) → List Packet
      → Result SenderError (Sender C)
  consider_all h level now delay prior [] = ok h
  consider_all h level now delay prior (p ∷ ps) = do
    space ← need (get_packet_number_space h level)
    let rest =
        consider h level now delay prior space p >>= λ h1. consider_all h1 level now delay prior ps
    if is_above p.packet_number space.largest_acked then ok h else rest

  unfoldable pub detect_lost_packets :
      Sender C → (now : ℕ) → EncryptionLevel → Result SenderError (Sender C)
  detect_lost_packets h now level = do
    space ← need (get_packet_number_space h level)
    let h1 = put_space h level (record space { loss_time = 0 })
    consider_all h1 level now (loss_delay_of h.rtt_stats) h.bytes_in_flight
        (yielded space.history.packets)

-- `OnLost` without a test for a nil handler.
unfoldable pub notify_lost : List HandledFrame → Result SenderError (List Notice)
notify_lost [] = ok []
notify_lost (f ∷ fs) =
    let rest = notify_lost fs >>= λ ns. ok (on_lost f.frame ∷ ns) in
    if f.has_handler then rest else err panics

unfoldable pub lost_probes : (loss_time : ℕ) → List Packet → List Packet
lost_probes loss_time [] = []
lost_probes loss_time (p ∷ ps) =
    if leb p.send_time loss_time then p ∷ lost_probes loss_time ps else lost_probes loss_time ps

module _ {C : Type 0} where
  unfoldable pub lose_probes : Sender C → List Packet → Result SenderError (Sender C)
  lose_probes h [] = ok h
  lose_probes h (p ∷ ps) = do
    notices ← notify_lost p.frames
    let history = (remove_path_probe h.app_data_packets.history p.packet_number).1
    let h1 = record h {
      notices = h.notices ++ notices;
      app_data_packets = record h.app_data_packets { history = history };
    }
    lose_probes h1 ps

  unfoldable pub detect_lost_path_probes : Sender C → (now : ℕ) → Result SenderError (Sender C)
  detect_lost_path_probes h now =
      let history = h.app_data_packets.history in
      if has_outstanding_path_probes history
      then lose_probes h
          (lost_probes (now - path_probe_packet_loss_timeout) history.path_probe_packets)
      else ok h
