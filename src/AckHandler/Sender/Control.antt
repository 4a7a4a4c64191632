-- ===== src/AckHandler/Sender/Control.antt =====
-- The operations of sentPacketHandler that drop spaces, time out and probe, and SendMode. What the packet number
-- generator draws at random is an argument.
use uquic.Shared.{
  ℕ, ◌+◌, ◌%◌, ◌^◌, Bool, true, false, not, ◌&&◌, ◌||◌, Option, none, some, List, [], ◌∷◌, ltb, leb,
  ◌==◌, if◌then◌else◌, Result, ok, err, ◌>>=◌, length,
}
use uquic.Wire.Frame.{EncryptionLevel, initial, handshake, zero_rtt, one_rtt}
use uquic.Protocol.PacketNumber.{packet_number_length_for_header}
use uquic.AckHandler.Tracker.{Ecn, unsupported, not_ect}
use uquic.AckHandler.Ecn.{mode}
use uquic.AckHandler.Sent.{
  Packet, yielded, remove, declare_lost, skipped_packet_number, first_outstanding,
  has_outstanding_packets, has_outstanding_path_probes,
}
use uquic.AckHandler.Space.{PacketNumberSpace, pop_packet_number, peek}
use uquic.AckHandler.Sender.{
  SendAlgorithm, Sender, SenderError, panics, bug_spaces_dropped, unexpected_level, lift, need,
  get_packet_number_space, put_space, remove_from_bytes_in_flight, remove_all_from_bytes_in_flight,
  queue_frames_for_retransmission, is_amplification_limited, SendMode, send_none, send_ack,
  send_pto_initial, send_pto_handshake, send_pto_app_data, send_pacing_limited, send_any,
}
use uquic.AckHandler.Sender.Losses.{detect_lost_packets, detect_lost_path_probes}
use uquic.AckHandler.Sender.Alarm.{
  is_there, get_loss_time_and_space, get_pto_time_and_space, set_loss_detection_timer,
}
use uquic.AckHandler.Sender.Calls.{is_client}

-- protocol.MaxOutstandingSentPackets and MaxTrackedSentPackets
abbrev pub max_outstanding_sent_packets : ℕ
max_outstanding_sent_packets = 20000

abbrev pub max_tracked_sent_packets : ℕ
max_tracked_sent_packets = 25000

abbrev pub packets_of : Option PacketNumberSpace → List Packet
packets_of none = []
packets_of (some space) = yielded space.history.packets

abbrev pub len_of : Option PacketNumberSpace → ℕ
len_of none = 0
len_of (some space) = length space.history.packets

abbrev pub is_zero_rtt_packet : Packet → Bool
is_zero_rtt_packet p = elim p.encryption_level [
  | none ↦ false
  | some level ↦ elim level [ zero_rtt ↦ true | _ ↦ false ]
]

module _ {C : Type 0} where
  -- The packets of 0-RTT, up to the first of another level that was not skipped.
  unfoldable pub drop_zero_rtt : Sender C → List Packet → Result SenderError (Sender C)
  drop_zero_rtt h [] = ok h
  drop_zero_rtt h (p ∷ ps) = do
    let rest = do
      h1 ← remove_from_bytes_in_flight h p
      removed ← lift (remove h1.app_data_packets.history p.packet_number)
      drop_zero_rtt
          (record h1 { app_data_packets = record h1.app_data_packets { history = removed.1 } }) ps
    if not (is_zero_rtt_packet p) && not p.skipped_packet then ok h else rest

  unfoldable pub drop_space : Sender C → EncryptionLevel → Result SenderError (Sender C)
  drop_space h initial = do
    h1 ← remove_all_from_bytes_in_flight h (packets_of h.initial_packets)
    ok (record h1 { initial_packets = none })
  drop_space h handshake = do
    h1 ← remove_all_from_bytes_in_flight h (packets_of h.handshake_packets)
    ok (record h1 { handshake_confirmed = true; handshake_packets = none })
  drop_space h zero_rtt = drop_zero_rtt h (yielded h.app_data_packets.history.packets)
  drop_space h one_rtt = err panics

  abbrev pub is_gone : Sender C → EncryptionLevel → Bool
  is_gone h level = not (is_there (get_packet_number_space h level))

  abbrev pub completes_on_drop : Sender C → EncryptionLevel → Bool
  completes_on_drop h level = is_client h && elim level [ handshake ↦ true | _ ↦ false ]

  -- DropPackets
  unfoldable pub drop_packets :
      Sender C → EncryptionLevel → (now : ℕ) → Result SenderError (Sender C)
  drop_packets h level now =
      let h1 = record h {
        peer_completed_address_validation =
            completes_on_drop h level || h.peer_completed_address_validation;
      } in
      let rest = drop_space h1 level >>= λ h2. ok (
        set_loss_detection_timer
          (record h2 { pto_count = 0; num_probes_to_send = 0; pto_mode = send_none }) now) in
      if is_gone h level then ok h1 else rest

  unfoldable pub ecn_mode :
      Sender C → (is_short_header_packet : Bool) → Result SenderError (Ecn × Sender C)
  ecn_mode h short = elim h.ecn_tracker [
    | none ↦ ok (unsupported, h)
    | some e ↦
        let (ecn, e') = mode e in
        if short then ok (ecn, record h { ecn_tracker = some e' }) else ok (not_ect, h)
  ]

  unfoldable pub peek_packet_number : Sender C → EncryptionLevel → Result SenderError (ℕ × ℕ)
  peek_packet_number h level = do
    space ← need (get_packet_number_space h level)
    let pn = peek space.pns
    ok (pn, packet_number_length_for_header pn space.largest_acked)

  -- PopPacketNumber
  unfoldable pub pop_number :
      Sender C → EncryptionLevel → (drawn : ℕ) → Result SenderError (ℕ × Sender C)
  pop_number h level drawn = do
    space ← need (get_packet_number_space h level)
    (pn, space1) ← lift (pop_packet_number space drawn)
    ok (pn, put_space h level space1)

  -- A packet number is skipped to elicit an immediate ACK.
  unfoldable pub skip_number : Sender C → (drawn : ℕ) → Result SenderError (Sender C)
  skip_number h drawn = do
    (pn, h1) ← pop_number h one_rtt drawn
    history ← lift (skipped_packet_number h1.app_data_packets.history pn)
    ok (record h1 {
      app_data_packets = record h1.app_data_packets { history = history };
      pto_mode = send_pto_app_data;
    })

  abbrev pub count_pto : Sender C → (probes : ℕ) → Sender C
  count_pto h probes = record h {
    pto_count = (h.pto_count + 1) % 2 ^ 32;
    num_probes_to_send = h.num_probes_to_send + probes;
  }

  -- The client's PTO with nothing in flight.
  abbrev pub probe_unvalidated : Sender C → Result SenderError (Sender C)
  probe_unvalidated h =
      if is_there h.initial_packets
      then ok (record (count_pto h 1) { pto_mode = send_pto_initial })
      else if is_there h.handshake_packets
      then ok (record (count_pto h 1) { pto_mode = send_pto_handshake })
      else err bug_spaces_dropped

  abbrev pub probe_level : Sender C → EncryptionLevel → (drawn : ℕ) → Result SenderError (Sender C)
  probe_level h initial drawn = ok (record (count_pto h 2) { pto_mode = send_pto_initial })
  probe_level h handshake drawn = ok (record (count_pto h 2) { pto_mode = send_pto_handshake })
  probe_level h one_rtt drawn = skip_number (count_pto h 2) drawn
  probe_level h zero_rtt drawn = err unexpected_level

  abbrev pub probe_space :
      Sender C → Option EncryptionLevel → (drawn : ℕ) → Result SenderError (Sender C)
  probe_space h none drawn = err panics
  probe_space h (some level) drawn = do
    space ← need (get_packet_number_space h level)
    let nothing =
        not (has_outstanding_packets space.history)
        && not (has_outstanding_path_probes space.history)
    if nothing && not h.peer_completed_address_validation then ok h else probe_level h level drawn

module _ {C : Type 0} (algorithm : SendAlgorithm C) where
  abbrev pub lose_timed :
      Sender C → (now : ℕ) → Option EncryptionLevel → Result SenderError (Sender C)
  lose_timed h now none = err panics
  lose_timed h now (some level) = detect_lost_packets algorithm h now level

  -- OnLossDetectionTimeout, before the deferred call that sets the timer.
  unfoldable pub time_out : Sender C → (now drawn : ℕ) → Result SenderError (Sender C)
  time_out h now drawn = do
    h1 ← (if h.handshake_confirmed then detect_lost_path_probes h now else ok h)
    let (time, level) = get_loss_time_and_space h1
    let (pto, pto_level) = get_pto_time_and_space h1 now
    if not (time == 0)
        then lose_timed h1 now level
        else if h1.bytes_in_flight == 0 && not h1.peer_completed_address_validation
        then probe_unvalidated h1
        else if pto == 0
        then ok h1
        else probe_space h1 pto_level drawn

  unfoldable pub on_loss_detection_timeout :
      Sender C → (now drawn : ℕ) → Result SenderError (Sender C)
  on_loss_detection_timeout h now drawn = do
    h1 ← time_out h now drawn
    ok (set_loss_detection_timer h1 now)

  unfoldable pub send_mode : Sender C → (now : ℕ) → SendMode
  send_mode h now =
      let tracked =
        len_of (some h.app_data_packets) + len_of h.initial_packets + len_of h.handshake_packets in
      if is_amplification_limited h
      then send_none
      else if leb max_tracked_sent_packets tracked
      then send_none
      else if ltb 0 h.num_probes_to_send
      then h.pto_mode
      else if not (algorithm.can_send h.congestion h.bytes_in_flight)
      then send_ack
      else if leb max_outstanding_sent_packets tracked
      then send_ack
      else if not (algorithm.has_pacing_budget h.congestion now)
      then send_pacing_limited
      else send_any

  unfoldable pub time_until_send : Sender C → ℕ
  time_until_send h = algorithm.time_until_send h.congestion h.bytes_in_flight

  unfoldable pub set_max_datagram_size : Sender C → ℕ → Sender C
  set_max_datagram_size h s = record h {
    congestion = algorithm.set_max_datagram_size h.congestion s;
  }

module _ {C : Type 0} where
  abbrev pub requeue :
      Sender C
      → EncryptionLevel
      → PacketNumberSpace
      → Option Packet
      → Result SenderError (Bool × Sender C)
  requeue h level space none = ok (false, h)
  requeue h level space (some p) = do
    h1 ← queue_frames_for_retransmission h p
    h2 ← remove_from_bytes_in_flight h1 p
    history ← lift (declare_lost space.history p.packet_number)
    ok (true, put_space h2 level (record space { history = history }))

  -- QueueProbePacket
  unfoldable pub queue_probe_packet :
      Sender C → EncryptionLevel → Result SenderError (Bool × Sender C)
  queue_probe_packet h level = do
    space ← need (get_packet_number_space h level)
    requeue h level space (first_outstanding space.history)
