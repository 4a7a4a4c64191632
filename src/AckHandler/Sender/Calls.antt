-- ===== src/AckHandler/Sender/Calls.antt =====
-- The operations of sentPacketHandler. `mean_deviation_of` and `smoothed_of` are the weighted means of RTTStats,
-- and what the packet number generator draws at random is an argument.
use uquic.Shared.{
  ℕ, ◌+◌, ◌-◌, min, max, Bool, true, false, not, ◌&&◌, ◌||◌, Option, none, some, List, [], ◌∷◌, map,
  ◌==◌, if◌then◌else◌, Result, ok, ◌>>=◌, ◌>>◌, guard,
}
use uquic.Wire.AckFrame.{AckFrame}
use uquic.Wire.AckFrame.Query.{largest_acked}
use uquic.Wire.Frame.{EncryptionLevel, handshake, one_rtt}
use uquic.Protocol.StreamId.{server, client}
use uquic.AckHandler.Tracker.{Ecn}
use uquic.AckHandler.Ecn.{EcnTracker, sent_packet, handle_newly_acked}
use uquic.AckHandler.Rtt.{update_rtt}
use uquic.AckHandler.Sent.{
  is_empty_list, HandledFrame, Packet, packet_at, sent_non_ack_eliciting_packet,
  sent_ack_eliciting_packet, sent_path_probe_packet,
}
use uquic.AckHandler.Space.{PacketNumberSpace}
use uquic.AckHandler.Sender.{
  SendAlgorithm, Sender, SenderError, ack_for_unsent_packet, lift, need, is_one_rtt,
  get_packet_number_space, put_space, remove_from_bytes_in_flight, is_amplification_limited,
}
use uquic.AckHandler.Sender.Acks.{detect_and_remove_acked_packets}
use uquic.AckHandler.Sender.Losses.{is_above, detect_lost_packets, detect_lost_path_probes}
use uquic.AckHandler.Sender.Alarm.{set_loss_detection_timer}

-- What a packet is sent with.
pub record SentInfo : Type 0 where
  pub time : ℕ
  pub packet_number : ℕ
  pub largest_acked : Option ℕ
  pub stream_frames : List HandledFrame
  pub frames : List HandledFrame
  pub ecn : Ecn
  pub size : ℕ
  pub is_path_mtu_probe_packet : Bool
  pub is_path_probe_packet : Bool

abbrev pub is_ack_eliciting : SentInfo → Bool
is_ack_eliciting i = not (is_empty_list i.stream_frames) || not (is_empty_list i.frames)

abbrev pub packet_of : SentInfo → EncryptionLevel → Packet
packet_of i level = record (packet_at i.packet_number) {
  send_time = i.time;
  encryption_level = some level;
  length = i.size;
  largest_acked = i.largest_acked;
  stream_frames = i.stream_frames;
  frames = i.frames;
  is_path_mtu_probe_packet = i.is_path_mtu_probe_packet;
  included_in_bytes_in_flight = true;
}

abbrev pub probe_of : SentInfo → EncryptionLevel → Packet
probe_of i level = record (packet_at i.packet_number) {
  send_time = i.time;
  encryption_level = some level;
  length = i.size;
  frames = i.frames;
  is_path_probe_packet = true;
}

abbrev pub tell_sent :
    EncryptionLevel → ℕ → Ecn → Option EcnTracker → Result SenderError (Option EcnTracker)
tell_sent level pn ecn none = ok none
tell_sent level pn ecn (some e) =
    if is_one_rtt level then lift (sent_packet e pn ecn) >>= (λ e'. ok (some e')) else ok (some e)

-- The ECN tracker, and whether there was congestion.
abbrev pub tell_acked : Bool → List ℕ → AckFrame → Option EcnTracker → Bool × Option EcnTracker
tell_acked new pns ack none = (false, none)
tell_acked new pns ack (some e) =
    let (congested, e') = handle_newly_acked e pns ack.ect0 ack.ect1 ack.ecnce in
    if new then (congested, some e') else (false, some e)

abbrev pub last_of : Packet → List Packet → Packet
last_of p [] = p
last_of p (q ∷ qs) = last_of q qs

abbrev pub later_of : Option ℕ → ℕ → Option ℕ
later_of none pn = some pn
later_of (some old) pn = some (max old pn)

abbrev pub is_acked_one_rtt : Packet → Bool
is_acked_one_rtt p = elim p.encryption_level [ none ↦ false | some level ↦ is_one_rtt level ]

abbrev pub any_one_rtt : List Packet → Bool
any_one_rtt [] = false
any_one_rtt (p ∷ ps) = is_acked_one_rtt p || any_one_rtt ps

module _ {C : Type 0} where
  unfoldable pub received_bytes : Sender C → (n now : ℕ) → Sender C
  received_bytes h n now =
      let h1 = record h { bytes_received = h.bytes_received + n } in
      if is_amplification_limited h && not (is_amplification_limited h1)
      then set_loss_detection_timer h1 now
      else h1

  abbrev is_server_handshake : Sender C → EncryptionLevel → Bool
  is_server_handshake h level = elim h.perspective [
    | client ↦ false
    | server ↦ elim level [ handshake ↦ true | _ ↦ false ]
  ]

  unfoldable pub received_packet_at : Sender C → EncryptionLevel → (now : ℕ) → Sender C
  received_packet_at h level now =
      if is_server_handshake h level && not h.peer_address_validated
      then set_loss_detection_timer (record h { peer_address_validated = true }) now
      else h

  abbrev pub is_client : Sender C → Bool
  is_client h = elim h.perspective [ client ↦ true | server ↦ false ]

module _ {C : Type 0} (algorithm : SendAlgorithm C) where
  -- From the test for a path probe on; `h` has the bytes sent, and `space` the largest sent packet.
  unfoldable pub track_sent :
      Sender C → EncryptionLevel → PacketNumberSpace → SentInfo → Result SenderError (Sender C)
  track_sent h level space i = do
    let eliciting = is_ack_eliciting i
    let space1 =
        if eliciting then record space { last_ack_eliciting_packet_time = i.time } else space
    let in_flight = if eliciting then h.bytes_in_flight + i.size else h.bytes_in_flight
    let h1 = record h {
      bytes_in_flight = in_flight;
      num_probes_to_send = if eliciting then h.num_probes_to_send - 1 else h.num_probes_to_send;
      congestion =
          algorithm.on_packet_sent h.congestion i.time in_flight i.packet_number i.size eliciting;
    }
    tracker ← tell_sent level i.packet_number i.ecn h1.ecn_tracker
    let h2 = record h1 { ecn_tracker = tracker }
    if eliciting
        then lift (sent_ack_eliciting_packet space1.history (packet_of i level)) >>= (λ history.
          ok (
            set_loss_detection_timer (put_space h2 level (record space1 { history = history }))
              i.time))
        else lift (sent_non_ack_eliciting_packet space1.history i.packet_number) >>= (λ history.
          let h3 = put_space h2 level (record space1 { history = history }) in
          ok (
            if h3.peer_completed_address_validation
            then h3
            else set_loss_detection_timer h3 i.time))

  unfoldable pub track_probe :
      Sender C → EncryptionLevel → PacketNumberSpace → SentInfo → Result SenderError (Sender C)
  track_probe h level space i = do
    history ← lift (sent_path_probe_packet space.history (probe_of i level))
    ok (set_loss_detection_timer (put_space h level (record space { history = history })) i.time)

  -- SentPacket
  unfoldable pub send_packet : Sender C → EncryptionLevel → SentInfo → Result SenderError (Sender C)
  send_packet h level i = do
    let h1 = record h { bytes_sent = h.bytes_sent + i.size }
    space ← need (get_packet_number_space h1 level)
    let space1 = record space { largest_sent = some i.packet_number }
    if i.is_path_probe_packet then track_probe h1 level space1 i else track_sent h1 level space1 i

  -- The loop over the newly acknowledged packets.
  unfoldable pub settle :
      Sender C → (prior_in_flight now : ℕ) → List Packet → Result SenderError (Sender C)
  settle h prior now [] = ok h
  settle h prior now (p ∷ ps) = do
    let h1 = record h {
      congestion =
          if p.included_in_bytes_in_flight && not p.declared_lost
          then algorithm.on_packet_acked h.congestion p.packet_number p.length prior now
          else h.congestion;
    }
    h2 ← remove_from_bytes_in_flight h1 p
    settle h2 prior now ps

  -- The update of the round-trip time; `last` is the highest of the acknowledged packets.
  unfoldable pub sample_rtt :
      (mean_deviation_of smoothed_of : ℕ → ℕ → ℕ)
      → Sender C
      → AckFrame
      → EncryptionLevel
      → (now largest : ℕ) → Packet
      → Sender C
  sample_rtt mean_deviation_of smoothed_of h ack level now largest last =
      let delay = if is_one_rtt level then min ack.delay_time h.rtt_stats.max_ack_delay else 0 in
      let rtt = update_rtt mean_deviation_of smoothed_of h.rtt_stats (now - last.send_time) delay in
      if last.packet_number == largest && not last.is_path_probe_packet
      then record h {
        rtt_stats = rtt;
        congestion = algorithm.maybe_exit_slow_start h.congestion rtt;
      }
      else h

  unfoldable pub inform_ecn :
      Sender C
      → AckFrame
      → EncryptionLevel
      → PacketNumberSpace
      → (largest prior_in_flight : ℕ) → List Packet
      → Sender C
  inform_ecn h ack level space largest prior acked =
      let new = is_one_rtt level && is_above largest space.largest_acked in
      let (congested, tracker) =
        tell_acked new (map (λ p. p.packet_number) acked) ack h.ecn_tracker in
      record h {
        ecn_tracker = tracker;
        congestion =
            if congested
            then algorithm.on_congestion_event h.congestion largest 0 prior
            else h.congestion;
      }

  -- What follows the detection of the acknowledged packets, `p ∷ ps`.
  unfoldable pub process_acked :
      (mean_deviation_of smoothed_of : ℕ → ℕ → ℕ)
      → Sender C
      → AckFrame
      → EncryptionLevel
      → (now largest prior_in_flight : ℕ) → Packet
      → List Packet
      → Result SenderError (Bool × Sender C)
  process_acked mean_deviation_of smoothed_of h ack level now largest prior p ps = do
    let h1 = sample_rtt mean_deviation_of smoothed_of h ack level now largest (last_of p ps)
    space ← need (get_packet_number_space h1 level)
    let h2 = inform_ecn h1 ack level space largest prior (p ∷ ps)
    let h3 =
        put_space h2 level (record space { largest_acked = later_of space.largest_acked largest })
    h4 ← detect_lost_packets algorithm h3 now level
    h5 ← (if is_one_rtt level then detect_lost_path_probes h4 now else ok h4)
    h6 ← settle h5 prior now (p ∷ ps)
    let h7 = record h6 {
      pto_count = if h6.peer_completed_address_validation then 0 else h6.pto_count;
      num_probes_to_send = 0;
    }
    ok (any_one_rtt (p ∷ ps), set_loss_detection_timer h7 now)

  abbrev pub completes_validation : Sender C → EncryptionLevel → Bool
  completes_validation h level =
      is_client h
      && (not h.peer_completed_address_validation
          && elim level [ handshake ↦ true | one_rtt ↦ true | _ ↦ false ])

  abbrev pub after_acked :
      (mean_deviation_of smoothed_of : ℕ → ℕ → ℕ)
      → AckFrame
      → EncryptionLevel
      → (now largest prior_in_flight : ℕ) → List Packet
      → Sender C
      → Result SenderError (Bool × Sender C)
  after_acked mean_deviation_of smoothed_of ack level now largest prior [] h = ok (false, h)
  after_acked mean_deviation_of smoothed_of ack level now largest prior (p ∷ ps) h =
      process_acked mean_deviation_of smoothed_of h ack level now largest prior p ps

  -- ReceivedAck answers whether a 1-RTT packet was acknowledged.
  unfoldable pub receive_ack :
      (mean_deviation_of smoothed_of : ℕ → ℕ → ℕ)
      → Sender C
      → AckFrame
      → EncryptionLevel
      → (now : ℕ) → Result SenderError (Bool × Sender C)
  receive_ack mean_deviation_of smoothed_of h ack level now = do
    space ← need (get_packet_number_space h level)
    largest ← lift (largest_acked ack)
    guard (not (is_above largest space.largest_sent)) ack_for_unsent_packet
    let h1 =
        if completes_validation h level
        then set_loss_detection_timer (record h { peer_completed_address_validation = true }) now
        else h
    (acked, h2) ← detect_and_remove_acked_packets h1 ack level
    after_acked mean_deviation_of smoothed_of ack level now largest h.bytes_in_flight acked h2
