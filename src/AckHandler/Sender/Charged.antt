-- ===== src/AckHandler/Sender/Charged.antt =====
-- Bytes in flight when a packet is sent.
use uquic.Shared.{
  ℕ, ◌+◌, ◌-◌, ◌≡◌, refl, sym, ◌∙◌, subst, inl, inr, true, false, Option, some, List, [], ◌∷◌, ◌++◌,
  arith, if◌then◌else◌, if_intro, Bool-cases, Result, ok,
}
use uquic.Wire.Frame.{EncryptionLevel, initial, handshake, zero_rtt, one_rtt}
use uquic.AckHandler.Ecn.{EcnTracker}
use uquic.AckHandler.Sent.{Packet, follows}
use uquic.AckHandler.Sent.State.{IsTracked}
use uquic.AckHandler.Sent.Flight.{IsSent, AllProbes, AllHandled}
use uquic.AckHandler.Space.{PacketNumberSpace}
use uquic.AckHandler.Sender.{SendAlgorithm, Sender, SenderError, get_packet_number_space, put_space}
use uquic.AckHandler.Sender.Alarm.{set_loss_detection_timer}
use uquic.AckHandler.Sender.Calls.{
  SentInfo, is_ack_eliciting, packet_of, probe_of, tell_sent, track_sent, track_probe, send_packet,
}
use uquic.AckHandler.Sender.Spaces.{
  AllFine, total, IsBalanced, put-bytes, put-total, get-IsFine, put-AllFine,
}
use uquic.AckHandler.Sent.Added.{IsMore, eliciting-Adds, non_eliciting-Adds, probe-Adds}

AllProbes-append : (ps qs : List Packet) → AllProbes ps → AllProbes qs → AllProbes (ps ++ qs)
AllProbes-append [] qs fine more = more
AllProbes-append (p ∷ ps) qs (here, fine) more = (here, AllProbes-append ps qs fine more)

-- A packet that elicits an ACK has frames.
packet_of-IsSent :
    (i : SentInfo) (level : EncryptionLevel)
    → is_ack_eliciting i ≡ true
    → IsSent (packet_of i level)
packet_of-IsSent i level eliciting = inl (refl, ground arith)

module _ {C : Type 0} (algorithm : SendAlgorithm C) where
  -- The same spaces.
  abbrev pub counted : Sender C → (sent bytes probes : ℕ) → C → Option EcnTracker → Sender C
  counted h sent bytes probes c t = record h {
    bytes_sent = sent;
    bytes_in_flight = bytes;
    num_probes_to_send = probes;
    congestion = c;
    ecn_tracker = t;
  }

  pub get-counted :
      (h : Sender C) (sent bytes probes : ℕ) (c : C) (t : Option EcnTracker)
      (level : EncryptionLevel)
      → get_packet_number_space (counted h sent bytes probes c t) level
        ≡ get_packet_number_space h level
  get-counted h sent bytes probes c t initial = refl
  get-counted h sent bytes probes c t handshake = refl
  get-counted h sent bytes probes c t zero_rtt = refl
  get-counted h sent bytes probes c t one_rtt = refl

  -- A space whose history has more, put back.
  pub put-more :
      (h : Sender C) (level : EncryptionLevel) (space space' : PacketNumberSpace) (bytes : ℕ)
      (probes : List Packet)
      → AllFine h
      → h.bytes_in_flight ≡ total h + bytes
      → get_packet_number_space h level ≡ some space
      → IsTracked space'.history
      → IsMore bytes probes space.history space'.history
      → AllProbes probes
      → IsBalanced 0 (put_space h level space')
  put-more h level space space' bytes probes fine balance is tracked (more, (sent, all_probes))
        new =
      let (old_tracked, (old_sent, old_probes)) = get-IsFine h level space is fine in
      (
        put-AllFine h level space' fine (
          tracked,
          (
            sent old_sent,
            subst AllProbes (sym all_probes)
                (AllProbes-append space.history.path_probe_packets probes old_probes new),
          ),
        ),
        omega (arith, put-bytes h level space', put-total h level space space' is, more, balance),
      )

  abbrev pub StaysEven : Result SenderError (Sender C) → Type 0
  StaysEven r = (h' : Sender C) × ((r ≡ ok h') × IsBalanced 0 h')

  pub track_probe-StaysEven :
      (h : Sender C) (level : EncryptionLevel) (space : PacketNumberSpace) (i : SentInfo)
      → IsBalanced 0 h
      → get_packet_number_space h level ≡ some space
      → follows space.history.highest_packet_number i.packet_number ≡ true
      → AllHandled i.frames
      → StaysEven
          (track_probe algorithm h level (record space { largest_sent = some i.packet_number }) i)
  unfolding track_probe set_loss_detection_timer
  track_probe-StaysEven h level space i (fine, balance) is next handled =
      let (history, (added, (tracked, more))) =
        probe-Adds space.history (probe_of i level) (get-IsFine h level space is fine).0 next in
      let space' = record space { largest_sent = some i.packet_number; history = history } in
      (
        set_loss_detection_timer (put_space h level space') i.time,
        (
          rw added refl,
          put-more h level space space' 0 (probe_of i level ∷ []) fine balance is tracked more
              ((refl, handled), tt),
        ),
      )

  pub track_sent-StaysEven :
      (h : Sender C) (level : EncryptionLevel) (space : PacketNumberSpace) (i : SentInfo)
      (t : Option EcnTracker)
      → IsBalanced 0 h
      → get_packet_number_space h level ≡ some space
      → follows space.history.highest_packet_number i.packet_number ≡ true
      → tell_sent level i.packet_number i.ecn h.ecn_tracker ≡ ok t
      → StaysEven
          (track_sent algorithm h level (record space { largest_sent = some i.packet_number }) i)
  unfolding track_sent set_loss_detection_timer
  track_sent-StaysEven h level space i t (fine, balance) is next told =
      let tracked0 = (get-IsFine h level space is fine).0 in
      elim (Bool-cases (is_ack_eliciting i)) [
        | inl eliciting ↦
            let (history, (added, (tracked, more))) =
              eliciting-Adds space.history (packet_of i level) tracked0 next
                (packet_of-IsSent i level eliciting) in
            let space' = record space {
              largest_sent = some i.packet_number;
              last_ack_eliciting_packet_time = i.time;
              history = history;
            } in
            let c =
              algorithm.on_packet_sent h.congestion i.time (h.bytes_in_flight + i.size)
                i.packet_number i.size true in
            let h1 =
              counted h h.bytes_sent (h.bytes_in_flight + i.size) (h.num_probes_to_send - 1) c t in
            let is1 =
              get-counted h h.bytes_sent (h.bytes_in_flight + i.size) (h.num_probes_to_send - 1) c t
                level
              ∙ is in
            (
              set_loss_detection_timer (put_space h1 level space') i.time,
              (
                rw (eliciting, told, added) refl,
                put-more h1 level space space' i.size [] fine (omega (arith, balance)) is1 tracked
                    more tt,
              ),
            )
        | inr not_eliciting ↦
            let (history, (added, (tracked, more))) =
              non_eliciting-Adds space.history i.packet_number tracked0 next in
            let space' = record space { largest_sent = some i.packet_number; history = history } in
            let c =
              algorithm.on_packet_sent h.congestion i.time h.bytes_in_flight i.packet_number i.size
                false in
            let h1 = counted h h.bytes_sent h.bytes_in_flight h.num_probes_to_send c t in
            let is1 =
              get-counted h h.bytes_sent h.bytes_in_flight h.num_probes_to_send c t level ∙ is in
            let h2 = put_space h1 level space' in
            let even : IsBalanced 0 h2 =
              put-more h1 level space space' 0 [] fine balance is1 tracked more tt in
            (
              if h2.peer_completed_address_validation
                  then h2
                  else set_loss_detection_timer h2 i.time,
              (
                rw (not_eliciting, told, added) refl,
                if_intro (IsBalanced 0) h2.peer_completed_address_validation even even,
              ),
            )
      ]

  -- Sending a packet with the number that follows, for a space that is there, from a sender whose histories are
  -- tracked and hold packets as they are sent, and whose bytes in flight are the sum of the packets in them
  -- that count, does not panic and gives such a sender again, if the ECN tracker takes the packet and all frames
  -- have handlers.
  pub send_packet-IsBalanced :
      (h : Sender C) (level : EncryptionLevel) (space : PacketNumberSpace) (i : SentInfo)
      (t : Option EcnTracker)
      → IsBalanced 0 h
      → get_packet_number_space h level ≡ some space
      → follows space.history.highest_packet_number i.packet_number ≡ true
      → tell_sent level i.packet_number i.ecn h.ecn_tracker ≡ ok t
      → AllHandled i.frames
      → (h' : Sender C) × ((send_packet algorithm h level i ≡ ok h') × IsBalanced 0 h')
  unfolding send_packet
  send_packet-IsBalanced h level space i t balanced is next told handled =
      let h1 =
        counted h (h.bytes_sent + i.size) h.bytes_in_flight h.num_probes_to_send h.congestion
          h.ecn_tracker in
      let is1 =
        get-counted h (h.bytes_sent + i.size) h.bytes_in_flight h.num_probes_to_send h.congestion
          h.ecn_tracker level
        ∙ is in
      rw is1 (
        if_intro StaysEven i.is_path_probe_packet
          (track_probe-StaysEven h1 level space i balanced is1 next handled)
          (track_sent-StaysEven h1 level space i t balanced is1 next told))
