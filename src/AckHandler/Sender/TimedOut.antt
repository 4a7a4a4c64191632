-- ===== src/AckHandler/Sender/TimedOut.antt =====
-- Bytes in flight when the alarm goes off and when a probe packet is queued, where these do not panic.
use uquic.Shared.{
  ℕ, ◌-◌, ◌≤◌, ◌≡◌, refl, sym, ◌∙◌, subst, inl, inr, Bool, not, ◌&&◌, Option, none, some, [], ◌++◌,
  arith, ◌==◌, if◌then◌else◌, if_intro, Bool-cases, Option-cases, Ensures, Ensures-bind, ok,
}
use uquic.Wire.Frame.{EncryptionLevel, initial, handshake, zero_rtt, one_rtt}
use uquic.AckHandler.Sent.{
  Packet, SentHistory, skipped_packet_number, first_outstanding, is_empty_list,
  has_outstanding_packets, has_outstanding_path_probes,
}
use uquic.AckHandler.Sent.State.{IsTracked}
use uquic.AckHandler.Sent.First.{IsLowest, first_outstanding-IsLowest}
use uquic.AckHandler.Sent.Flight.{AllProbes, charge, charge-le, declare_lost-LosesOne}
use uquic.AckHandler.Sent.Added.{IsMore, skip-Ensures}
use uquic.AckHandler.Space.{PacketNumberSpace}
use uquic.AckHandler.Sender.{
  SendAlgorithm, Sender, lift, get_packet_number_space, queue_frames_for_retransmission, notices_of,
  on_lost,
}
use uquic.AckHandler.Sender.Alarm.{
  set_loss_detection_timer, get_loss_time_and_space, get_pto_time_and_space, is_there,
}
use uquic.AckHandler.Sender.Losses.{detect_lost_packets, detect_lost_path_probes}
use uquic.AckHandler.Sender.Control.{
  pop_number, skip_number, probe_unvalidated, probe_level, probe_space, count_pto, lose_timed,
  time_out, on_loss_detection_timeout, requeue, queue_probe_packet,
}
use uquic.AckHandler.Sender.Spaces.{
  IsBalanced, rest_of, get-rest_of, get-IsFine, put-AllFine, put-bytes, put-total, flight-le,
  remove_from_bytes_in_flight_lem,
}
use uquic.AckHandler.Sender.Flight.{detect_lost_packets-IsBalanced}
use uquic.AckHandler.Sender.Paid.{detect_lost_path_probes-Leaves}
use uquic.AckHandler.Sender.Kept.{
  Keeps, Ensures-lift, Ensures-need, Leaves-Keeps, put_more, pop_number-Keeps,
}

module _ {C : Type 0} where
  skip_number-Keeps :
      (algorithm : SendAlgorithm C) (h : Sender C) (drawn : ℕ)
      → IsBalanced 0 h
      → Keeps (skip_number h drawn)
  unfolding skip_number
  skip_number-Keeps algorithm h drawn balanced =
      Ensures-bind (λ (r : ℕ × Sender C). IsBalanced 0 r.1) (IsBalanced 0)
        (pop_number h one_rtt drawn) _ (pop_number-Keeps algorithm h one_rtt drawn balanced)
        (λ (pn, h1) balanced1.
          let space = h1.app_data_packets in
          let Kept : SentHistory → Type 0 = λ x. IsTracked x × IsMore 0 [] space.history x in
          Ensures-bind Kept (IsBalanced 0) (lift (skipped_packet_number space.history pn)) _
            (Ensures-lift Kept (skipped_packet_number space.history pn)
              (skip-Ensures space.history pn (get-IsFine h1 one_rtt space refl balanced1.0).0))
            (λ history kept.
              put_more algorithm h1 one_rtt space (record space { history = history }) balanced1
                refl kept))

  probe_level-Keeps :
      (algorithm : SendAlgorithm C) (h : Sender C) (level : EncryptionLevel) (drawn : ℕ)
      → IsBalanced 0 h
      → Keeps (probe_level h level drawn)
  probe_level-Keeps algorithm h initial drawn balanced = balanced
  probe_level-Keeps algorithm h handshake drawn balanced = balanced
  probe_level-Keeps algorithm h one_rtt drawn balanced =
      skip_number-Keeps algorithm (count_pto h 2) drawn balanced
  probe_level-Keeps algorithm h zero_rtt drawn balanced = tt

  probe_space-Keeps :
      (algorithm : SendAlgorithm C) (h : Sender C) (level : Option EncryptionLevel) (drawn : ℕ)
      → IsBalanced 0 h
      → Keeps (probe_space h level drawn)
  probe_space-Keeps algorithm h none drawn balanced = tt
  probe_space-Keeps algorithm h (some level) drawn balanced =
      Ensures-need (IsBalanced 0) (get_packet_number_space h level) _ (λ space is.
        if_intro Keeps
          (not (has_outstanding_packets space.history)
            && not (has_outstanding_path_probes space.history)
            && not h.peer_completed_address_validation)
          balanced (probe_level-Keeps algorithm h level drawn balanced))

  probe_unvalidated-Keeps : (h : Sender C) → IsBalanced 0 h → Keeps (probe_unvalidated h)
  probe_unvalidated-Keeps h balanced =
      if_intro Keeps (is_there h.initial_packets) balanced
        (if_intro Keeps (is_there h.handshake_packets) balanced tt)

  lose_timed-Keeps :
      (algorithm : SendAlgorithm C) (h : Sender C) (now : ℕ) (level : Option EncryptionLevel)
      → IsBalanced 0 h
      → Keeps (lose_timed algorithm h now level)
  lose_timed-Keeps algorithm h now none balanced = tt
  lose_timed-Keeps algorithm h now (some level) balanced =
      elim (Option-cases (get_packet_number_space h level)) [
        | inl gone ↦ unfold detect_lost_packets in rw gone tt
        | inr (space, is) ↦
            Leaves-Keeps _
              (detect_lost_packets-IsBalanced algorithm 0 h now level space balanced is)
      ]

  time_out-Keeps :
      (algorithm : SendAlgorithm C) (h : Sender C) (now drawn : ℕ)
      → IsBalanced 0 h
      → Keeps (time_out algorithm h now drawn)
  unfolding time_out
  time_out-Keeps algorithm h now drawn balanced =
      Ensures-bind (IsBalanced 0) (IsBalanced 0)
        (if h.handshake_confirmed then detect_lost_path_probes h now else ok h) _
        (if_intro Keeps h.handshake_confirmed
          (Leaves-Keeps _ (detect_lost_path_probes-Leaves h 0 now balanced)) balanced)
        (λ h1 balanced1.
          let (pto, pto_level) = get_pto_time_and_space h1 now in
          let probing = probe_space h1 pto_level drawn in
          let unvalidated = h1.bytes_in_flight == 0 && not h1.peer_completed_address_validation in
          if_intro Keeps (not ((get_loss_time_and_space h1).0 == 0))
            {x = lose_timed algorithm h1 now (get_loss_time_and_space h1).1}
            {y = if unvalidated then probe_unvalidated h1 else if pto == 0 then ok h1 else probing}
            (lose_timed-Keeps algorithm h1 now (get_loss_time_and_space h1).1 balanced1)
            (if_intro Keeps unvalidated {x = probe_unvalidated h1}
              {y = if pto == 0 then ok h1 else probing} (probe_unvalidated-Keeps h1 balanced1)
              (if_intro Keeps (pto == 0) {x = ok h1} {y = probing} balanced1
                (probe_space-Keeps algorithm h1 pto_level drawn balanced1))))

  pub on_loss_detection_timeout-Keeps :
      (algorithm : SendAlgorithm C) (h : Sender C) (now drawn : ℕ)
      → IsBalanced 0 h
      → Keeps (on_loss_detection_timeout algorithm h now drawn)
  unfolding on_loss_detection_timeout set_loss_detection_timer
  on_loss_detection_timeout-Keeps algorithm h now drawn balanced =
      Ensures-bind (IsBalanced 0) (IsBalanced 0) (time_out algorithm h now drawn) _
        (time_out-Keeps algorithm h now drawn balanced) (λ h1 balanced1. balanced1)

  requeue-Keeps :
      (h : Sender C) (level : EncryptionLevel) (space : PacketNumberSpace) (p : Option Packet)
      → IsBalanced 0 h
      → get_packet_number_space h level ≡ some space
      → IsLowest space.history.packets p
      → Ensures (λ (r : Bool × Sender C). IsBalanced 0 r.1) (requeue h level space p)
  unfolding IsLowest queue_frames_for_retransmission
  requeue-Keeps h level space none balanced is lowest = balanced
  requeue-Keeps h level space (some p) (fine, balance) is (found, lowest) =
      let (tracked, (sent, probes)) = get-IsFine h level space is fine in
      let (history, (lost, (tracked', (forgets, less)))) =
        declare_lost-LosesOne space.history p.packet_number p tracked found in
      let space' = record space { history = history } in
      let notices = h.notices ++ notices_of on_lost p in
      let h1 : Sender C = record h { notices = notices } in
      let owed : charge p ≤ h1.bytes_in_flight = omega (
        arith,
        charge-le space.history.packets p.packet_number p found,
        flight-le h level space is,
        balance,
      ) in
      let paid = remove_from_bytes_in_flight_lem h1 p owed in
      let bytes = h.bytes_in_flight - charge p in
      let h2 = rest_of h bytes h.congestion h.ecn_tracker notices in
      let is2 = get-rest_of h bytes h.congestion h.ecn_tracker notices level ∙ is in
      elim (Bool-cases (is_empty_list p.frames && is_empty_list p.stream_frames)) [
        | inl empty ↦ rw empty tt
        | inr some_frame ↦
            rw (some_frame, paid, lost)
              (
                put-AllFine h2 level space' fine
                    (tracked', (less.1.0 sent, subst AllProbes (sym less.1.1) probes)),
                omega (
                  arith,
                  put-bytes h2 level space',
                  put-total h2 level space space' is2,
                  less.0,
                  balance,
                  owed,
                ),
              )
      ]

  pub queue_probe_packet-Keeps :
      (h : Sender C) (level : EncryptionLevel)
      → IsBalanced 0 h
      → Ensures (λ (r : Bool × Sender C). IsBalanced 0 r.1) (queue_probe_packet h level)
  unfolding queue_probe_packet
  queue_probe_packet-Keeps h level balanced =
      Ensures-need (λ (r : Bool × Sender C). IsBalanced 0 r.1) (get_packet_number_space h level) _
        (λ space is.
          requeue-Keeps h level space (first_outstanding space.history) balanced is
            (first_outstanding-IsLowest space.history (get-IsFine h level space is balanced.0).0))
