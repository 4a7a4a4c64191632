-- ===== src/AckHandler/Sender/Timer.antt =====
-- When the alarm is set, and when a packet may be sent.
use uquic.Shared.{
  ℕ, ◌+◌, ◌*◌, ◌<◌, ◌≡◌, ◌≢◌, ◌↔◌, ◌⊎◌, inl, inr, true, false, not, ◌&&◌, ◌||◌, some, arith, ltb,
  ◌==◌, Bool-cases,
}
use uquic.Wire.Frame.{EncryptionLevel, one_rtt}
use uquic.AckHandler.Sent.{has_outstanding_packets}
use uquic.AckHandler.Sender.{SendAlgorithm, Sender, send_any, is_amplification_limited}
use uquic.AckHandler.Sender.Alarm.{
  Timed, or_earlier, or_pto, comes_first, path_probe_loss_time, get_loss_time_and_space,
  get_pto_time_and_space, loss_detection_time, set_loss_detection_timer,
}
use uquic.AckHandler.Sender.Control.{send_mode, len_of}

or_earlier-set :
    (timed : Timed) (t : ℕ) (l : EncryptionLevel)
    → (t == 0) ≡ false
    → ((or_earlier timed t l).0 == 0) ≡ false
or_earlier-set (time, level) t l set =
    elim (Bool-cases (time == 0 || (not (t == 0) && ltb t time))) [
      | inl replaced ↦ rw replaced set
      | inr kept ↦ rw kept (ground arith)
    ]

or_pto-set :
    (timed : Timed) (base scaled : ℕ) (l : EncryptionLevel)
    → (base == 0) ≡ false
    → ((or_pto timed base scaled l).0 == 0) ≡ false
or_pto-set timed base scaled l set =
    let later : (base + scaled == 0) ≡ false = ground arith in
    rw set (or_earlier-set timed (base + scaled) l later)

comes_first-set : (time probes : ℕ) → comes_first time probes ≡ true → (time == 0) ≡ false
comes_first-set time probes first = ground arith

module _ {C : Type 0} where
  get_pto-set :
      (h : Sender C) (now : ℕ)
      → h.handshake_confirmed ≡ true
      → has_outstanding_packets h.app_data_packets.history ≡ true
      → (h.app_data_packets.last_ack_eliciting_packet_time == 0) ≡ false
      → ((get_pto_time_and_space h now).0 == 0) ≡ false
  unfolding get_pto_time_and_space
  get_pto-set h now confirmed sent timed = simp (confirmed, sent) (or_pto-set _ _ _ one_rtt timed)

  -- With the handshake confirmed, a packet of application data outstanding, the time of the last such packet set
  -- and no amplification limit, the alarm is set.
  pub set_loss_detection_timer-set :
      (h : Sender C) (now : ℕ)
      → h.handshake_confirmed ≡ true
      → has_outstanding_packets h.app_data_packets.history ≡ true
      → h.app_data_packets.last_ack_eliciting_packet_time ≢ 0
      → is_amplification_limited h ≡ false
      → (set_loss_detection_timer h now).alarm.time ≢ 0
  unfolding set_loss_detection_timer loss_detection_time
  set_loss_detection_timer-set h now confirmed sent timed free =
      let set : (h.app_data_packets.last_ack_eliciting_packet_time == 0) ≡ false = ground arith in
      let pto_set = get_pto-set h now confirmed sent set in
      let loss = comes_first-set (get_loss_time_and_space h).0 (path_probe_loss_time h) in
      simp (sent, free) (λ unset. ground arith)

  -- A packet may be sent with any content exactly if the peer's address is validated or less than three
  -- times the bytes received were sent, fewer packets than the limit are tracked, no probe packet is due,
  -- and congestion control and pacing allow it.
  send_mode_iff :
      (algorithm : SendAlgorithm C) (h : Sender C) (now : ℕ)
      → h.pto_mode ≢ send_any
      → (send_mode algorithm h now ≡ send_any)
        ↔ ((h.peer_address_validated ≡ true) ⊎ (h.bytes_sent < 3 * h.bytes_received))
          × (len_of (some h.app_data_packets)
                + len_of h.initial_packets
                + len_of h.handshake_packets
              < 20000)
          × (h.num_probes_to_send ≡ 0)
          × (algorithm.can_send h.congestion h.bytes_in_flight ≡ true)
          × (algorithm.has_pacing_budget h.congestion now ≡ true)
  unfolding send_mode is_amplification_limited
  send_mode_iff algorithm h now other = (λ e. ground arith, λ e. ground arith)
