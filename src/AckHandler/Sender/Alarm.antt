-- ===== src/AckHandler/Sender/Alarm.antt =====
-- The loss detection timer of sent_packet_handler.go.
use uquic.Shared.{
  ℕ, ◌+◌, ◌*◌, ◌%◌, ◌^◌, Bool, true, false, not, ◌&&◌, ◌||◌, Option, none, some, ltb, leb, ◌==◌,
  if◌then◌else◌,
}
use uquic.Wire.Frame.{EncryptionLevel, initial, handshake, one_rtt}
use uquic.AckHandler.Rtt.{pto}
use uquic.AckHandler.Sent.{
  Packet, has_outstanding_packets, has_outstanding_path_probes, first_outstanding_path_probe,
}
use uquic.AckHandler.Space.{PacketNumberSpace}
use uquic.AckHandler.Sender.{
  Sender, is_amplification_limited, AlarmTimer, no_alarm, timer_type_ack, timer_type_pto,
  timer_type_path_probe,
}
use uquic.AckHandler.Sender.Losses.{path_probe_packet_loss_timeout}

-- maxPTODuration
abbrev pub max_pto_duration : ℕ
max_pto_duration = 60000000000

-- A time, 0 for none, and an encryption level, `none` for the zero value.
abbrev pub Timed : Type 0
Timed = ℕ × Option EncryptionLevel

abbrev pub loss_time_of : Option PacketNumberSpace → ℕ
loss_time_of none = 0
loss_time_of (some space) = space.loss_time

abbrev pub is_there : Option PacketNumberSpace → Bool
is_there none = false
is_there (some space) = true

-- A later candidate replaces the time where that is zero, or where it is itself set and earlier.
abbrev pub or_earlier : Timed → ℕ → EncryptionLevel → Timed
or_earlier (time, level) t l =
    if time == 0 || (not (t == 0) && ltb t time) then (t, some l) else (time, level)

abbrev pub has_outstanding : Option PacketNumberSpace → Bool
has_outstanding none = false
has_outstanding (some space) = has_outstanding_packets space.history

-- The condition under which a space has a PTO, and the time from which it counts.
abbrev pub pto_base : Option PacketNumberSpace → ℕ
pto_base none = 0
pto_base (some space) =
    if has_outstanding_packets space.history then space.last_ack_eliciting_packet_time else 0

-- The candidate of a space with a PTO; others leave the time as it is.
abbrev pub or_pto : Timed → (base scaled : ℕ) → EncryptionLevel → Timed
or_pto timed base scaled l = if base == 0 then timed else or_earlier timed (base + scaled) l

abbrev pub probe_loss_time : Option Packet → ℕ
probe_loss_time none = 0
probe_loss_time (some p) = p.send_time + path_probe_packet_loss_timeout

-- Whether a time is set and comes before that of the path probes, if there is one.
abbrev pub comes_first : ℕ → ℕ → Bool
comes_first time probes = not (time == 0) && (probes == 0 || ltb time probes)

module _ {C : Type 0} where
  unfoldable pub get_loss_time_and_space : Sender C → Timed
  get_loss_time_and_space h =
      let first : Timed =
        if is_there h.initial_packets
        then (loss_time_of h.initial_packets, some initial)
        else (0, none) in
      let second =
        if is_there h.handshake_packets
        then or_earlier first (loss_time_of h.handshake_packets) handshake
        else first in
      or_earlier second h.app_data_packets.loss_time one_rtt

  -- The shift is in 64 bits, with a sign.
  unfoldable pub get_scaled_pto : Sender C → Bool → ℕ
  get_scaled_pto h include_max_ack_delay =
      let scaled = pto h.rtt_stats include_max_ack_delay * 2 ^ h.pto_count % 2 ^ 64 in
      if scaled == 0 || (leb (2 ^ 63) scaled || ltb max_pto_duration scaled)
      then max_pto_duration
      else scaled

  unfoldable pub has_outstanding_crypto_packets : Sender C → Bool
  has_outstanding_crypto_packets h =
      has_outstanding h.initial_packets || has_outstanding h.handshake_packets

  unfoldable pub get_pto_time_and_space : Sender C → (now : ℕ) → Timed
  get_pto_time_and_space h now =
      let unacked : Timed = (
        now + get_scaled_pto h false,
        some (if is_there h.initial_packets then initial else handshake),
      ) in
      let first = or_pto (0, none) (pto_base h.initial_packets) (get_scaled_pto h false) initial in
      let second = or_pto first (pto_base h.handshake_packets) (get_scaled_pto h false) handshake in
      let third =
        if h.handshake_confirmed
        then or_pto second (pto_base (some h.app_data_packets)) (get_scaled_pto h true) one_rtt
        else second in
      if not h.handshake_confirmed && not (has_outstanding_crypto_packets h)
      then (if h.peer_completed_address_validation then (0, none) else unacked)
      else third

  -- pathProbeLossTime
  unfoldable pub path_probe_loss_time : Sender C → ℕ
  path_probe_loss_time h =
      let history = h.app_data_packets.history in
      if has_outstanding_path_probes history
      then probe_loss_time (first_outstanding_path_probe history)
      else 0

  unfoldable pub loss_detection_time : Sender C → (now : ℕ) → AlarmTimer
  loss_detection_time h now =
      let history = h.app_data_packets.history in
      let probes = path_probe_loss_time h in
      let loss = get_loss_time_and_space h in
      let pto = get_pto_time_and_space h now in
      if h.peer_completed_address_validation
        && (not (has_outstanding_crypto_packets h)
            && (not (has_outstanding_packets history) && not (has_outstanding_path_probes history)))
      then no_alarm
      else if is_amplification_limited h
      then no_alarm
      else if comes_first loss.0 probes
      then record { time = loss.0; timer_type = timer_type_ack; encryption_level = loss.1 }
      else if comes_first pto.0 probes
      then record { time = pto.0; timer_type = timer_type_pto; encryption_level = pto.1 }
      else if not (probes == 0)
      then record { time = probes; timer_type = timer_type_path_probe; encryption_level = pto.1 }
      else no_alarm

  unfoldable pub set_loss_detection_timer : Sender C → (now : ℕ) → Sender C
  set_loss_detection_timer h now = record h { alarm = loss_detection_time h now }
