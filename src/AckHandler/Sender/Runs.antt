-- ===== src/AckHandler/Sender/Runs.antt =====
-- Runs of the sending side.
use uquic.Shared.{
  ℕ, ◌+◌, ◌-◌, ◌*◌, ◌/◌, ◌≡◌, refl, ap, ◌≢◌, inl, inr, Bool, true, false, none, some, List, [], ◌∷◌,
  map, arith, ltb, Result, ok, err, ◌>>=◌,
}
use uquic.Wire.AckFrame.{AckFrame}
use uquic.Wire.Frame.{one_rtt, initial, handshake}
use uquic.Protocol.StreamId.{server}
use uquic.AckHandler.Rtt.{new_rtt_stats, pto}
use uquic.AckHandler.Sent.{
  Packet, packet_at, skipped_at, SentHistory, outstanding, yielded, skipped_packet_number,
  has_outstanding_packets, remove, get_index, index_in, remove_found, remove_at, discount_entry,
  discount, clear_skipped, cleanup_start, clear,
}
use uquic.AckHandler.Sent.State.{IsTracked}
use uquic.AckHandler.Sent.Entries.{tally}
use uquic.AckHandler.Sent.Flight.{flight}
use uquic.Wire.AckFrame.Query.{acks_packet, acks_packet_of, sort_search, search_loop}
use uquic.AckHandler.Sender.Covered.{select}
use uquic.AckHandler.Space.{
  pop, pop_packet_number, generate_new_skip, new_skipping_packet_number_generator,
  new_packet_number_space, PacketNumberSpace, sequential_generator,
}
use uquic.AckHandler.Sender.{
  SenderError, SendAlgorithm, Sender, remove_all_from_bytes_in_flight, send_none, no_alarm,
  is_amplification_limited,
}
use uquic.AckHandler.Sender.Acks.{acknowledge, acknowledge_all, detect_and_remove_acked_packets}
use uquic.AckHandler.Sender.Acked.{detect_and_remove_acked_packets-select}
use uquic.AckHandler.Sender.Losses.{detect_lost_packets, detect_lost_path_probes}
use uquic.AckHandler.Sender.Alarm.{set_loss_detection_timer}
use uquic.AckHandler.Sender.Timer.{set_loss_detection_timer-set}
use uquic.AckHandler.Sender.Restart.{remove_probes}
use uquic.AckHandler.Sender.Migration.{left_behind, remove_probes-left_behind}
use uquic.AckHandler.Sender.Calls.{receive_ack, SentInfo, send_packet, track_sent}
use uquic.AckHandler.Sender.Charged.{send_packet-IsBalanced}
use uquic.AckHandler.Sender.Control.{
  pop_number, drop_packets, drop_space, on_loss_detection_timeout, time_out, skip_number,
}
use uquic.AckHandler.Sender.Reached.{
  Reaches, here, later, pops, sends, drops, times_out, Reaches-IsBalanced,
}
use uquic.AckHandler.Tracker.{unsupported}
use uquic.AckHandler.Sent.{
  new_sent_packet_history, sent_ack_eliciting_packet, check_sequential_packet_number_use,
  has_outstanding_path_probes,
}
use uquic.AckHandler.Sender.Alarm.{
  get_scaled_pto, loss_detection_time, has_outstanding_crypto_packets, get_loss_time_and_space,
  get_pto_time_and_space, path_probe_loss_time,
}
use uquic.AckHandler.Sender.Restart.{new_sent_packet_handler}
use uquic.AckHandler.Sender.Settled.{Answers, receive_ack-Answers}
use uquic.AckHandler.Sender.Spaces.{IsBalanced}
use uquic.AckHandler.Sender.Flight.{detect_lost_packets-IsBalanced}

-- A window, that nothing changes.
abbrev window : SendAlgorithm ℕ
window = record {
  on_packet_sent = λ c time bytes pn size eliciting. c;
  can_send = λ c bytes. ltb bytes c;
  has_pacing_budget = λ c now. true;
  time_until_send = λ c bytes. 0;
  maybe_exit_slow_start = λ c r. c;
  on_packet_acked = λ c pn bytes prior time. c;
  on_congestion_event = λ c pn bytes prior. c;
  set_max_datagram_size = λ c size. c;
  fresh = λ size. 10 * size;
}

-- A packet of 100 bytes with a frame.
abbrev sent_at : ℕ → Packet
sent_at pn = record (packet_at pn) {
  send_time = 1000 + pn;
  frames = (record { frame = pn; has_handler = true }) ∷ [];
  length = 100;
  largest_acked = none;
  encryption_level = some one_rtt;
  included_in_bytes_in_flight = true;
}

-- 3 and 6 carry data, 4 was skipped and 5 was only an ACK.
abbrev some_sent : SentHistory
some_sent = record {
  packets = some (sent_at 3) ∷ some (skipped_at 4) ∷ none ∷ some (sent_at 6) ∷ [];
  path_probe_packets = [];
  num_outstanding = 2;
  highest_packet_number = some 6;
}

abbrev some_space : PacketNumberSpace
some_space = record {
  history = some_sent;
  pns = sequential_generator 7;
  loss_time = 0;
  last_ack_eliciting_packet_time = 1006;
  largest_acked = some 6;
  largest_sent = some 6;
}

abbrev a_sender : Sender ℕ
a_sender = record {
  initial_packets = none;
  handshake_packets = none;
  app_data_packets = some_space;
  peer_completed_address_validation = true;
  bytes_received = 1000;
  bytes_sent = 2000;
  peer_address_validated = true;
  handshake_confirmed = true;
  lowest_not_confirmed_acked = 0;
  bytes_in_flight = 200;
  congestion = 1000;
  rtt_stats = new_rtt_stats;
  pto_count = 0;
  pto_mode = send_none;
  num_probes_to_send = 0;
  alarm = no_alarm;
  ecn_tracker = none;
  perspective = server;
  notices = [];
}

some_sent-IsTracked : IsTracked some_sent
unfolding tally outstanding
some_sent-IsTracked = record {
  numbered = (refl, (refl, (refl, tt)));
  counted = refl;
  starts = refl;
}

-- Packets 3 and 6, but not the one that was skipped.
abbrev two_ranges : AckFrame
two_ranges = record {
  ack_ranges = record { smallest = 5; largest = 6 } ∷ record { smallest = 2; largest = 3 } ∷ [];
  delay_time = 0;
  ect0 = 0;
  ect1 = 0;
  ecnce = 0;
}

detect_and_remove_acked_packets-select_example :
    (detect_and_remove_acked_packets a_sender two_ranges one_rtt >>= λ r. ok r.0)
    ≡ ok (sent_at 3 ∷ sent_at 6 ∷ [])
unfolding select acks_packet acks_packet_of sort_search search_loop yielded acknowledge_all
    acknowledge remove get_index index_in remove_found remove_at discount_entry discount outstanding
    clear_skipped cleanup_start clear
detect_and_remove_acked_packets-select_example =
    ap (λ r. r >>= λ (x : List Packet × Sender ℕ). ok x.0)
      (detect_and_remove_acked_packets-select a_sender two_ranges one_rtt some_space refl
        some_sent-IsTracked (λ e. cc) (omega arith))

set_loss_detection_timer-set_example : (set_loss_detection_timer a_sender 2000).alarm.time ≢ 0
set_loss_detection_timer-set_example =
    set_loss_detection_timer-set a_sender 2000 refl (unfold has_outstanding_packets in refl)
      (λ e. omega arith) (unfold is_amplification_limited in refl)

remove_probes-left_behind_example :
    remove_probes (sent_at 1 ∷ sent_at 4 ∷ sent_at 9 ∷ []) ≡ sent_at 4 ∷ []
unfolding left_behind
remove_probes-left_behind_example =
    remove_probes-left_behind (sent_at 1 ∷ sent_at 4 ∷ sent_at 9 ∷ []) (omega arith)

a_sender-IsBalanced : IsBalanced 0 a_sender
unfolding flight
a_sender-IsBalanced = (
  (
    tt,
    (
      tt,
      (some_sent-IsTracked, ((inl (refl, refl), (inr (refl, refl), (inl (refl, refl), tt))), tt)),
    ),
  ),
  refl,
)

detect_lost_packets-IsBalanced_example :
    (h' : Sender ℕ) × ((detect_lost_packets window a_sender 2000 one_rtt ≡ ok h') × IsBalanced 0 h')
detect_lost_packets-IsBalanced_example =
    detect_lost_packets-IsBalanced window 0 a_sender 2000 one_rtt some_space a_sender-IsBalanced
      refl

-- The means of UpdateRTT, with integers.
abbrev mean : ℕ → ℕ → ℕ → ℕ
mean n a b = ((n - 1) * a + b) / n

receive_ack-Answers_example :
    Answers window (receive_ack window (mean 4) (mean 8) a_sender two_ranges one_rtt 2000)
receive_ack-Answers_example =
    receive_ack-Answers window (mean 4) (mean 8) a_sender two_ranges one_rtt 2000 some_space
      a_sender-IsBalanced refl (λ e. cc) (omega arith)

-- A first packet.
abbrev a_packet : SentInfo
a_packet = record {
  time = 500;
  packet_number = 0;
  largest_acked = none;
  stream_frames = [];
  frames = (record { frame = 1; has_handler = true }) ∷ [];
  ecn = unsupported;
  size = 100;
  is_path_mtu_probe_packet = false;
  is_path_probe_packet = false;
}

abbrev a_server : Sender ℕ
a_server = new_sent_packet_handler window 0 1200 new_rtt_stats true false server 0

-- What a call leaves, or the sender before where it fails.
abbrev left_by : Sender ℕ → Result SenderError (Sender ℕ) → Sender ℕ
left_by h (ok h') = h'
left_by h (err e) = h

abbrev succeeds : {A : Type 0} → Result SenderError A → Bool
succeeds (ok a) = true
succeeds (err e) = false

left_by-succeeds :
    (h : Sender ℕ) (r : Result SenderError (Sender ℕ)) → succeeds r ≡ true → r ≡ ok (left_by h r)
left_by-succeeds h (ok h') fine = refl
left_by-succeeds h (err e) fine = absurd (cc fine)

abbrev popped : Sender ℕ → Sender ℕ
popped h = left_by h (pop_number h one_rtt 50 >>= λ (pn, h'). ok h')

abbrev packet_now : ℕ → SentInfo
packet_now pn = record a_packet { packet_number = pn; time = 500 + pn }

-- A packet number is popped, and a packet sent with it.
abbrev after_one : Sender ℕ → ℕ → Sender ℕ
after_one h pn = left_by h (send_packet window (popped h) one_rtt (packet_now pn))

-- Packet number 3 is skipped, then the spaces of the handshake are dropped and the alarm goes off.
abbrev after_three : Sender ℕ
after_three = after_one (after_one (after_one a_server 0) 1) 2

abbrev after_skip : Sender ℕ
after_skip = after_one after_three 4

abbrev confirmed : Sender ℕ
confirmed =
    left_by after_skip (drop_packets after_skip initial 600 >>= λ h. drop_packets h handshake 700)

abbrev timed_out : Sender ℕ
timed_out = left_by confirmed (on_loss_detection_timeout window confirmed 5000000000 60)

send_packet-IsBalanced_example :
    (h' : Sender ℕ) × ((send_packet window a_sender one_rtt (record a_packet { packet_number = 7 })
        ≡ ok h')
      × IsBalanced 0 h')
send_packet-IsBalanced_example =
    send_packet-IsBalanced window a_sender one_rtt some_space
      (record a_packet { packet_number = 7 }) none a_sender-IsBalanced refl refl refl (refl, tt)

pops_and_sends :
    (h : Sender ℕ) (pn : ℕ)
    → pop_number h one_rtt 50 ≡ ok (pn, popped h)
    → send_packet window (popped h) one_rtt (packet_now pn) ≡ ok (after_one h pn)
    → Reaches window (mean 4) (mean 8) a_server h
    → Reaches window (mean 4) (mean 8) a_server (after_one h pn)
pops_and_sends h pn is sent so_far =
    later (later so_far (pops one_rtt 50 pn is))
      (sends one_rtt (packet_now pn) (λ e. absurd (cc e)) sent)

after_skip-Reaches : Reaches window (mean 4) (mean 8) a_server after_skip
unfolding new_sent_packet_handler new_packet_number_space send_packet new_sent_packet_history
    track_sent sent_ack_eliciting_packet check_sequential_packet_number_use set_loss_detection_timer
    outstanding loss_detection_time has_outstanding_crypto_packets has_outstanding_packets
    is_amplification_limited get_loss_time_and_space get_pto_time_and_space path_probe_loss_time
    has_outstanding_path_probes pop_number pop_packet_number pop skipped_packet_number
    generate_new_skip new_skipping_packet_number_generator
after_skip-Reaches = pops_and_sends after_three 4 refl refl (
    pops_and_sends (after_one (after_one a_server 0) 1) 2 refl refl (
      pops_and_sends (after_one a_server 0) 1 refl refl (pops_and_sends a_server 0 refl refl here)))

three_skipped :
    map {B = ℕ × Bool}
      (λ (p : Packet). (p.packet_number, p.skipped_packet))
      (yielded after_skip.app_data_packets.history.packets)
    ≡ (0, false) ∷ (1, false) ∷ (2, false) ∷ (3, true) ∷ (4, false) ∷ []
unfolding new_sent_packet_handler new_packet_number_space send_packet new_sent_packet_history
    track_sent sent_ack_eliciting_packet check_sequential_packet_number_use set_loss_detection_timer
    outstanding pop_number pop_packet_number pop skipped_packet_number generate_new_skip
    new_skipping_packet_number_generator yielded
three_skipped = refl

timed_out-Reaches : Reaches window (mean 4) (mean 8) a_server timed_out
unfolding new_sent_packet_handler new_packet_number_space send_packet new_sent_packet_history
    track_sent sent_ack_eliciting_packet check_sequential_packet_number_use set_loss_detection_timer
    outstanding loss_detection_time has_outstanding_crypto_packets has_outstanding_packets
    is_amplification_limited get_loss_time_and_space get_pto_time_and_space path_probe_loss_time
    has_outstanding_path_probes pop_number pop_packet_number pop skipped_packet_number
    generate_new_skip new_skipping_packet_number_generator drop_packets drop_space
    on_loss_detection_timeout time_out skip_number yielded remove_all_from_bytes_in_flight
    detect_lost_path_probes get_scaled_pto pto new_rtt_stats
timed_out-Reaches =
    later (later (later after_skip-Reaches (drops initial 600 refl)) (drops handshake 700 refl)) (
      times_out 5000000000 60 (
        left_by-succeeds confirmed (on_loss_detection_timeout window confirmed 5000000000 60) refl))

timed_out_probes :
    (timed_out.num_probes_to_send ≡ 2)
    × (timed_out.app_data_packets.history.highest_packet_number ≡ some 5)
unfolding new_sent_packet_handler new_packet_number_space send_packet new_sent_packet_history
    track_sent sent_ack_eliciting_packet check_sequential_packet_number_use set_loss_detection_timer
    outstanding loss_detection_time has_outstanding_crypto_packets has_outstanding_packets
    is_amplification_limited get_loss_time_and_space get_pto_time_and_space path_probe_loss_time
    has_outstanding_path_probes pop_number pop_packet_number pop skipped_packet_number
    generate_new_skip new_skipping_packet_number_generator drop_packets drop_space
    on_loss_detection_timeout time_out skip_number yielded remove_all_from_bytes_in_flight
    detect_lost_path_probes get_scaled_pto pto new_rtt_stats
timed_out_probes = (refl, refl)

Reaches-IsBalanced_example : IsBalanced 0 timed_out
Reaches-IsBalanced_example =
    Reaches-IsBalanced window (mean 4) (mean 8) 0 1200 new_rtt_stats true false server 0 timed_out
      timed_out-Reaches
