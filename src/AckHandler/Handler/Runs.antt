-- ===== src/AckHandler/Handler/Runs.antt =====
-- Concrete runs of the handler, and its theorems at concrete inputs.
use uquic.Shared.{ℕ, ◌≤◌, ◌≡◌, refl, true, false, none, some, [], ◌∷◌, arith, ok, err, panic}
use uquic.AckHandler.History
use uquic.AckHandler.History.{History}
use uquic.AckHandler.History.State.{holds}
use uquic.Wire.AckFrame.{AckFrame, append_ack_frame}
use uquic.Wire.Frame.{one_rtt}
use uquic.AckHandler.Tracker.{
  not_ect, AppTracker, count_ecn, elicit, finish_packet, is_missing, observe, should_queue_ack,
  track_app_packet, track_packet,
}
use uquic.AckHandler.Tracker.Queue.{IsConsistent}
use uquic.AckHandler.Handler.{
  Handler, receive_packet, get_ack_frame, ignore_confirmed, receive_app_data,
}
use uquic.AckHandler.Handler.Spaces.{get_ack_frame-receive_packet}

-- Packets up to 3 are there, and 5.
abbrev with_history : AppTracker
with_history = record {
  base = record {
    ect0_count = 0;
    ect1_count = 0;
    ce_count = 0;
    packet_history = record {
      ranges = record { start = 5; end = 5 } ∷ record { start = 0; end = 3 } ∷ [];
      deleted_below = 0;
    };
    last_ack = none;
    has_new_ack = false;
  };
  largest_observed_rcvd_time = 90;
  largest_observed = 5;
  ignore_below = 0;
  max_ack_delay = 25;
  ack_queued = false;
  ack_eliciting_since_last_ack = 0;
  ack_alarm = none;
}

with_history-IsConsistent : IsConsistent with_history
with_history-IsConsistent = record {
  valid = omega arith;
  few = λ e. omega arith;
  ready = λ e. ground arith;
  alarmed = λ e l. absurd (omega arith);
}

abbrev before : Handler
before = record {
  initial_packets = none;
  handshake_packets = none;
  app_data_packets = with_history;
  lowest_one_rtt = some 0;
}

-- Packet 4 arrives late, and confirms an ACK of the packets up to 5.
abbrev late : Handler
late = elim (receive_packet before 4 not_ect one_rtt 100 true 6) [ ok r ↦ r.1 | err e ↦ before ]

late_lem : receive_packet before 4 not_ect one_rtt 100 true 6 ≡ ok (none, late)
unfolding receive_packet receive_app_data track_app_packet finish_packet track_packet
    History.received_packet History.add_to_ranges History.add_loop elicit is_missing observe
    count_ecn should_queue_ack ignore_confirmed
late_lem = refl

none_above : (q : ℕ) → 6 ≤ q → holds with_history.base.packet_history q ≡ false
unfolding holds
none_above q l = ground arith

get_ack_frame-receive_packet_example :
    (ack : AckFrame) × ((get_ack_frame late one_rtt 100 false).0 ≡ some ack)
    × (append_ack_frame [] ack ≡ err panic)
get_ack_frame-receive_packet_example =
    get_ack_frame-receive_packet before 4 not_ect 100 6 late 100 [] with_history-IsConsistent
      (omega arith) (omega arith) (omega arith) none_above late_lem
