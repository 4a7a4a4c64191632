-- ===== src/AckHandler/Tracker/Runs.antt =====
-- Concrete runs of the tracker, and its theorems at concrete inputs.
use uquic.Shared.{ℕ, ◌≡◌, refl, inr, true, none, some, List, [], ◌∷◌, ok, err}
use uquic.AckHandler.History
use uquic.AckHandler.History.{
  History, add_loop, merge_before, add_to_ranges, received_packet, new_history,
}
use uquic.AckHandler.History.State.{holds}
use uquic.Wire.AckFrame.{AckFrame, range_len}
use uquic.Wire.AckFrame.Query.{acks_packet, acks_packet_of, largest_acked, search_loop, sort_search}
use uquic.AckHandler.Tracker.{
  not_ect, AppTracker, new_tracker, new_app_tracker, track_packet, count_ecn, observe, elicit,
  is_missing, should_queue_ack, queue_ack, finish_packet, track_app_packet, take_app_ack,
  finish_ack, take_ack, has_new_missing_packets, ignore_packets_below, make_ack, with_delay,
}
use uquic.AckHandler.Tracker.Queue.{IsConsistent, new_app_tracker-IsConsistent}
use uquic.AckHandler.Tracker.Acks.{
  Call, received, acked, ignored, after_call, after_calls, after_calls-IsConsistent,
  take_app_ack-track_app_packet,
}
use uquic.AckHandler.History.Acks.{
  append_ack_ranges, append_loop, get_highest_ack_range, highest_of,
}

-- The first packet queues an ACK at once.
abbrev first_packet : AppTracker
first_packet = elim (track_app_packet new_app_tracker 7 not_ect 100 true) [
  | ok r ↦ r.1
  | err e ↦ new_app_tracker
]

first_packet_tracked : track_app_packet new_app_tracker 7 not_ect 100 true ≡ ok (none, first_packet)
unfolding track_app_packet track_packet count_ecn observe elicit is_missing should_queue_ack
    queue_ack finish_packet received_packet add_to_ranges add_loop new_app_tracker new_tracker
    new_history
first_packet_tracked = refl

first_packet_queued : first_packet.ack_queued ≡ true
unfolding track_app_packet track_packet count_ecn observe elicit is_missing should_queue_ack
    queue_ack finish_packet received_packet add_to_ranges add_loop new_app_tracker new_tracker
    new_history
first_packet_queued = refl

take_app_ack-track_app_packet_example :
    (ack : AckFrame) × ((take_app_ack first_packet 100 true).0 ≡ some ack)
    × ((q : ℕ) → acks_packet ack q ≡ ok (holds first_packet.base.packet_history q))
take_app_ack-track_app_packet_example =
    take_app_ack-track_app_packet new_app_tracker 7 not_ect 100 first_packet 100
      new_app_tracker-IsConsistent first_packet_tracked (inr first_packet_queued)

abbrev calls : List Call
calls = received 7 not_ect 100 true ∷ acked 120 true ∷ received 8 not_ect 130 true ∷ ignored 3 ∷ []

abbrev called : AppTracker
called = elim (after_calls calls new_app_tracker) [ none ↦ new_app_tracker | some h ↦ h ]

called_lem : after_calls calls new_app_tracker ≡ some called
unfolding after_calls after_call track_app_packet finish_packet track_packet received_packet
    new_app_tracker new_tracker new_history add_to_ranges add_loop elicit is_missing observe
    count_ecn should_queue_ack take_app_ack append_ack_ranges append_loop get_highest_ack_range
    highest_of History.delete_below History.delete_loop merge_before finish_ack
    has_new_missing_packets ignore_packets_below make_ack queue_ack take_ack with_delay acks_packet
    acks_packet_of largest_acked search_loop sort_search range_len
called_lem = refl

after_calls-IsConsistent_example : IsConsistent called
after_calls-IsConsistent_example = after_calls-IsConsistent calls called called_lem
