-- ===== src/AckHandler/History/Runs.antt =====
-- Concrete runs of the packet history, and its theorems at concrete inputs.
use uquic.Shared.{
  zero, suc, List, ◌+◌, ◌*◌, ok, ℕ, max, ◌≡◌, refl, true, not, ◌&&◌, ◌||◌, [], ◌∷◌, arith, ltb, leb,
  ◌==◌,
}
use uquic.AckHandler.History.{
  History, new_history, merge_before, add_loop, add_to_ranges, received_packet, delete_loop,
  delete_below, is_potentially_duplicate,
}
use uquic.AckHandler.History.State.{
  holds, IsValid, holds-received_packet, holds-delete_below, is_potentially_duplicate-holds,
  receive, delete, step, run, run-new_history-IsValid,
}
use uquic.AckHandler.History.Forget.{received_packet_forgets}
use uquic.AckHandler.History.{Interval}
use uquic.AckHandler.History.Acks.{
  highest_of, append_ack_ranges, get_highest_ack_range, acks_packet-append_ack_ranges,
}
use uquic.Wire.AckFrame.{AckFrame, validate_ack_ranges}
use uquic.Wire.AckFrame.Query.{acks_packet}

-- Packets 5 and 8 to 9 are there, and those below 3 are forgotten.
abbrev some_packets : History
some_packets = record {
  ranges = record { start = 8; end = 9 } ∷ record { start = 5; end = 5 } ∷ [];
  deleted_below = 3;
}

some_packets-IsValid : IsValid some_packets
some_packets-IsValid = omega arith

run_packets :
    run new_history (receive 5 ∷ receive 9 ∷ receive 8 ∷ receive 1 ∷ delete 3 ∷ []) ≡ some_packets
unfolding run step new_history received_packet add_to_ranges add_loop merge_before delete_below
    delete_loop
run_packets = refl

-- Packets 6 and 7 close the gap.
merged :
    (received_packet (received_packet some_packets 7).0 6).0.ranges
    ≡ record { start = 5; end = 9 } ∷ []
unfolding received_packet add_to_ranges add_loop merge_before
merged = refl

holds-received_packet_example :
    (holds (received_packet some_packets 6).0 7
      ≡ ((7 == 6 && not (ltb 6 3)) || holds some_packets 7))
    × ((received_packet some_packets 6).1 ≡ (not (ltb 6 3) && not (holds some_packets 6)))
holds-received_packet_example =
    holds-received_packet some_packets 6 7 some_packets-IsValid
      (unfold add_loop merge_before in omega arith)

holds-delete_below_example :
    (holds (delete_below some_packets 9) 8 ≡ ((ltb 9 3 || leb 9 8) && holds some_packets 8))
    × ((delete_below some_packets 9).deleted_below ≡ max 9 3)
    × IsValid (delete_below some_packets 9)
holds-delete_below_example = holds-delete_below some_packets 9 8 some_packets-IsValid

is_potentially_duplicate-holds_example :
    is_potentially_duplicate some_packets 8 ≡ (ltb 8 3 || holds some_packets 8)
is_potentially_duplicate-holds_example =
    is_potentially_duplicate-holds some_packets 8 some_packets-IsValid

run-new_history-IsValid_example : IsValid (run new_history (receive 5 ∷ receive 9 ∷ delete 3 ∷ []))
run-new_history-IsValid_example = run-new_history-IsValid (receive 5 ∷ receive 9 ∷ delete 3 ∷ [])

highest_of_some_packets : get_highest_ack_range some_packets ≡ record { smallest = 8; largest = 9 }
unfolding get_highest_ack_range highest_of
highest_of_some_packets = refl

abbrev some_acks : AckFrame
some_acks = record {
  ack_ranges = append_ack_ranges [] some_packets;
  delay_time = 0;
  ect0 = 0;
  ect1 = 0;
  ecnce = 0;
}

acks_packet-append_ack_ranges_example :
    (acks_packet some_acks 8 ≡ ok (holds some_packets 8))
    × (validate_ack_ranges some_acks.ack_ranges ≡ true)
acks_packet-append_ack_ranges_example =
    acks_packet-append_ack_ranges some_packets some_acks 8 some_packets-IsValid (λ e. cc) refl

-- `n` ranges of one packet number each, the highest first.
scattered : ℕ → List Interval
scattered zero = []
scattered (suc n) = record { start = 10 + 2 * n; end = 10 + 2 * n } ∷ scattered n

abbrev full_history : History
full_history = record { ranges = scattered 32; deleted_below = 3 }

received_packet_forgets_example : received_packet full_history 4 ≡ (full_history, true)
unfolding scattered
received_packet_forgets_example =
    received_packet_forgets full_history 4 (omega arith) refl (omega arith) (omega arith)
