-- ===== src/AckHandler/Space/Runs.antt =====
-- Runs of a packet number space.
use uquic.Shared.{ℕ, ◌≡◌, refl, false, ◌&&◌, Option, none, some, Result, ok, err, Panic, ◌>>=◌}
use uquic.AckHandler.Sent.{
  packet_at, Packet, new_sent_packet_history, outstanding, check_sequential_packet_number_use,
  sent_ack_eliciting_packet, skipped_packet_number,
}
use uquic.AckHandler.Sent.Entries.{tally}
use uquic.AckHandler.Space.{
  new_packet_number_space, new_skipping_packet_number_generator, peek, pop, PacketNumberSpace,
  generate_new_skip, pop_packet_number,
}
use uquic.AckHandler.Space.Steps.{send_next, InStep, send_next-InStep}

abbrev some_data : Packet
some_data = packet_at 0

-- The next number to skip is 3.
abbrev new_space : PacketNumberSpace
new_space = new_packet_number_space (new_skipping_packet_number_generator 0 256 131072 0)

abbrev numbers_of : Result Panic (ℕ × PacketNumberSpace) → Option ℕ
numbers_of (ok (pn, space)) = some pn
numbers_of (err e) = none

abbrev send_again : ℕ × PacketNumberSpace → Result Panic (ℕ × PacketNumberSpace)
send_again (pn, space) = send_next space 5 some_data

first_number : numbers_of (send_next new_space 5 some_data) ≡ some 0
unfolding send_next pop_packet_number pop new_skipping_packet_number_generator generate_new_skip
    sent_ack_eliciting_packet check_sequential_packet_number_use new_sent_packet_history
    new_packet_number_space
first_number = refl

third_number : numbers_of (send_next new_space 5 some_data >>= send_again >>= send_again) ≡ some 2
unfolding send_next pop_packet_number pop new_skipping_packet_number_generator generate_new_skip
    sent_ack_eliciting_packet check_sequential_packet_number_use new_sent_packet_history outstanding
    new_packet_number_space
third_number = refl

skips_three :
    numbers_of (send_next new_space 5 some_data >>= send_again >>= send_again >>= send_again)
    ≡ some 4
unfolding send_next pop_packet_number pop new_skipping_packet_number_generator generate_new_skip
    sent_ack_eliciting_packet check_sequential_packet_number_use new_sent_packet_history outstanding
    skipped_packet_number new_packet_number_space
skips_three = refl

new_space-InStep : InStep new_space
unfolding new_sent_packet_history tally new_packet_number_space
new_space-InStep = record {
  tracked = record { numbered = refl; counted = refl; starts = refl };
  next = refl;
}

send_next-InStep_example :
    (space' : PacketNumberSpace) × ((send_next new_space 5 some_data
        ≡ ok (peek new_space.pns, space'))
      × (InStep space'
          × ((space'.history.highest_packet_number ≡ some (peek new_space.pns))
              × ((d : ℕ) → ((pop new_space.pns 5).0 && (pop space'.pns d).0) ≡ false))))
send_next-InStep_example = send_next-InStep new_space 5 some_data new_space-InStep
