-- ===== src/AckHandler/Sent/Runs.antt =====
-- Runs of the history of sent packets.
use uquic.Shared.{
  ℕ, ◌≡◌, refl, true, none, some, List, [], ◌∷◌, Result, ok, err, Panic, panic, ◌>>=◌,
}
use uquic.AckHandler.Sent.{
  packet_at, Packet, outstanding, SentHistory, new_sent_packet_history,
  check_sequential_packet_number_use, skipped_at, skipped_packet_number,
  sent_non_ack_eliciting_packet, sent_ack_eliciting_packet, first_outstanding, index_in, get_index,
  clear, clear_skipped, cleanup_start, discount, discount_entry, remove_at, remove_found, remove,
}
use uquic.AckHandler.Sent.Entries.{tally, lookup}
use uquic.AckHandler.Sent.State.{IsTracked}
use uquic.AckHandler.Sent.Calls.{Forgets, remove_lem}
use uquic.AckHandler.Sent.Sends.{
  Call, skips, sends_non_eliciting, sends_eliciting, removes, after_call, is_allowed,
  after_call-IsTracked,
}
use uquic.AckHandler.Sent.First.{IsLowest, first_outstanding-IsLowest}

abbrev data_at : ℕ → Packet
data_at pn = packet_at pn

-- Packet 3 is data, 4 was skipped, 5 is only an ACK, 6 is data.
abbrev sample : SentHistory
sample = record {
  packets = some (data_at 3) ∷ some (skipped_at 4) ∷ none ∷ some (data_at 6) ∷ [];
  path_probe_packets = [];
  num_outstanding = 2;
  highest_packet_number = some 6;
}

abbrev all_calls : List Call → SentHistory → Result Panic SentHistory
all_calls [] h = ok h
all_calls (c ∷ cs) h = after_call c h >>= all_calls cs

sample_run :
    all_calls
      (sends_eliciting (data_at 3)
        ∷ skips 4
        ∷ sends_non_eliciting 5
        ∷ sends_eliciting (data_at 6)
        ∷ [])
      new_sent_packet_history
    ≡ ok sample
unfolding after_call sent_ack_eliciting_packet check_sequential_packet_number_use
    new_sent_packet_history skipped_packet_number outstanding sent_non_ack_eliciting_packet
sample_run = refl

removed_first :
    after_call (removes 3) sample >>= (λ h. ok h.packets)
    ≡ ok (some (skipped_at 4) ∷ none ∷ some (data_at 6) ∷ [])
unfolding after_call remove get_index index_in remove_found remove_at discount_entry discount
    outstanding clear_skipped cleanup_start clear
removed_first = refl

gap_panics : after_call (skips 8) sample ≡ err panic
unfolding after_call skipped_packet_number check_sequential_packet_number_use
gap_panics = refl

nil_panics : after_call (removes 5) sample ≡ err panic
unfolding after_call remove get_index index_in remove_found remove_at discount_entry
nil_panics = refl

sample-IsTracked : IsTracked sample
unfolding tally outstanding
sample-IsTracked = record { numbered = (refl, (refl, (refl, tt))); counted = refl; starts = refl }

sample_found : lookup sample.packets 3 ≡ some (data_at 3)
unfolding lookup
sample_found = refl

remove_lem_example :
    (h' : SentHistory) × ((remove sample 3 ≡ ok (true, h')) × (IsTracked h' × Forgets 3 sample h'))
remove_lem_example = remove_lem sample 3 (data_at 3) sample-IsTracked sample_found

after_call-IsTracked_example :
    (h' : SentHistory) × ((after_call (sends_non_eliciting 7) sample ≡ ok h') × IsTracked h')
unfolding is_allowed
after_call-IsTracked_example =
    after_call-IsTracked (sends_non_eliciting 7) sample sample-IsTracked refl

first_outstanding-IsLowest_example : IsLowest sample.packets (first_outstanding sample)
first_outstanding-IsLowest_example = first_outstanding-IsLowest sample sample-IsTracked
