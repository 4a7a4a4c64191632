-- ===== src/AckHandler/Ecn/Marking.antt =====
-- The marking that the ECN validation remembers for a packet.
use uquic.Shared.{ℕ, ◌+◌, ◌%◌, ◌^◌, ◌≤◌, ◌≡◌, refl, true, none, some, arith, ok}
use uquic.AckHandler.Tracker.{not_ect, ect0}
use uquic.AckHandler.Ecn.{
  testing, unknown, EcnTracker, sent_packet, count_sent, note_capable, count_testing, ecn_marking,
  is_testing_packet, or_else,
}

-- The tracker after the last testing packet.
abbrev ended : EcnTracker → ℕ → EcnTracker
ended e pn = record e {
  state = unknown;
  num_sent_ect0 = e.num_sent_ect0 + 1;
  num_sent_testing = (e.num_sent_testing + 1) % 2 ^ 8;
  first_testing_packet = or_else e.first_testing_packet pn;
  last_testing_packet = some pn;
}

-- In the state `testing`, with nine packets marked so far, with the first testing packet not above
-- `pn` and no packet that was found capable, sending `pn` with ECT(0) ends the testing phase. From then on `pn` is a testing packet,
-- but the marking that is remembered for it is Not-ECT, though it was sent with ECT(0).
pub ecn_marking-sent_packet :
    (e : EcnTracker) (first pn : ℕ)
    → e.state ≡ testing
    → e.num_sent_ect0 + e.num_sent_ect1 ≡ 9
    → e.first_testing_packet ≡ some first
    → e.first_capable_packet ≡ none
    → first ≤ pn
    → (e' : EcnTracker) × ((sent_packet e pn ect0 ≡ ok e')
        × ((e'.state ≡ unknown)
            × ((is_testing_packet e' pn ≡ true) × (ecn_marking e' pn ≡ not_ect))))
unfolding sent_packet count_sent note_capable count_testing is_testing_packet ecn_marking
ecn_marking-sent_packet e first pn here nine began uncapable above =
    (ended e pn, (grind arith, (refl, (grind arith, grind arith))))
