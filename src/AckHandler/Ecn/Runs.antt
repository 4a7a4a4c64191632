-- ===== src/AckHandler/Ecn/Runs.antt =====
-- Runs of the ECN validation: the ten testing packets, a capable path and a mangling one.
use uquic.Shared.{◌≡◌, refl, true, none, some, List, [], ◌∷◌, ◌++◌, arith, Result, ok, Panic, ◌>>=◌}
use uquic.AckHandler.Tracker.{not_ect, ect0}
use uquic.AckHandler.Ecn.{
  EcnState, testing, unknown, capable, failed, EcnTracker, new_ecn_tracker, sent_packet, mode,
  handle_newly_acked, confirm, fail_if_mangled, count_sent, note_capable, count_testing,
  ecn_marking, is_testing_packet, any_testing, count_marked,
}
use uquic.AckHandler.Ecn.States.{send, Call, sends, lost, acked, after_call, send}
use uquic.AckHandler.Ecn.Sound.{
  IsSound, IsStep, after_calls, new_ecn_tracker-IsSound, after_call-IsStep, after_calls-IsSound,
}
use uquic.AckHandler.Ecn.Marking.{ecn_marking-sent_packet}

abbrev ten_sent : List Call
ten_sent =
    sends 0
    ∷ sends 1
    ∷ sends 2
    ∷ sends 3
    ∷ sends 4
    ∷ sends 5
    ∷ sends 6
    ∷ sends 7
    ∷ sends 8
    ∷ sends 9
    ∷ []

abbrev state_after : List Call → Result Panic EcnState
state_after cs = after_calls cs new_ecn_tracker >>= λ e. ok e.state

not_yet : state_after (sends 0 ∷ sends 1 ∷ []) ≡ ok testing
unfolding after_calls after_call send sent_packet count_sent mode new_ecn_tracker note_capable
    count_testing
not_yet = refl

all_tested : state_after ten_sent ≡ ok unknown
unfolding after_calls after_call send sent_packet count_sent mode new_ecn_tracker note_capable
    count_testing
all_tested = refl

confirmed_path : state_after (ten_sent ++ (acked (0 ∷ 1 ∷ []) 2 0 0 ∷ [])) ≡ ok capable
unfolding after_calls after_call send sent_packet count_sent mode new_ecn_tracker note_capable
    count_testing handle_newly_acked count_marked ecn_marking confirm fail_if_mangled any_testing
    is_testing_packet
confirmed_path = refl

mangled_path :
    state_after (ten_sent ++ (acked (0 ∷ 1 ∷ 2 ∷ 3 ∷ 4 ∷ 5 ∷ 6 ∷ 7 ∷ 8 ∷ []) 0 0 10 ∷ []))
    ≡ ok failed
unfolding after_calls after_call send sent_packet count_sent mode new_ecn_tracker note_capable
    count_testing handle_newly_acked count_marked ecn_marking confirm fail_if_mangled
mangled_path = refl

bleached_path : state_after (ten_sent ++ (acked (0 ∷ []) 0 0 0 ∷ [])) ≡ ok failed
unfolding after_calls after_call send sent_packet count_sent mode new_ecn_tracker note_capable
    count_testing handle_newly_acked count_marked ecn_marking
bleached_path = refl

after_call-IsStep_example :
    (e' : EcnTracker) × ((after_call (sends 0) new_ecn_tracker ≡ ok e') × IsStep new_ecn_tracker e')
after_call-IsStep_example = after_call-IsStep (sends 0) new_ecn_tracker new_ecn_tracker-IsSound

after_calls-IsSound_example :
    (e' : EcnTracker) × ((after_calls (ten_sent ++ (lost 9 ∷ [])) new_ecn_tracker ≡ ok e')
      × IsSound e')
after_calls-IsSound_example = after_calls-IsSound (ten_sent ++ (lost 9 ∷ []))

abbrev nine_marked : EcnTracker
nine_marked = record {
  state = testing;
  num_sent_testing = 9;
  num_lost_testing = 0;
  first_testing_packet = some 0;
  last_testing_packet = none;
  first_capable_packet = none;
  num_sent_ect0 = 9;
  num_sent_ect1 = 0;
  num_acked_ect0 = 0;
  num_acked_ect1 = 0;
  num_acked_ecnce = 0;
}

ecn_marking-sent_packet_example :
    (e' : EcnTracker) × ((sent_packet nine_marked 9 ect0 ≡ ok e')
      × ((e'.state ≡ unknown) × ((is_testing_packet e' 9 ≡ true) × (ecn_marking e' 9 ≡ not_ect))))
ecn_marking-sent_packet_example =
    ecn_marking-sent_packet nine_marked 0 9 refl refl refl refl (omega arith)
