-- ===== src/Congestion/Runs.antt =====
-- Runs of slow start.
use uquic.Shared.{min, ◌≡◌, refl, true, false, List, [], ◌∷◌, ◌++◌, ◌&&◌, replicate, leb, arith}
use uquic.Congestion.{
  HybridSlowStart, restart, should_exit_slow_start, on_packet_acked, on_packet_sent, detect,
  increase_threshold, is_end_of_round, note_sample, start_receive_round,
}
use uquic.Congestion.Rounds.{Sample, answers, rtts_of, least, is_increase, answers-restart}

abbrev new_slow_start : HybridSlowStart
new_slow_start = record {
  end_packet_number = 0;
  last_sent_packet_number = 0;
  started = false;
  current_min_rtt = 0;
  rtt_sample_count = 0;
  hystart_found = false;
}

-- Six samples around 70 ms, where the session had one of 60 ms.
abbrev slower : List Sample
slower =
    (69000000, (60000000, 10))
    ∷ (70000000, (60000000, 11))
    ∷ (72000000, (60000000, 12))
    ∷ (73000000, (60000000, 13))
    ∷ (70000000, (60000000, 14))
    ∷ (71000000, (60000000, 15))
    ∷ []

-- The increase is found with a window of 15 packets, and slow start ends one sample later, with one of 10.
slow_round_answers :
    answers
      ((71000000, (60000000, 9)) ∷ (slower ++ ((74000000, (60000000, 15)) ∷ (1, (1, 10)) ∷ [])))
      (restart new_slow_start)
    ≡ replicate 8 false ++ (true ∷ [])
unfolding answers should_exit_slow_start restart start_receive_round detect note_sample
    increase_threshold
slow_round_answers = refl

one_sample_stays : (should_exit_slow_start (restart new_slow_start) 70000000 60000000 20).0 ≡ false
unfolding should_exit_slow_start restart start_receive_round detect note_sample
one_sample_stays = refl

next_round :
    (on_packet_acked (record (on_packet_sent new_slow_start 5) { started = true }) 6).started
    ≡ false
unfolding on_packet_acked is_end_of_round on_packet_sent
next_round = refl

answers-restart_example :
    answers
      (((71000000, (60000000, 9)) ∷ slower) ++ ((74000000, (60000000, 16)) ∷ (1, (1, 10)) ∷ []))
      (restart new_slow_start)
    ≡ replicate 7 false
      ++ ((leb 16 16 && is_increase 60000000 (min (least 71000000 (rtts_of slower)) 74000000))
          ∷ replicate 1 (is_increase 60000000 (min (least 71000000 (rtts_of slower)) 74000000)))
answers-restart_example =
    answers-restart new_slow_start (71000000, (60000000, 9)) slower 74000000 60000000 16
      ((1, (1, 10)) ∷ [])
      (
        omega arith,
        (
          omega arith,
          (omega arith, (omega arith, (omega arith, (omega arith, (omega arith, tt))))),
        ),
      )
      (omega arith) refl (omega arith)
