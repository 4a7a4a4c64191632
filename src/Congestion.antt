-- ===== src/Congestion.antt =====
-- internal/congestion/hybrid_slow_start.go. Durations are numbers of nanoseconds, not negative, and sums of
-- them do not reach 2^63.
pub mod Rounds
mod Runs
use uquic.Shared.{
  ℕ, ◌+◌, ◌*◌, ◌/◌, ◌%◌, ◌^◌, min, max, Bool, true, false, ◌&&◌, ◌||◌, ltb, leb, ◌==◌,
  if◌then◌else◌,
}

-- hybridStartLowWindow
abbrev pub hybrid_start_low_window : ℕ
hybrid_start_low_window = 16

-- hybridStartMinSamples
abbrev pub hybrid_start_min_samples : ℕ
hybrid_start_min_samples = 8

abbrev pub hybrid_start_delay_factor_exp : ℕ
hybrid_start_delay_factor_exp = 3

abbrev pub hybrid_start_delay_min_threshold_us : ℕ
hybrid_start_delay_min_threshold_us = 4000

abbrev pub hybrid_start_delay_max_threshold_us : ℕ
hybrid_start_delay_max_threshold_us = 16000

pub record HybridSlowStart : Type 0 where
  pub end_packet_number : ℕ
  pub last_sent_packet_number : ℕ
  pub started : Bool
  pub current_min_rtt : ℕ
  pub rtt_sample_count : ℕ
  pub hystart_found : Bool

unfoldable pub start_receive_round : HybridSlowStart → ℕ → HybridSlowStart
start_receive_round s last_sent = record s {
  end_packet_number = last_sent;
  current_min_rtt = 0;
  rtt_sample_count = 0;
  started = true;
}

unfoldable pub is_end_of_round : HybridSlowStart → ℕ → Bool
is_end_of_round s ack = ltb s.end_packet_number ack

-- The sample is counted, and the first ones can lower the minimum.
unfoldable pub note_sample : HybridSlowStart → ℕ → HybridSlowStart
note_sample s latest_rtt =
    let s1 = record s { rtt_sample_count = (s.rtt_sample_count + 1) % 2 ^ 32 } in
    if leb s1.rtt_sample_count hybrid_start_min_samples
      && (s1.current_min_rtt == 0 || ltb latest_rtt s1.current_min_rtt)
    then record s1 { current_min_rtt = latest_rtt }
    else s1

-- `minRTTincreaseThreshold`
unfoldable pub increase_threshold : ℕ → ℕ
increase_threshold min_rtt =
    max
      (min (min_rtt / 1000 / 2 ^ hybrid_start_delay_factor_exp) hybrid_start_delay_max_threshold_us)
      hybrid_start_delay_min_threshold_us
    * 1000

unfoldable pub detect : HybridSlowStart → ℕ → HybridSlowStart
detect s min_rtt =
    if s.rtt_sample_count == hybrid_start_min_samples
    then if ltb (min_rtt + increase_threshold min_rtt) s.current_min_rtt
      then record s { hystart_found = true }
      else s
    else s

unfoldable pub should_exit_slow_start : HybridSlowStart → ℕ → ℕ → ℕ → Bool × HybridSlowStart
should_exit_slow_start s latest_rtt min_rtt congestion_window =
    let s1 = if s.started then s else start_receive_round s s.last_sent_packet_number in
    let s2 = detect (note_sample s1 latest_rtt) min_rtt in
    if s1.hystart_found
    then (true, s1)
    else (leb hybrid_start_low_window congestion_window && s2.hystart_found, s2)

unfoldable pub on_packet_sent : HybridSlowStart → ℕ → HybridSlowStart
on_packet_sent s packet_number = record s { last_sent_packet_number = packet_number }

unfoldable pub on_packet_acked : HybridSlowStart → ℕ → HybridSlowStart
on_packet_acked s acked = if is_end_of_round s acked then record s { started = false } else s

unfoldable pub restart : HybridSlowStart → HybridSlowStart
restart s = record s { started = false; hystart_found = false }
