-- ===== src/AckHandler/Rtt.antt =====
-- internal/utils/rtt_stats.go. A duration is a number of nanoseconds. The weighted means that Go makes in
-- float32, of the old value and the sample in microseconds, are the arguments `mean_deviation_of` and
-- `smoothed_of`.
use uquic.Shared.{
  ℕ, ◌+◌, ◌-◌, ◌*◌, ◌/◌, max, Bool, true, false, ◌||◌, ltb, leb, ◌==◌, if◌then◌else◌,
}

pub record RttStats : Type 0 where
  pub has_measurement : Bool
  pub min_rtt : ℕ
  pub latest_rtt : ℕ
  pub smoothed_rtt : ℕ
  pub mean_deviation : ℕ
  pub max_ack_delay : ℕ

unfoldable pub new_rtt_stats : RttStats
new_rtt_stats = record {
  has_measurement = false;
  min_rtt = 0;
  latest_rtt = 0;
  smoothed_rtt = 0;
  mean_deviation = 0;
  max_ack_delay = 0;
}

-- defaultInitialRTT
abbrev pub default_initial_rtt : ℕ
default_initial_rtt = 100000000

-- protocol.TimerGranularity
abbrev pub timer_granularity : ℕ
timer_granularity = 1000000

unfoldable pub pto : RttStats → Bool → ℕ
pto r include_max_ack_delay =
    let base = r.smoothed_rtt + max (4 * r.mean_deviation) timer_granularity in
    if r.smoothed_rtt == 0
    then 2 * default_initial_rtt
    else if include_max_ack_delay
    then base + r.max_ack_delay
    else base

abbrev pub distance : ℕ → ℕ → ℕ
distance a b = if leb a b then b - a else a - b

-- From the correction for the ACK delay on.
unfoldable pub take_sample : (mean_deviation_of smoothed_of : ℕ → ℕ → ℕ) → RttStats → ℕ → RttStats
take_sample mean_deviation_of smoothed_of r sample =
    if r.has_measurement
    then record r {
      latest_rtt = sample;
      mean_deviation =
          mean_deviation_of (r.mean_deviation / 1000) (distance r.smoothed_rtt sample / 1000)
          * 1000;
      smoothed_rtt = smoothed_of (r.smoothed_rtt / 1000) (sample / 1000) * 1000;
    }
    else record r {
      latest_rtt = sample;
      has_measurement = true;
      smoothed_rtt = sample;
      mean_deviation = sample / 2;
    }

unfoldable pub update_rtt :
    (mean_deviation_of smoothed_of : ℕ → ℕ → ℕ) → RttStats → ℕ → ℕ → RttStats
update_rtt mean_deviation_of smoothed_of r send_delta ack_delay =
    let r1 = record r {
      min_rtt = if r.min_rtt == 0 || ltb send_delta r.min_rtt then send_delta else r.min_rtt;
    } in
    if send_delta == 0
    then r
    else take_sample mean_deviation_of smoothed_of r1
        (if leb ack_delay (send_delta - r1.min_rtt) then send_delta - ack_delay else send_delta)

unfoldable pub set_max_ack_delay : RttStats → ℕ → RttStats
set_max_ack_delay r mad = record r { max_ack_delay = mad }

unfoldable pub set_initial_rtt : RttStats → ℕ → RttStats
set_initial_rtt r t = if r.has_measurement then r else record r { smoothed_rtt = t; latest_rtt = t }

unfoldable pub reset_for_path_migration : RttStats → RttStats
reset_for_path_migration r = record r {
  has_measurement = false;
  min_rtt = 0;
  latest_rtt = 0;
  smoothed_rtt = 0;
  mean_deviation = 0;
}
