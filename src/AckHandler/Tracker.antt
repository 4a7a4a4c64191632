-- ===== src/AckHandler/Tracker.antt =====
-- internal/ackhandler/received_packet_tracker.go: when received packets are acknowledged. Times are
-- counts of nanoseconds; where the code tests for the zero time, `none` is that time. The ACK frame that
-- a tracker hands out is the one that it keeps as `lastAck`. The logging is left out.
pub mod Acks
pub mod Queue
mod Runs
use uquic.Shared.{
  ℕ, zero, ◌+◌, ◌-◌, ◌%◌, ◌^◌, Bool, true, false, not, ◌&&◌, ◌||◌, Option, none, some, [], ltb, leb,
  ◌==◌, if◌then◌else◌, Result, ok, Panic, ◌>>=◌, ◌>>◌,
}
use uquic.AckHandler.History
use uquic.AckHandler.History.{History, new_history, delete_below}
use uquic.AckHandler.History.Acks.{append_ack_ranges, get_highest_ack_range}
use uquic.Wire.AckFrame.{AckFrame, range_len}
use uquic.Wire.AckFrame.Query.{largest_acked, acks_packet}

-- protocol.ECN
pub data Ecn : Type 0 where
  unsupported not_ect ect1 ect0 ce : Ecn

abbrev pub is_ce : Ecn → Bool
is_ce ce = true
is_ce _ = false

pub record Tracker : Type 0 where
  pub ect0_count : ℕ
  pub ect1_count : ℕ
  pub ce_count : ℕ
  pub packet_history : History
  pub last_ack : Option AckFrame
  pub has_new_ack : Bool

unfoldable pub new_tracker : Tracker
new_tracker = record {
  ect0_count = 0;
  ect1_count = 0;
  ce_count = 0;
  packet_history = new_history;
  last_ack = none;
  has_new_ack = false;
}

-- The error of `ReceivedPacket`: an old or duplicate packet.
pub data TrackerError : Type 0 where
  old_or_duplicate : TrackerError
  zero_rtt_after_one_rtt : TrackerError

unfoldable pub count_ecn : Ecn → Tracker → Tracker
count_ecn ect0 t = record t { ect0_count = (t.ect0_count + 1) % 2 ^ 64 }
count_ecn ect1 t = record t { ect1_count = (t.ect1_count + 1) % 2 ^ 64 }
count_ecn ce t = record t { ce_count = (t.ce_count + 1) % 2 ^ 64 }
count_ecn unsupported t = t
count_ecn not_ect t = t

unfoldable pub track_packet : Tracker → ℕ → Ecn → Bool → Option TrackerError × Tracker
track_packet t pn ecn ack_eliciting =
    let (history, is_new) = History.received_packet t.packet_history pn in
    let t1 = record t { packet_history = history } in
    let t2 = count_ecn ecn t1 in
    if is_new
    then (none, if ack_eliciting then record t2 { has_new_ack = true } else t2)
    else (some old_or_duplicate, t1)

-- `GetAckFrame`: the frame is reset and filled, whatever it held before.
unfoldable pub make_ack : Tracker → AckFrame
make_ack t = record {
  ack_ranges = append_ack_ranges [] t.packet_history;
  delay_time = 0;
  ect0 = t.ect0_count;
  ect1 = t.ect1_count;
  ecnce = t.ce_count;
}

unfoldable pub take_ack : Tracker → Option AckFrame × Tracker
take_ack t =
    if t.has_new_ack
    then (some (make_ack t), record t { last_ack = some (make_ack t); has_new_ack = false })
    else (none, t)

-- packetsBeforeAck
abbrev pub packets_before_ack : ℕ
packets_before_ack = 2

pub record AppTracker : Type 0 where
  pub base : Tracker
  -- 0 until a packet is received, and not used before that
  pub largest_observed_rcvd_time : ℕ
  pub largest_observed : ℕ
  pub ignore_below : ℕ
  pub max_ack_delay : ℕ
  pub ack_queued : Bool
  pub ack_eliciting_since_last_ack : ℕ
  pub ack_alarm : Option ℕ

-- protocol.MaxAckDelay, 25 milliseconds
unfoldable pub new_app_tracker : AppTracker
new_app_tracker = record {
  base = new_tracker;
  largest_observed_rcvd_time = 0;
  largest_observed = 0;
  ignore_below = 0;
  max_ack_delay = 25000000;
  ack_queued = false;
  ack_eliciting_since_last_ack = 0;
  ack_alarm = none;
}

unfoldable pub ignore_packets_below : AppTracker → ℕ → AppTracker
ignore_packets_below h pn = if leb pn h.ignore_below then h else record h {
  ignore_below = pn;
  base = record h.base { packet_history = delete_below h.base.packet_history pn };
}

-- `p < LargestAcked() && !AcksPacket(p)`, which looks into the frame's ranges and panics without any.
abbrev pub reported_missing : AckFrame → ℕ → Result Panic Bool
reported_missing ack p = do
  largest ← largest_acked ack
  acked ← (if ltb p largest then acks_packet ack p else ok true)
  ok (not acked)

unfoldable pub is_missing : Option AckFrame → ℕ → ℕ → Result Panic Bool
is_missing none limit p = ok false
is_missing (some ack) limit p = if ltb p limit then ok false else reported_missing ack p

unfoldable pub has_new_missing_packets : Option AckFrame → History → Result Panic Bool
has_new_missing_packets none history = ok false
has_new_missing_packets (some ack) history = do
  let highest = get_highest_ack_range history
  largest ← largest_acked ack
  ok (ltb (largest + 1) highest.smallest && range_len highest == 1)

unfoldable pub should_queue_ack : AppTracker → Ecn → Bool → Result Panic Bool
should_queue_ack h ecn was_missing = elim h.base.last_ack [
  | none ↦ ok true
  | some ack ↦
      if was_missing
      then ok true
      else if leb packets_before_ack h.ack_eliciting_since_last_ack
      then ok true
      else has_new_missing_packets (some ack) h.base.packet_history >>= λ new. ok (new || is_ce ecn)
]

-- The queueing, and the alarm if there is still no ACK queued.
unfoldable pub queue_ack : AppTracker → ℕ → Bool → AppTracker
queue_ack h rcv_time should =
    if h.ack_queued || should
    then record h { ack_queued = true; ack_alarm = if h.ack_queued then h.ack_alarm else none }
    else record h { ack_alarm = some (rcv_time + h.max_ack_delay) }

unfoldable pub observe : AppTracker → ℕ → ℕ → AppTracker
observe h pn rcv_time =
    if leb h.largest_observed pn
    then record h { largest_observed = pn; largest_observed_rcvd_time = rcv_time }
    else h

-- An ack-eliciting packet, after it was counted.
unfoldable pub elicit : AppTracker → ℕ → Ecn → ℕ → Result Panic AppTracker
elicit h pn ecn rcv_time = do
  was_missing ← is_missing h.base.last_ack h.ignore_below pn
  should ← (if h.ack_queued then ok false else should_queue_ack h ecn was_missing)
  ok (queue_ack h rcv_time should)

-- The early return of an error, with the state for it, or the state of the rest.
unfoldable pub finish_packet :
    Option TrackerError
    → AppTracker
    → Result Panic AppTracker
    → Result Panic (Option TrackerError × AppTracker)
finish_packet (some error) refused rest = ok (some error, refused)
finish_packet none refused rest = rest >>= λ h. ok (none, h)

unfoldable pub track_app_packet :
    AppTracker → ℕ → Ecn → ℕ → Bool → Result Panic (Option TrackerError × AppTracker)
track_app_packet h pn ecn rcv_time ack_eliciting =
    let (e, base) = track_packet h.base pn ecn ack_eliciting in
    let h1 = observe (record h { base = base }) pn rcv_time in
    let h2 = record h1 { ack_eliciting_since_last_ack = h1.ack_eliciting_since_last_ack + 1 } in
    finish_packet e (record h { base = base })
      (if ack_eliciting then elicit h2 pn ecn rcv_time else ok h1)

-- `ackAlarm.IsZero() || ackAlarm.After(now)`
abbrev pub is_waiting : Option ℕ → ℕ → Bool
is_waiting none now = true
is_waiting (some alarm) now = ltb now alarm

unfoldable pub with_delay : AckFrame → ℕ → AckFrame
with_delay ack delay = record ack { delay_time = delay }

-- The delay is written to the frame that the tracker keeps, too.
unfoldable pub finish_ack :
    AppTracker → ℕ → Option AckFrame × Tracker → Option AckFrame × AppTracker
finish_ack h now (none, base) = (none, record h { base = base })
finish_ack h now (some ack, base) =
    let delayed = with_delay ack (now - h.largest_observed_rcvd_time) in
    (
      some delayed,
      record h {
        base = record base { last_ack = some delayed };
        ack_queued = false;
        ack_alarm = none;
        ack_eliciting_since_last_ack = 0;
      },
    )

unfoldable pub take_app_ack : AppTracker → ℕ → Bool → Option AckFrame × AppTracker
take_app_ack h now only_if_queued =
    if only_if_queued && not h.ack_queued && is_waiting h.ack_alarm now
    then (none, h)
    else finish_ack h now (take_ack h.base)
