-- ===== src/AckHandler/Ecn.antt =====
-- internal/ackhandler/ecn.go: the validation of ECN on a path. `none` stands for InvalidPacketNumber. A
-- `uint8` counter wraps at 2^8; the `int64` counters count packets, and do not reach 2^63. The counts
-- of an ACK frame are below 2^62. The tracer and the logger are left out.
pub mod States
pub mod Sound
pub mod Marking
mod Runs
use uquic.Shared.{
  ℕ, ◌+◌, ◌-◌, ◌%◌, ◌^◌, Bool, true, false, not, ◌&&◌, ◌||◌, Option, none, some, List, [], ◌∷◌, ltb,
  leb, ◌==◌, if◌then◌else◌, Result, ok, err, Panic, panic,
}
use uquic.AckHandler.Tracker.{Ecn, unsupported, not_ect, ect1, ect0, ce}

pub data EcnState : Type 0 where
  initial testing unknown capable failed : EcnState

pub record EcnTracker : Type 0 where
  pub state : EcnState
  pub num_sent_testing : ℕ
  pub num_lost_testing : ℕ
  pub first_testing_packet : Option ℕ
  pub last_testing_packet : Option ℕ
  pub first_capable_packet : Option ℕ
  pub num_sent_ect0 : ℕ
  pub num_sent_ect1 : ℕ
  pub num_acked_ect0 : ℕ
  pub num_acked_ect1 : ℕ
  pub num_acked_ecnce : ℕ

unfoldable pub new_ecn_tracker : EcnTracker
new_ecn_tracker = record {
  state = initial;
  num_sent_testing = 0;
  num_lost_testing = 0;
  first_testing_packet = none;
  last_testing_packet = none;
  first_capable_packet = none;
  num_sent_ect0 = 0;
  num_sent_ect1 = 0;
  num_acked_ect0 = 0;
  num_acked_ect1 = 0;
  num_acked_ecnce = 0;
}

-- numECNTestingPackets
abbrev pub num_ecn_testing_packets : ℕ
num_ecn_testing_packets = 10

abbrev pub is_failed : EcnState → Bool
is_failed failed = true
is_failed _ = false

abbrev pub is_capable : EcnState → Bool
is_capable capable = true
is_capable _ = false

abbrev pub is_testing : EcnState → Bool
is_testing testing = true
is_testing _ = false

abbrev pub is_unknown : EcnState → Bool
is_unknown unknown = true
is_unknown _ = false

abbrev pub or_else : Option ℕ → ℕ → Option ℕ
or_else none pn = some pn
or_else (some p) pn = some p

-- The count of the marking, or the early return, or a panic.
pub data Counted : Type 0 where
  stop : Counted
  go_on : EcnTracker → Counted
  panics : Counted

unfoldable pub count_sent : EcnTracker → Ecn → Counted
count_sent e not_ect = stop
count_sent e ect0 = go_on (record e { num_sent_ect0 = e.num_sent_ect0 + 1 })
count_sent e ect1 = go_on (record e { num_sent_ect1 = e.num_sent_ect1 + 1 })
count_sent e unsupported = if is_failed e.state then go_on e else panics
count_sent e ce = panics

unfoldable pub note_capable : EcnTracker → ℕ → EcnTracker
note_capable e pn =
    if is_capable e.state
    then record e { first_capable_packet = or_else e.first_capable_packet pn }
    else e

unfoldable pub count_testing : EcnTracker → ℕ → EcnTracker
count_testing e pn =
    let e1 = record e {
      num_sent_testing = (e.num_sent_testing + 1) % 2 ^ 8;
      first_testing_packet = or_else e.first_testing_packet pn;
    } in
    if leb num_ecn_testing_packets (e1.num_sent_ect0 + e1.num_sent_ect1)
    then record e1 { state = unknown; last_testing_packet = some pn }
    else e1

abbrev pub after_count : EcnTracker → ℕ → Counted → Result Panic EcnTracker
after_count e pn stop = ok e
after_count e pn panics = err panic
after_count e pn (go_on e1) =
    let e2 = note_capable e1 pn in ok (if is_testing e2.state then count_testing e2 pn else e2)

unfoldable pub sent_packet : EcnTracker → ℕ → Ecn → Result Panic EcnTracker
sent_packet e pn ecn = after_count e pn (count_sent e ecn)

-- What to mark the next packet with.
abbrev pub mode_of : EcnState → Ecn × EcnState
mode_of initial = (ect0, testing)
mode_of testing = (ect0, testing)
mode_of capable = (ect0, capable)
mode_of unknown = (not_ect, unknown)
mode_of failed = (not_ect, failed)

unfoldable pub mode : EcnTracker → Ecn × EcnTracker
mode e = let (ecn, state) = mode_of e.state in (ecn, record e { state = state })

unfoldable pub fail_if_mangled : EcnTracker → EcnTracker
fail_if_mangled e =
    if ltb (e.num_acked_ecnce + e.num_lost_testing) (e.num_sent_ect0 + e.num_sent_ect1)
    then e
    else record e { state = failed }

-- `pn < p || p == InvalidPacketNumber`
abbrev pub is_before : ℕ → Option ℕ → Bool
is_before pn none = true
is_before pn (some p) = ltb pn p

abbrev pub is_up_to : ℕ → Option ℕ → Bool
is_up_to pn none = true
is_up_to pn (some p) = leb pn p

unfoldable pub ecn_marking : EcnTracker → ℕ → Ecn
ecn_marking e pn =
    if is_before pn e.first_testing_packet
    then not_ect
    else if is_before pn e.last_testing_packet
    then ect0
    else if is_before pn e.first_capable_packet
    then not_ect
    else ect0

unfoldable pub is_testing_packet : EcnTracker → ℕ → Bool
is_testing_packet e pn =
    not (is_before pn e.first_testing_packet) && is_up_to pn e.last_testing_packet

unfoldable pub lost_packet : EcnTracker → ℕ → EcnTracker
lost_packet e pn =
    let e1 = record e { num_lost_testing = (e.num_lost_testing + 1) % 2 ^ 8 } in
    if not (is_testing e.state || is_unknown e.state)
    then e
    else if not (is_testing_packet e pn)
    then e
    else if not (is_unknown e.state)
    then e1
    else if leb e1.num_sent_testing e1.num_lost_testing
    then record e1 { state = failed }
    else fail_if_mangled e1

abbrev pub is_ect0 : Ecn → Bool
is_ect0 ect0 = true
is_ect0 _ = false

abbrev pub is_ect1 : Ecn → Bool
is_ect1 ect1 = true
is_ect1 _ = false

-- How many of the packets have a marking that passes the test.
unfoldable pub count_marked : EcnTracker → (Ecn → Bool) → List ℕ → ℕ
count_marked e test [] = 0
count_marked e test (pn ∷ pns) =
    (if test (ecn_marking e pn) then 1 else 0) + count_marked e test pns

unfoldable pub any_testing : EcnTracker → List ℕ → Bool
any_testing e [] = false
any_testing e (pn ∷ pns) = is_testing_packet e pn || any_testing e pns

abbrev pub fail : EcnTracker → Bool × EcnTracker
fail e = (false, record e { state = failed })

-- From the update of the counters on. `new0`, `new1` and `new_ce` are the increases.
unfoldable pub confirm : EcnTracker → List ℕ → ℕ → ℕ → ℕ → Bool × EcnTracker
confirm e pns new0 new1 new_ce =
    let e1 = if is_unknown e.state then fail_if_mangled e else e in
    let confirmed =
      (is_testing e1.state || is_unknown e1.state)
      && any_testing e1 pns
      && (ltb 0 new0 || ltb 0 new1) in
    let e2 = if confirmed then record e1 { state = capable } else e1 in
    if is_failed e1.state then (false, e1) else (is_capable e2.state && ltb 0 new_ce, e2)

-- `pns` are the packet numbers of the newly acknowledged packets.
unfoldable pub handle_newly_acked : EcnTracker → List ℕ → ℕ → ℕ → ℕ → Bool × EcnTracker
handle_newly_acked e pns ect0_count ect1_count ce_count =
    let acked0 = count_marked e is_ect0 pns in
    let acked1 = count_marked e is_ect1 pns in
    let new0 = ect0_count - e.num_acked_ect0 in
    let new1 = ect1_count - e.num_acked_ect1 in
    let new_ce = ce_count - e.num_acked_ecnce in
    if is_failed e.state
    then (false, e)
    else if ltb e.num_sent_ect0 ect0_count || ltb e.num_sent_ect1 ect1_count
    then fail e
    else if (ltb 0 acked0 || ltb 0 acked1)
        && (ect0_count == 0 && (ect1_count == 0 && ce_count == 0))
    then fail e
    else if ltb ect0_count e.num_acked_ect0
        || (ltb ect1_count e.num_acked_ect1 || ltb ce_count e.num_acked_ecnce)
    then fail e
    else if ltb (new0 + new_ce) acked0
    then fail e
    else if ltb (new1 + new_ce) acked1
    then fail e
    else confirm
        (record e {
          num_acked_ect0 = ect0_count;
          num_acked_ect1 = ect1_count;
          num_acked_ecnce = ce_count;
        })
        pns new0 new1 new_ce
