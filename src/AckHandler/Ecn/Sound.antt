-- ===== src/AckHandler/Ecn/Sound.antt =====
-- The counters of the ECN validation over the calls of the connection.
use uquic.Shared.{
  ℕ, ◌+◌, ◌-◌, ◌%◌, ◌^◌, ◌≤◌, ◌<◌, ◌≡◌, refl, ap, ◌∙◌, Bool, not, ◌&&◌, ◌||◌, List, [], ◌∷◌, arith,
  ltb, leb, if◌then◌else◌, if_intro, if_intro_known, Result, ok, Panic, ◌>>=◌,
}
use uquic.AckHandler.Ecn.{
  EcnState, initial, testing, unknown, capable, failed, EcnTracker, new_ecn_tracker, sent_packet,
  mode, lost_packet, handle_newly_acked, confirm, fail_if_mangled, count_sent, note_capable,
  count_testing, is_testing_packet, num_ecn_testing_packets, any_testing, is_failed, is_testing,
  is_unknown,
}
use uquic.AckHandler.Ecn.States.{
  ◌⟶◌, stay, all_sent, edges, handled, acked_edge, lost_edge, send, Call, sends, lost, acked,
  after_call,
}

-- What holds between calls: ECT(1) is never used, the testing packets are those marked so far, and before
-- the path is capable or has failed at most ten packets are marked, all ten where testing is over.
-- No more packets of a marking were acknowledged than were sent.
abbrev pub Budget : EcnState → ℕ → ℕ → Type 0
Budget initial marked tested = (marked ≡ 0) × (tested ≡ 0)
Budget testing marked tested = (marked < num_ecn_testing_packets) × (tested ≡ marked)
Budget unknown marked tested = (marked ≡ num_ecn_testing_packets) × (tested ≡ marked)
Budget capable marked tested = tested ≤ num_ecn_testing_packets
Budget failed marked tested = tested ≤ num_ecn_testing_packets

pub record IsSound (e : EcnTracker) : Type 0 where
  pub budget : Budget e.state e.num_sent_ect0 e.num_sent_testing
  pub no_ect1 : e.num_sent_ect1 ≡ 0
  pub acked0 : e.num_acked_ect0 ≤ e.num_sent_ect0
  pub acked1 : e.num_acked_ect1 ≤ e.num_sent_ect1

Budget-tested : (s : EcnState) (m t : ℕ) → Budget s m t → t ≤ num_ecn_testing_packets
Budget-tested initial m t b = omega arith
Budget-tested testing m t b = omega arith
Budget-tested unknown m t b = omega arith
Budget-tested capable m t b = b
Budget-tested failed m t b = b

-- A call on the tracker follows an edge and keeps the tracker sound.
abbrev pub IsStep : EcnTracker → EcnTracker → Type 0
IsStep e e' = (e.state ⟶ e'.state) × IsSound e'

Budget-capable : (e : EcnTracker) → IsSound e → IsSound (record e { state = capable })
Budget-capable e sound = record {
  budget = Budget-tested e.state e.num_sent_ect0 e.num_sent_testing sound.budget;
  no_ect1 = sound.no_ect1;
  acked0 = sound.acked0;
  acked1 = sound.acked1;
}

Budget-failed : (e : EcnTracker) → IsSound e → IsSound (record e { state = failed })
Budget-failed e sound = record {
  budget = Budget-tested e.state e.num_sent_ect0 e.num_sent_testing sound.budget;
  no_ect1 = sound.no_ect1;
  acked0 = sound.acked0;
  acked1 = sound.acked1;
}

-- No count of a sound tracker stands on the packets lost.
with_lost : (e : EcnTracker) (n : ℕ) → IsSound e → IsSound (record e { num_lost_testing = n })
with_lost e n sound = record {
  budget = sound.budget;
  no_ect1 = sound.no_ect1;
  acked0 = sound.acked0;
  acked1 = sound.acked1;
}

with_acked :
    (e : EcnTracker) (c0 c1 c2 : ℕ)
    → c0 ≤ e.num_sent_ect0
    → c1 ≤ e.num_sent_ect1
    → IsSound e
    → IsSound (record e { num_acked_ect0 = c0; num_acked_ect1 = c1; num_acked_ecnce = c2 })
with_acked e c0 c1 c2 fits0 fits1 sound = record {
  budget = sound.budget;
  no_ect1 = sound.no_ect1;
  acked0 = fits0;
  acked1 = fits1;
}

fail_if_mangled-IsSound : (e : EcnTracker) → IsSound e → IsSound (fail_if_mangled e)
unfolding fail_if_mangled
fail_if_mangled-IsSound e sound =
    if_intro IsSound
      (ltb (e.num_acked_ecnce + e.num_lost_testing) (e.num_sent_ect0 + e.num_sent_ect1)) (sound)
      (Budget-failed e sound)

lost-IsSound : (e : EcnTracker) (pn : ℕ) → IsSound e → IsSound (lost_packet e pn)
unfolding lost_packet
lost-IsSound e pn sound =
    let n = (e.num_lost_testing + 1) % 2 ^ 8 in
    let sound1 = with_lost e n sound in
    if_intro IsSound (not (is_testing e.state || is_unknown e.state)) (sound) (
      if_intro IsSound (not (is_testing_packet e pn)) (sound) (
        if_intro IsSound (not (is_unknown e.state)) (sound1) (
          if_intro IsSound (leb e.num_sent_testing n)
            (Budget-failed (record e { num_lost_testing = n }) sound1)
            (fail_if_mangled-IsSound (record e { num_lost_testing = n }) sound1))))

confirm-IsSound :
    (e : EcnTracker) (pns : List ℕ) (n0 n1 nce : ℕ)
    → IsSound e
    → IsSound (confirm e pns n0 n1 nce).1
unfolding confirm
confirm-IsSound e pns n0 n1 nce sound =
    let e1 = if is_unknown e.state then fail_if_mangled e else e in
    let sound1 = if_intro IsSound (is_unknown e.state) (fail_if_mangled-IsSound e sound) (sound) in
    if_intro (λ (r : Bool × EcnTracker). IsSound r.1) (is_failed e1.state) (sound1)
      (if_intro IsSound
        ((is_testing e1.state || is_unknown e1.state)
          && any_testing e1 pns
          && (ltb 0 n0 || ltb 0 n1))
        (Budget-capable e1 sound1) (sound1))

acked-IsSound :
    (e : EcnTracker) (pns : List ℕ) (c0 c1 c2 : ℕ)
    → IsSound e
    → IsSound (handle_newly_acked e pns c0 c1 c2).1
acked-IsSound e pns c0 c1 c2 sound =
    handled (λ r. IsSound r.1) e pns c0 c1 c2 sound (Budget-failed e sound)
      (λ fits0 fits1.
        confirm-IsSound
          (record e { num_acked_ect0 = c0; num_acked_ect1 = c1; num_acked_ecnce = c2 }) pns
          (c0 - e.num_acked_ect0) (c1 - e.num_acked_ect1) (c2 - e.num_acked_ecnce)
          (with_acked e c0 c1 c2 fits0 fits1 sound))

-- The tracker after one more packet was marked in the state `testing`.
tested_once : EcnTracker → ℕ → EcnTracker
tested_once e pn =
    count_testing (record e { state = testing; num_sent_ect0 = e.num_sent_ect0 + 1 }) pn

tested_once-IsStep :
    (e : EcnTracker) (pn : ℕ)
    → e.num_sent_ect0 < num_ecn_testing_packets
    → e.num_sent_testing ≡ e.num_sent_ect0
    → e.num_sent_ect1 ≡ 0
    → e.num_acked_ect0 ≤ e.num_sent_ect0
    → e.num_acked_ect1 ≤ e.num_sent_ect1
    → (testing ⟶ (tested_once e pn).state) × IsSound (tested_once e pn)
unfolding tested_once count_testing
tested_once-IsStep e pn below same no1 a0 a1 =
    if_intro_known (λ e'. (testing ⟶ e'.state) × IsSound e')
      (leb num_ecn_testing_packets (e.num_sent_ect0 + 1 + e.num_sent_ect1))
      (λ over. (
        all_sent,
        record {
          budget = (grind arith, grind arith);
          no_ect1 = no1;
          acked0 = omega arith;
          acked1 = a1;
        },
      ))
      (λ more. (
        stay,
        record {
          budget = (grind arith, grind arith);
          no_ect1 = no1;
          acked0 = omega arith;
          acked1 = a1;
        },
      ))

tested_first :
    (e : EcnTracker) (pn : ℕ)
    → e.num_sent_ect0 ≡ 0
    → e.num_sent_ect1 ≡ 0
    → initial ⟶ (tested_once e pn).state
unfolding tested_once count_testing
tested_first e pn none0 none1 = grind (arith, edges)

sent_capable-IsSound :
    (e : EcnTracker) (pn : ℕ)
    → IsSound (record e { state = capable })
    → IsSound (note_capable (record e { state = capable; num_sent_ect0 = e.num_sent_ect0 + 1 }) pn)
unfolding note_capable
sent_capable-IsSound e pn sound = record {
  budget = sound.budget;
  no_ect1 = sound.no_ect1;
  acked0 = omega arith;
  acked1 = sound.acked1;
}

send-IsStep :
    (s : EcnState) (e : EcnTracker) (pn : ℕ)
    → IsSound (record e { state = s })
    → (e' : EcnTracker) × ((send (record e { state = s }) pn ≡ ok e')
        × IsStep (record e { state = s }) e')
unfolding send mode sent_packet count_sent note_capable tested_once
send-IsStep initial e pn sound =
    let step =
      tested_once-IsStep e pn (omega arith) (omega arith) sound.no_ect1 sound.acked0 sound.acked1 in
    (tested_once e pn, (refl, (tested_first e pn (omega arith) sound.no_ect1, step.1)))
send-IsStep testing e pn sound = (
  tested_once e pn,
  (
    refl,
    tested_once-IsStep e pn (omega arith) (omega arith) sound.no_ect1 sound.acked0 sound.acked1,
  ),
)
send-IsStep unknown e pn sound = (record e { state = unknown }, (refl, (stay, sound)))
send-IsStep capable e pn sound = (
  note_capable (record e { state = capable; num_sent_ect0 = e.num_sent_ect0 + 1 }) pn,
  (refl, (stay, sent_capable-IsSound e pn sound)),
)
send-IsStep failed e pn sound = (record e { state = failed }, (refl, (stay, sound)))

-- A call on a sound tracker does not panic, takes the state along an edge of `⟶` and leaves the tracker
-- sound: a packet sent with the marking that `Mode` answers, the loss of any packet, and an ACK frame with
-- any packets and any counts.
pub after_call-IsStep :
    (c : Call) (e : EcnTracker)
    → IsSound e
    → (e' : EcnTracker) × ((after_call c e ≡ ok e') × IsStep e e')
unfolding after_call
after_call-IsStep (sends pn) e sound = send-IsStep e.state e pn sound
after_call-IsStep (lost pn) e sound =
    (lost_packet e pn, (refl, (lost_edge e pn, lost-IsSound e pn sound)))
after_call-IsStep (acked pns c0 c1 c2) e sound = (
  (handle_newly_acked e pns c0 c1 c2).1,
  (refl, (acked_edge e pns c0 c1 c2, acked-IsSound e pns c0 c1 c2 sound)),
)

unfoldable pub after_calls : List Call → EcnTracker → Result Panic EcnTracker
after_calls [] e = ok e
after_calls (c ∷ cs) e = after_call c e >>= after_calls cs

after_calls-IsSound_from :
    (cs : List Call) (e : EcnTracker)
    → IsSound e
    → (e' : EcnTracker) × ((after_calls cs e ≡ ok e') × IsSound e')
unfolding after_calls
after_calls-IsSound_from [] e sound = (e, (refl, sound))
after_calls-IsSound_from (c ∷ cs) e sound =
    let (e1, (called, (edge, sound1))) = after_call-IsStep c e sound in
    let (e', (rest, sound')) = after_calls-IsSound_from cs e1 sound1 in
    (e', (ap (λ r. r >>= after_calls cs) called ∙ rest, sound'))

pub new_ecn_tracker-IsSound : IsSound new_ecn_tracker
unfolding new_ecn_tracker
new_ecn_tracker-IsSound = record {
  budget = (refl, refl);
  no_ect1 = refl;
  acked0 = omega arith;
  acked1 = omega arith;
}

-- No calls on a new tracker panic, where packets are sent with the marking that `Mode` answers, and after
-- them the tracker is sound: no packet was marked ECT(1), before the path is capable or has failed the
-- testing packets are the marked ones and are at most ten, all ten when testing is over, and no more
-- ECT(0) or ECT(1) marks were acknowledged than sent.
pub after_calls-IsSound :
    (cs : List Call) → (e' : EcnTracker) × ((after_calls cs new_ecn_tracker ≡ ok e') × IsSound e')
after_calls-IsSound cs = after_calls-IsSound_from cs new_ecn_tracker new_ecn_tracker-IsSound
