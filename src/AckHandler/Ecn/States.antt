-- ===== src/AckHandler/Ecn/States.antt =====
-- The states of the ECN validation.
use uquic.Shared.{
  ℕ, ◌+◌, ◌-◌, ◌≤◌, Bool, false, ◌&&◌, ◌||◌, List, arith, ltb, ◌==◌, if_intro, if_intro_known,
  Result, ok, Panic,
}
use uquic.AckHandler.Ecn.{
  EcnState, initial, testing, unknown, capable, failed, EcnTracker, sent_packet, mode, lost_packet,
  handle_newly_acked, confirm, fail_if_mangled, count_marked, fail, is_failed, is_ect0, is_ect1,
}

-- The ways of RFC 9000, section 13.4.2: the state before and after a call.
infix 40 ◌⟶◌
pub data ◌⟶◌ : EcnState → EcnState → Type 0 where
  stay : {s : EcnState} → s ⟶ s
  start : initial ⟶ testing
  all_sent : testing ⟶ unknown
  confirmed_early : testing ⟶ capable
  confirmed : unknown ⟶ capable
  fails : {s : EcnState} → s ⟶ failed

pub ruleset edges = (stay, start, all_sent, confirmed_early, confirmed, fails)

confirm_edge :
    (e : EcnTracker) (pns : List ℕ) (n0 n1 nce : ℕ) → e.state ⟶ (confirm e pns n0 n1 nce).1.state
unfolding confirm fail_if_mangled
confirm_edge e pns n0 n1 nce = grind (arith, edges)

-- What holds of the state kept, of the failed state and of the outcome of `confirm` holds of the outcome.
pub handled :
    (P : Bool × EcnTracker → Type 0) (e : EcnTracker) (pns : List ℕ) (c0 c1 c2 : ℕ)
    → P (false, e)
    → P (fail e)
    → (c0 ≤ e.num_sent_ect0
        → c1 ≤ e.num_sent_ect1
        → P (
            confirm
              (record e { num_acked_ect0 = c0; num_acked_ect1 = c1; num_acked_ecnce = c2 })
              pns
              (c0 - e.num_acked_ect0)
              (c1 - e.num_acked_ect1)
              (c2 - e.num_acked_ecnce)))
    → P (handle_newly_acked e pns c0 c1 c2)
unfolding handle_newly_acked
handled P e pns c0 c1 c2 kept failing confirming = if_intro P (is_failed e.state) kept (
    if_intro_known P (ltb e.num_sent_ect0 c0 || ltb e.num_sent_ect1 c1) (λ _. failing)
      (λ fits.
        if_intro P
          ((ltb 0 (count_marked e is_ect0 pns) || ltb 0 (count_marked e is_ect1 pns))
            && (c0 == 0 && (c1 == 0 && c2 == 0)))
          failing
          (if_intro P
            (ltb c0 e.num_acked_ect0 || (ltb c1 e.num_acked_ect1 || ltb c2 e.num_acked_ecnce))
            failing
            (if_intro P
              (ltb (c0 - e.num_acked_ect0 + (c2 - e.num_acked_ecnce)) (count_marked e is_ect0 pns))
              failing
              (if_intro P
                (ltb (c1 - e.num_acked_ect1 + (c2 - e.num_acked_ecnce))
                  (count_marked e is_ect1 pns))
                failing (confirming (grind arith) (grind arith)))))))

pub acked_edge :
    (e : EcnTracker) (pns : List ℕ) (c0 c1 c2 : ℕ)
    → e.state ⟶ (handle_newly_acked e pns c0 c1 c2).1.state
acked_edge e pns c0 c1 c2 =
    handled (λ r. e.state ⟶ r.1.state) e pns c0 c1 c2 stay fails
      (λ _ _.
        confirm_edge (record e { num_acked_ect0 = c0; num_acked_ect1 = c1; num_acked_ecnce = c2 })
          pns (c0 - e.num_acked_ect0) (c1 - e.num_acked_ect1) (c2 - e.num_acked_ecnce))

pub lost_edge : (e : EcnTracker) (pn : ℕ) → e.state ⟶ (lost_packet e pn).state
unfolding lost_packet fail_if_mangled
lost_edge e pn = grind (arith, edges)

-- A packet is sent with the marking that `Mode` answers.
unfoldable pub send : EcnTracker → ℕ → Result Panic EcnTracker
send e pn = let (ecn, e1) = mode e in sent_packet e1 pn ecn

-- What the connection does with the tracker.
pub data Call : Type 0 where
  sends : (pn : ℕ) → Call
  lost : (pn : ℕ) → Call
  acked : (pns : List ℕ) → (ect0_count ect1_count ce_count : ℕ) → Call

unfoldable pub after_call : Call → EcnTracker → Result Panic EcnTracker
after_call (sends pn) e = send e pn
after_call (lost pn) e = ok (lost_packet e pn)
after_call (acked pns c0 c1 cc) e = ok (handle_newly_acked e pns c0 c1 cc).1
