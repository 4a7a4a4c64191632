-- ===== src/AckHandler/Space/Steps.antt =====
-- Packets sent with the packet numbers that the generator gives out.
use uquic.Shared.{
  ℕ, ◌+◌, ◌-◌, ◌≡◌, refl, sym, ap, ◌∙◌, Bool, true, false, ◌&&◌, some, arith, ◌==◌, if◌then◌else◌,
  if_of_true, if_of_false, if_intro_known, Result, ok, Panic, ◌>>=◌, ==_iff,
}
use uquic.AckHandler.Sent.{Packet, SentHistory, follows, sent_ack_eliciting_packet}
use uquic.AckHandler.Sent.State.{IsTracked}
use uquic.AckHandler.Sent.Sends.{skips-SendsAt, eliciting-SendsAt}
use uquic.AckHandler.Space.{
  Generator, sequential_generator, skipping_generator, generate_new_skip, peek, pop,
  PacketNumberSpace, skip_before, pop_packet_number,
}

abbrev finish_send : Packet → ℕ × PacketNumberSpace → Result Panic (ℕ × PacketNumberSpace)
finish_send p (pn, space) = do
  history ← sent_ack_eliciting_packet space.history (record p { packet_number = pn })
  ok (pn, record space { history = history })

-- A packet number is popped, and an ack-eliciting packet is sent with it.
unfoldable pub send_next : PacketNumberSpace → ℕ → Packet → Result Panic (ℕ × PacketNumberSpace)
send_next space drawn p = pop_packet_number space drawn >>= finish_send p

abbrev pub next_of : Generator → ℕ
next_of (sequential_generator next) = next
next_of (skipping_generator period max_period next next_to_skip) = next

-- The history is tracked, and the generator goes on where it ends.
pub record InStep (space : PacketNumberSpace) : Type 0 where
  pub tracked : IsTracked space.history
  pub next : follows space.history.highest_packet_number (next_of space.pns) ≡ true

-- What a pop gives out: one past the next number if that is skipped, and the generator goes on after it.
abbrev Pops : Generator → Bool × (ℕ × Generator) → Type 0
Pops g r =
    (r.1.0 ≡ next_of g + (if r.0 then 1 else 0))
    × ((peek g ≡ r.1.0)
        × ((next_of r.1.1 ≡ r.1.0 + 1) × ((d : ℕ) → (r.0 && (pop r.1.1 d).0) ≡ false)))

pop_lem : (g : Generator) (drawn : ℕ) → Pops g (pop g drawn)
unfolding pop peek generate_new_skip
pop_lem (sequential_generator next) drawn = (omega arith, (refl, (refl, λ d. refl)))
pop_lem (skipping_generator period max_period next next_to_skip) drawn =
    if_intro_known (Pops (skipping_generator period max_period next next_to_skip))
      (next == next_to_skip)
      (λ skip. (
        refl,
        (
          if_of_true (next == next_to_skip) _ _ skip,
          (
            omega arith,
            λ d.
                if_intro_known (λ (r : Bool × (ℕ × Generator)). r.0 ≡ false)
                  (next + 2 == next + 2 + 3 + drawn) (λ same. absurd (grind arith)) (λ _. refl),
          ),
        ),
      ))
      (λ other. (omega arith, (if_of_false (next == next_to_skip) _ _ other, (refl, λ d. refl))))

-- The history after the number before a popped one was skipped, if it was.
IsReady : SentHistory → ℕ → Type 0
IsReady h pn = IsTracked h × (follows h.highest_packet_number pn ≡ true)

skip_before-IsReady :
    (skipped : Bool) (n pn : ℕ) (h : SentHistory)
    → IsTracked h
    → follows h.highest_packet_number n ≡ true
    → pn ≡ n + (if skipped then 1 else 0)
    → (h' : SentHistory) × ((skip_before skipped pn h ≡ ok h') × IsReady h' pn)
unfolding IsReady
skip_before-IsReady true n pn h tracked next at =
    let (h', (skips, (tracked', is))) =
      skips-SendsAt h (pn - 1) tracked
        (ap (follows h.highest_packet_number) (omega arith) ∙ next) in
    (h', (skips, (tracked', ap (λ o. follows o pn) is ∙ (==_iff pn (pn - 1 + 1)).1 (omega arith))))
skip_before-IsReady false n pn h tracked next at =
    (h, (refl, (tracked, ap (follows h.highest_packet_number) (omega arith) ∙ next)))

-- In a space whose generator goes on where its history ends, popping a packet number and sending an
-- ack-eliciting packet with it does not panic. The number is the one that PeekPacketNumber announced,
-- it is the highest sent, the space stays in step, and if a number was skipped, the next pop skips none.
pub send_next-InStep :
    (space : PacketNumberSpace) (drawn : ℕ) (p : Packet)
    → InStep space
    → (space' : PacketNumberSpace) × ((send_next space drawn p ≡ ok (peek space.pns, space'))
        × (InStep space'
            × ((space'.history.highest_packet_number ≡ some (peek space.pns))
                × ((d : ℕ) → ((pop space.pns drawn).0 && (pop space'.pns d).0) ≡ false))))
unfolding send_next pop_packet_number IsReady
send_next-InStep space drawn p step =
    let r = pop space.pns drawn in
    let (at, (peeked, (goes_on, no_two))) = pop_lem space.pns drawn in
    let (h1, (skipped, (tracked1, next1))) =
      skip_before-IsReady r.0 (next_of space.pns) r.1.0 space.history step.tracked step.next at in
    let (h2, (sent, (tracked2, is))) =
      eliciting-SendsAt h1 (record p { packet_number = r.1.0 }) tracked1 next1 in
    (
      record space { history = h2; pns = r.1.1 },
      (
        ap
              (λ x.
                x
                >>= (λ h. ok (r.1.0, record space { history = h; pns = r.1.1 }))
                >>= finish_send p)
              skipped
            ∙ (ap (λ x. x >>= λ h. ok (r.1.0, record space { history = h; pns = r.1.1 })) sent
                ∙ ap (λ n. ok (n, record space { history = h2; pns = r.1.1 })) (sym peeked)),
        (
          record {
            tracked = tracked2;
            next =
                ap (λ o. follows o (next_of r.1.1)) is
                ∙ (==_iff (next_of r.1.1) (r.1.0 + 1)).1 goes_on;
          },
          (is ∙ ap some (sym peeked), no_two),
        ),
      ),
    )
