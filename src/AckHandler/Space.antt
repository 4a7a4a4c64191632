-- ===== src/AckHandler/Space.antt =====
-- internal/ackhandler/packet_number_generator.go, and of sent_packet_handler.go the part of a packet
-- number space that gives out packet numbers. The random number that the generator draws for the
-- next skip is an argument.
mod Steps
mod Runs
use uquic.Shared.{
  ℕ, zero, suc, ◌+◌, ◌-◌, ◌*◌, ◌/◌, ◌%◌, ◌^◌, ◌≤◌, ◌<◌, min, max, bit_and, bit_or, ◌≡◌, refl, sym,
  ap, ◌∙◌, subst, ◌≢◌, ◌↔◌, ◌⊎◌, inl, inr, Bool, true, false, not, ◌&&◌, ◌||◌, Option, none, some,
  List, [], ◌∷◌, ◌++◌, map, reverse, arith, ltb, leb, ◌==◌, if◌then◌else◌, Bool-cases, Option-cases,
  some-injective, Result-cases, Result, ok, err, Panic, panic, ◌>>=◌, ◌>>◌, guard, ltb→lt, lt→ltb,
  leb→le, le→leb, ==_iff, length, get_elem?, get_or, take, drop, replicate, All, length-append,
  length-replicate, length-drop, take_append, drop_append, All-append, All-drop,
}
use uquic.AckHandler.Sent.{
  Packet, SentHistory, new_sent_packet_history, skipped_packet_number, sent_ack_eliciting_packet,
}

-- The two implementations of packetNumberGenerator.
pub data Generator : Type 0 where
  sequential_generator : (next : ℕ) → Generator
  skipping_generator : (period max_period next next_to_skip : ℕ) → Generator

-- generateNewSkip; the number drawn is below twice the period.
unfoldable pub generate_new_skip : (period max_period next drawn : ℕ) → Generator
generate_new_skip period max_period next drawn =
    skipping_generator (min (2 * period) max_period) max_period next (next + 3 + drawn)

unfoldable pub new_skipping_packet_number_generator :
    (initial initial_period max_period drawn : ℕ) → Generator
new_skipping_packet_number_generator initial initial_period max_period drawn =
    generate_new_skip initial_period max_period initial drawn

unfoldable pub peek : Generator → ℕ
peek (sequential_generator next) = next
peek (skipping_generator period max_period next next_to_skip) =
    if next == next_to_skip then next + 1 else next

-- Whether the packet number before was skipped, the packet number, and the generator.
unfoldable pub pop : Generator → ℕ → Bool × (ℕ × Generator)
pop (sequential_generator next) drawn = (false, (next, sequential_generator (next + 1)))
pop (skipping_generator period max_period next next_to_skip) drawn =
    if next == next_to_skip
    then (true, (next + 1, generate_new_skip period max_period (next + 2) drawn))
    else (false, (next, skipping_generator period max_period (next + 1) next_to_skip))

-- packetNumberSpace; a time is a number, 0 the zero time.
pub record PacketNumberSpace : Type 0 where
  pub history : SentHistory
  pub pns : Generator
  pub loss_time : ℕ
  pub last_ack_eliciting_packet_time : ℕ
  pub largest_acked : Option ℕ
  pub largest_sent : Option ℕ

abbrev pub skip_before : Bool → ℕ → SentHistory → Result Panic SentHistory
skip_before true pn history = skipped_packet_number history (pn - 1)
skip_before false pn history = ok history

unfoldable pub pop_packet_number : PacketNumberSpace → ℕ → Result Panic (ℕ × PacketNumberSpace)
pop_packet_number space drawn = do
  let (skipped, (pn, pns)) = pop space.pns drawn
  history ← skip_before skipped pn space.history
  ok (pn, record space { history = history; pns = pns })

unfoldable pub new_packet_number_space : Generator → PacketNumberSpace
new_packet_number_space pns = record {
  history = new_sent_packet_history;
  pns = pns;
  loss_time = 0;
  last_ack_eliciting_packet_time = 0;
  largest_acked = none;
  largest_sent = none;
}
