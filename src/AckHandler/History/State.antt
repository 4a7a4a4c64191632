-- ===== src/AckHandler/History/State.antt =====
-- The history as a whole: its invariant, and the packet numbers it holds.
use uquic.Shared.{
  if_intro, take_all, length-take-le, ℕ, zero, suc, ◌≤◌, max, ◌≡◌, refl, ◌∙◌, ◌⊎◌, inl, inr, Bool,
  true, false, not, ◌&&◌, ◌||◌, List, [], ◌∷◌, arith, ltb, leb, ◌==◌, if◌then◌else◌, Bool-cases,
  length, take,
}
use native.Mathlib.Nat.{le_trans}
use uquic.AckHandler.History.{
  Interval, History, max_num_ack_ranges, new_history, add_loop, add_to_ranges, received_packet,
  delete_below, is_potentially_duplicate,
}
use uquic.AckHandler.History.Ranges.{
  covers, Under, IsGapped, covers-add_loop, add_loop-IsGapped, is_potentially_duplicate_loop-covers,
}
use uquic.AckHandler.History.Delete.{
  trim, delete_loop-trim, trim-IsGapped, covers-trim, length-trim,
}

-- The packet numbers that the history counts as received: those in a range.
unfoldable pub holds : History → ℕ → Bool
holds h q = covers h.ranges q

pub record IsValid (h : History) : Type 0 where
  pub gapped : IsGapped h.ranges
  pub few : length h.ranges ≤ max_num_ack_ranges

pub new_history-IsValid : IsValid new_history
unfolding new_history
new_history-IsValid = omega arith

take-Under : (m n : ℕ) (rs : List Interval) → Under n rs → Under n (take m rs)
take-Under zero n rs u = tt
take-Under (suc m) n [] u = u
take-Under (suc m) n (r ∷ rest) u = u

take-IsGapped : (m : ℕ) (rs : List Interval) → IsGapped rs → IsGapped (take m rs)
take-IsGapped zero rs g = tt
take-IsGapped (suc m) [] g = tt
take-IsGapped (suc m) (r ∷ rest) (h, u, g) =
    (h, take-Under m r.start rest u, take-IsGapped m rest g)

-- The ranges after a packet: the new ones, cut to the highest 32.
pub received_packet_ranges :
    (h : History) (p : ℕ)
    → (received_packet h p).0.ranges ≡ (
        if ltb p h.deleted_below then h.ranges else take max_num_ack_ranges (add_loop p h.ranges).0)
unfolding received_packet add_to_ranges
received_packet_ranges h p = ground (arith, take_all max_num_ack_ranges (add_loop p h.ranges).0)

-- A received packet leaves the ranges in order and at most 32 of them.
pub received_packet-IsValid : (h : History) (p : ℕ) → IsValid h → IsValid (received_packet h p).0
received_packet-IsValid h p v = record {
  gapped = rw (received_packet_ranges h p) (
      if_intro IsGapped (ltb p h.deleted_below) v.gapped
        (take-IsGapped max_num_ack_ranges _ (add_loop-IsGapped p h.ranges v.gapped)));
  few = rw (received_packet_ranges h p) (
      if_intro (λ rs. length rs ≤ max_num_ack_ranges) (ltb p h.deleted_below) v.few
        (length-take-le max_num_ack_ranges (add_loop p h.ranges).0));
}

pub received_packet_new :
    (h : History) (p : ℕ)
    → (received_packet h p).1 ≡ (not (ltb p h.deleted_below) && (add_loop p h.ranges).1)
unfolding received_packet add_to_ranges
received_packet_new h p = ground arith

covers_if :
    (b : Bool) (xs ys : List Interval) (q : ℕ) (e : Bool)
    → covers ys q ≡ (e || covers xs q)
    → covers (if b then xs else ys) q ≡ ((e && not b) || covers xs q)
covers_if true xs ys q e h = ground arith
covers_if false xs ys q e h = h ∙ ground arith

-- While there are at most 32 ranges, a packet number that is not below the deletion limit is added,
-- and nothing else changes. The answer says whether the packet is new: not below the limit, and not
-- held before.
pub holds-received_packet :
    (h : History) (p q : ℕ)
    → IsValid h
    → length (add_loop p h.ranges).0 ≤ max_num_ack_ranges
    → (holds (received_packet h p).0 q ≡ ((q == p && not (ltb p h.deleted_below)) || holds h q))
      × ((received_packet h p).1 ≡ (not (ltb p h.deleted_below) && not (holds h p)))
unfolding holds
holds-received_packet h p q v few =
    let (adds, new) = covers-add_loop p q h.ranges v.gapped in
    (
      rw (received_packet_ranges h p, take_all max_num_ack_ranges (add_loop p h.ranges).0 few)
          (covers_if (ltb p h.deleted_below) h.ranges (add_loop p h.ranges).0 q (q == p) adds),
      received_packet_new h p ∙ rw new,
    )

covers-take : (n q : ℕ) (rs : List Interval) → covers (take n rs) q ≡ true → covers rs q ≡ true
covers-take zero q rs h = cc
covers-take (suc n) q [] h = h
covers-take (suc n) q (r ∷ rest) h = ground (arith, covers-take n q rest)

covers_if_sound :
    (b : Bool) (xs ys zs : List Interval) (p q : ℕ)
    → covers zs q ≡ (q == p || covers xs q)
    → (covers ys q ≡ true → covers zs q ≡ true)
    → covers (if b then xs else ys) q ≡ true
    → (q ≡ p) ⊎ (covers xs q ≡ true)
covers_if_sound true xs ys zs p q e f h = inr h
covers_if_sound false xs ys zs p q e f h = let k = f h in ground arith

-- However many ranges there are, no packet number is held that was neither held before nor received.
pub received_packet_sound :
    (h : History) (p q : ℕ)
    → IsValid h
    → holds (received_packet h p).0 q ≡ true
    → (q ≡ p) ⊎ (holds h q ≡ true)
unfolding holds
received_packet_sound h p q v e =
    let rs = (add_loop p h.ranges).0 in
    covers_if_sound (ltb p h.deleted_below) h.ranges (take max_num_ack_ranges rs) rs p q
      (covers-add_loop p q h.ranges v.gapped).0 (covers-take max_num_ack_ranges q rs)
      (rw (received_packet_ranges h p) at e)

delete_below_ranges :
    (h : History) (p : ℕ)
    → IsGapped h.ranges
    → (delete_below h p).ranges ≡ (if ltb p h.deleted_below then h.ranges else trim p h.ranges)
delete_below_ranges h p g =
    unfold delete_below in
    elim (Bool-cases (ltb p h.deleted_below)) [
      | inl e ↦ rw e
      | inr e ↦ rw e (delete_loop-trim p h.ranges g)
    ]

pub delete_below-IsValid : (h : History) (p : ℕ) → IsValid h → IsValid (delete_below h p)
delete_below-IsValid h p v = record {
  gapped =
      rw (delete_below_ranges h p v.gapped)
        (if_intro IsGapped (ltb p h.deleted_below) v.gapped (trim-IsGapped p h.ranges v.gapped));
  few = rw (delete_below_ranges h p v.gapped) (
      if_intro (λ rs. length rs ≤ max_num_ack_ranges) (ltb p h.deleted_below) v.few
        (le_trans (length-trim p h.ranges) v.few));
}

covers_kept :
    (b c : Bool) (xs ys : List Interval) (q : ℕ)
    → covers ys q ≡ (c && covers xs q)
    → covers (if b then xs else ys) q ≡ ((b || c) && covers xs q)
covers_kept true c xs ys q e = refl
covers_kept false c xs ys q e = e

-- `DeleteBelow` forgets the packet numbers below `p` and no others; if `p` is below the deletion
-- limit it does nothing. Otherwise `p` is the new limit. The ranges stay in order and at most 32.
pub holds-delete_below :
    (h : History) (p q : ℕ)
    → IsValid h
    → (holds (delete_below h p) q ≡ ((ltb p h.deleted_below || leb p q) && holds h q))
      × ((delete_below h p).deleted_below ≡ max p h.deleted_below)
      × IsValid (delete_below h p)
unfolding holds
holds-delete_below h p q v = (
  rw (delete_below_ranges h p v.gapped) (
      covers_kept (ltb p h.deleted_below) (leb p q) h.ranges (trim p h.ranges) q
        (covers-trim p q h.ranges v.gapped)),
  unfold delete_below in ground arith,
  delete_below-IsValid h p v,
)

or_of_if : (b c : Bool) → (if b then true else c) ≡ (b || c)
or_of_if true c = refl
or_of_if false c = refl

-- A packet counts as a possible duplicate exactly if it is held or below the deletion limit.
pub is_potentially_duplicate-holds :
    (h : History) (p : ℕ)
    → IsValid h
    → is_potentially_duplicate h p ≡ (ltb p h.deleted_below || holds h p)
unfolding holds is_potentially_duplicate
is_potentially_duplicate-holds h p v =
    rw (is_potentially_duplicate_loop-covers p h.ranges v.gapped)
      (or_of_if (ltb p h.deleted_below) (covers h.ranges p))

-- Any sequence of packets and deletions.
pub data Event : Type 0 where
  receive delete : ℕ → Event

unfoldable pub step : History → Event → History
step h (receive p) = (received_packet h p).0
step h (delete p) = delete_below h p

unfoldable pub run : History → List Event → History
run h [] = h
run h (e ∷ es) = run (step h e) es

step-IsValid : (h : History) (e : Event) → IsValid h → IsValid (step h e)
unfolding step
step-IsValid h (receive p) v = received_packet-IsValid h p v
step-IsValid h (delete p) v = delete_below-IsValid h p v

run-IsValid : (h : History) (es : List Event) → IsValid h → IsValid (run h es)
unfolding run
run-IsValid h [] v = v
run-IsValid h (e ∷ es) v = run-IsValid (step h e) es (step-IsValid h e v)

-- After any sequence of received packets and deletions the ranges are in order, apart, and at most 32.
pub run-new_history-IsValid : (es : List Event) → IsValid (run new_history es)
run-new_history-IsValid es = run-IsValid new_history es new_history-IsValid
