-- ===== src/AckHandler/History/Acks.antt =====
-- `AppendAckRanges` and `GetHighestAckRange` of received_packet_history.go: the history as the ranges
-- of an ACK frame.
use uquic.Shared.{
  ℕ, ◌≡◌, ◌≢◌, refl, ap, sym, subst, ◌∙◌, ok, ◌||◌, true, List, [], ◌∷◌, ◌++◌, arith, leb, ◌&&◌,
}
use uquic.AckHandler.History.{Interval, History}
use uquic.AckHandler.History.Ranges
use uquic.AckHandler.History.Ranges.{covers}
use uquic.AckHandler.History.State.{holds, IsValid}
use uquic.Wire.AckFrame.{AckRange, AckFrame, validate_ack_ranges}
use uquic.Wire.AckFrame.Ranges.{IsGapped, Under, validate_ack_ranges_iff}
use uquic.Wire.AckFrame.Query
use uquic.Wire.AckFrame.Query.{acks_packet, acks_packet-covers}

abbrev pub to_ack_range : Interval → AckRange
to_ack_range r = record { smallest = r.start; largest = r.end }

-- The loop, which goes down the slice.
unfoldable pub append_loop : List AckRange → List Interval → List AckRange
append_loop acks [] = acks
append_loop acks (r ∷ rest) = append_loop (acks ++ (to_ack_range r ∷ [])) rest

unfoldable pub append_ack_ranges : List AckRange → History → List AckRange
append_ack_ranges acks h = append_loop acks h.ranges

unfoldable pub highest_of : List Interval → AckRange
highest_of [] = record { smallest = 0; largest = 0 }
highest_of (r ∷ rest) = to_ack_range r

unfoldable pub get_highest_ack_range : History → AckRange
get_highest_ack_range h = highest_of h.ranges

abbrev to_ack_ranges : List Interval → List AckRange
to_ack_ranges [] = []
to_ack_ranges (r ∷ rest) = to_ack_range r ∷ to_ack_ranges rest

append_step :
    (acks more : List AckRange) (r : AckRange) → (acks ++ (r ∷ [])) ++ more ≡ acks ++ (r ∷ more)
append_step [] more r = refl
append_step (a ∷ acks) more r = ap (λ x. a ∷ x) (append_step acks more r)

append_loop_lem :
    (acks : List AckRange) (rs : List Interval) → append_loop acks rs ≡ acks ++ to_ack_ranges rs
unfolding append_loop
append_loop_lem [] [] = refl
append_loop_lem (a ∷ acks) [] = ap (λ x. a ∷ x) (append_loop_lem acks [])
append_loop_lem acks (r ∷ rest) =
    append_loop_lem (acks ++ (to_ack_range r ∷ [])) rest
    ∙ append_step acks (to_ack_ranges rest) (to_ack_range r)

to_ack_ranges-Under : (n : ℕ) (rs : List Interval) → Ranges.Under n rs → Under n (to_ack_ranges rs)
to_ack_ranges-Under n [] u = u
to_ack_ranges-Under n (r ∷ rest) u = u

to_ack_ranges-IsGapped : (rs : List Interval) → Ranges.IsGapped rs → IsGapped (to_ack_ranges rs)
to_ack_ranges-IsGapped [] g = g
to_ack_ranges-IsGapped (r ∷ rest) (le, u, g) =
    (le, to_ack_ranges-Under r.start rest u, to_ack_ranges-IsGapped rest g)

covers-to_ack_ranges :
    (rs : List Interval) (q : ℕ) → Query.covers (to_ack_ranges rs) q ≡ covers rs q
covers-to_ack_ranges [] q = refl
covers-to_ack_ranges (r ∷ rest) q =
    ap (λ x. (leb r.start q && leb q r.end) || x) (covers-to_ack_ranges rest q)

-- In an ACK frame with the ranges of a valid history that is not empty, `AcksPacket` answers exactly
-- what the history holds; the check of a received frame accepts those ranges.
pub acks_packet-append_ack_ranges :
    (h : History) (f : AckFrame) (q : ℕ)
    → IsValid h
    → h.ranges ≢ []
    → f.ack_ranges ≡ append_ack_ranges [] h
    → (acks_packet f q ≡ ok (holds h q)) × (validate_ack_ranges f.ack_ranges ≡ true)
unfolding append_ack_ranges holds
acks_packet-append_ack_ranges h f q v ne e =
    answer h.ranges v.gapped ne (e ∙ append_loop_lem [] h.ranges)
  where
    answer :
        (rs : List Interval)
        → Ranges.IsGapped rs
        → rs ≢ []
        → f.ack_ranges ≡ to_ack_ranges rs
        → (acks_packet f q ≡ ok (covers rs q)) × (validate_ack_ranges f.ack_ranges ≡ true)
    answer [] g n eq = absurd (n refl)
    answer (r ∷ rest) g n eq =
        let g' = subst IsGapped (sym eq) (to_ack_ranges-IsGapped (r ∷ rest) g) in
        (
          acks_packet-covers f q g' ∙ rw (eq, covers-to_ack_ranges (r ∷ rest) q) (ground arith),
          (validate_ack_ranges_iff f.ack_ranges).1 ((λ z. cc), g'),
        )
