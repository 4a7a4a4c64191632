-- ===== src/AckHandler/History/Forget.antt =====
-- What becomes of a packet number for which there is no room.
use uquic.Shared.{
  ℕ, ◌+◌, ◌≤◌, ◌<◌, ◌≡◌, refl, subst, true, List, [], ◌∷◌, ◌++◌, arith, length, take, All,
  length-append, take_append,
}
use uquic.AckHandler.History.{
  Interval, History, add_loop, add_to_ranges, received_packet, max_num_ack_ranges,
}
use uquic.AckHandler.History.Ranges.{IsGapped}
use uquic.AckHandler.History.State.{IsValid}

-- `p` lies below all ranges, and does not touch the lowest.
abbrev pub IsBelow : ℕ → List Interval → Type 0
IsBelow p rs = All (λ (r : Interval). p + 1 < r.start) rs

add_loop-IsBelow :
    (p : ℕ) (rs : List Interval)
    → IsGapped rs
    → IsBelow p rs
    → add_loop p rs ≡ (rs ++ (record { start = p; end = p } ∷ []), true)
unfolding add_loop
add_loop-IsBelow p [] g b = refl
add_loop-IsBelow p (r ∷ rest) (le, u, g) (l, b) =
    let ih = add_loop-IsBelow p rest g b in ground arith

take-append {ℓ} : {A : Type ℓ} (n : ℕ) (xs ys : List A) → length xs ≡ n → take n (xs ++ ys) ≡ xs
take-append n xs ys e = subst (λ k. take k (xs ++ ys) ≡ xs) e (take_append xs ys)

-- In a full history, a packet number below all ranges is reported as new, and is not kept: the history
-- stays as it is, so that the same packet number is reported as new again. This is so for every packet
-- number from the deletion limit on that does not touch a range.
pub received_packet_forgets :
    (h : History) (p : ℕ)
    → IsValid h
    → length h.ranges ≡ max_num_ack_ranges
    → IsBelow p h.ranges
    → h.deleted_below ≤ p
    → received_packet h p ≡ (h, true)
unfolding received_packet add_to_ranges
received_packet_forgets h p v full below del =
    let e = add_loop-IsBelow p h.ranges v.gapped below in
    let l = length-append h.ranges (record { start = p; end = p } ∷ []) in
    let t = take-append max_num_ack_ranges h.ranges (record { start = p; end = p } ∷ []) full in
    rw (e, t) (ground arith)
