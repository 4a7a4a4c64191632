-- ===== src/Wire/AckFrame/Ranges.antt =====
-- The order on the ranges that `validateAckRanges` and `parseAckFrame` ask for.
use uquic.Shared.{
  Ensures, Ensures-bind, Ensures-guard, Ensures-true, Ensures-ok, ℕ, zero, suc, ◌+◌, ◌-◌, ◌≤◌, ◌<◌,
  ◌≡◌, refl, ◌≢◌, ◌↔◌, true, List, [], ◌∷◌, arith, leb, ◌==◌, ok,
}
use uquic.Wire.Codec.{next}
use uquic.Wire.AckFrame.{
  AckRange, AckFrame, parse_ranges, all_ordered, all_apart, validate_ack_ranges, parse_ecn,
  parse_ack_frame, ack_ecn_frame_type,
}

-- Every packet number of the first range lies at least two below `n`.
abbrev pub Under : ℕ → List AckRange → Type 0
Under n [] = Unit {0}
Under n (r ∷ rest) = r.largest + 1 < n

-- The ranges are not empty, they fall, and a packet number is missing between any two.
abbrev pub IsGapped : List AckRange → Type 0
IsGapped [] = Unit {0}
IsGapped (r ∷ rest) = (r.smallest ≤ r.largest) × Under r.smallest rest × IsGapped rest

IsGapped-all_apart :
    (r : AckRange) (rest : List AckRange)
    → Under r.smallest rest
    → IsGapped rest
    → all_apart r rest ≡ true
unfolding all_apart
IsGapped-all_apart r [] u g = refl
IsGapped-all_apart r (s ∷ rest) u (h, v, g) = let ih = IsGapped-all_apart s rest v g in ground arith

IsGapped-all_ordered : (rs : List AckRange) → IsGapped rs → all_ordered rs ≡ true
unfolding all_ordered
IsGapped-all_ordered [] g = refl
IsGapped-all_ordered (r ∷ rest) (h, u, g) = let ih = IsGapped-all_ordered rest g in ground arith

all_apart-IsGapped :
    (r : AckRange) (rest : List AckRange)
    → all_ordered rest ≡ true
    → all_apart r rest ≡ true
    → Under r.smallest rest × IsGapped rest
unfolding all_ordered all_apart
all_apart-IsGapped r [] o a = (tt, tt)
all_apart-IsGapped r (s ∷ rest) o a =
    let (u, g) = all_apart-IsGapped s rest (ground arith) (ground arith) in
    (ground arith, (ground arith, u, g))

-- `validateAckRanges` answers true exactly on a list of ranges that is not empty and in order.
pub validate_ack_ranges_iff :
    (rs : List AckRange) → (validate_ack_ranges rs ≡ true) ↔ ((rs ≢ []) × IsGapped rs)
unfolding validate_ack_ranges
validate_ack_ranges_iff [] = (λ e. cc, λ e. absurd (e.0 refl))
validate_ack_ranges_iff (r ∷ rest) = (
  (λ e.
      let (u, g) = all_apart-IsGapped r rest (unfold all_ordered in ground arith) (ground arith) in
      ((λ n. cc), (unfold all_ordered in ground arith, u, g))),
  (λ e.
      let o = IsGapped-all_ordered (r ∷ rest) e.1 in
      let a = IsGapped-all_apart r rest e.1.1 e.1.2 in ground arith),
)

-- The loop's own checks put the ranges in order.
-- The loop's own checks put the ranges in order below `s`.
abbrev InOrder : ℕ → List AckRange × List ℕ → Type 0
InOrder s (rs, rest) = Under s rs × IsGapped rs

parse_ranges-InOrder : (n s : ℕ) (b : List ℕ) → Ensures (InOrder s) (parse_ranges n s b)
unfolding parse_ranges
parse_ranges-InOrder zero s b = (tt, tt)
parse_ranges-InOrder (suc n) s b0 =
    Ensures-bind _ (InOrder s) (next b0) _ (Ensures-true (next b0)) λ (gap, b1) _.
      Ensures-guard (InOrder s) (leb (gap + 2) s) _ _ λ c1.
        Ensures-bind _ (InOrder s) (next b1) _ (Ensures-true (next b1)) λ (ack_block, b2) _.
          Ensures-guard (InOrder s) (leb ack_block (s - gap - 2)) _ _ λ c2.
            Ensures-bind (InOrder (s - gap - 2 - ack_block)) (InOrder s)
              (parse_ranges n (s - gap - 2 - ack_block) b2) _
              (parse_ranges-InOrder n (s - gap - 2 - ack_block) b2)
              λ (rs, b3) (u, g). (ground arith, (omega arith, u, g))

abbrev FrameInOrder : AckFrame × ℕ → Type 0
FrameInOrder (f, n) = (f.ack_ranges ≢ []) × IsGapped f.ack_ranges

checked : (b : List ℕ) (typ exponent : ℕ) → Ensures FrameInOrder (parse_ack_frame b typ exponent)
unfolding parse_ack_frame
checked b0 typ exponent =
    Ensures-bind _ FrameInOrder (next b0) _ (Ensures-true (next b0)) λ (largest, b1) _.
      Ensures-bind _ FrameInOrder (next b1) _ (Ensures-true (next b1)) λ (delay, b2) _.
        Ensures-bind _ FrameInOrder (next b2) _ (Ensures-true (next b2)) λ (blocks, b3) _.
          Ensures-bind _ FrameInOrder (next b3) _ (Ensures-true (next b3)) λ (block, b4) _.
            Ensures-guard FrameInOrder (leb block largest) _ _ λ c.
              Ensures-bind (InOrder (largest - block)) FrameInOrder
                (parse_ranges blocks (largest - block) b4) _
                (parse_ranges-InOrder blocks (largest - block) b4)
                λ (rs, b5) (u, g).
                  Ensures-guard FrameInOrder
                    (validate_ack_ranges
                      (record { smallest = largest - block; largest = largest } ∷ rs))
                    _ _
                    λ _.
                      Ensures-bind _ FrameInOrder (parse_ecn (typ == ack_ecn_frame_type) b5) _
                        (Ensures-true (parse_ecn (typ == ack_ecn_frame_type) b5))
                        λ ((a0, a1, a2), b6) _. ((λ n. cc), (omega arith, u, g))

-- Every frame that `parseAckFrame` accepts has at least one range, and its ranges are in order.
pub parse_ack_frame-IsGapped :
    (b : List ℕ) (typ exponent : ℕ) (f : AckFrame) (n : ℕ)
    → parse_ack_frame b typ exponent ≡ ok (f, n)
    → (f.ack_ranges ≢ []) × IsGapped f.ack_ranges
parse_ack_frame-IsGapped b typ exponent f n e =
    Ensures-ok FrameInOrder (parse_ack_frame b typ exponent) (f, n) (checked b typ exponent) e

pub validate_ack_ranges-parse_ranges :
    (n s l : ℕ) (b : List ℕ) (rs : List AckRange) (rest : List ℕ)
    → s ≤ l
    → parse_ranges n s b ≡ ok (rs, rest)
    → validate_ack_ranges (record { smallest = s; largest = l } ∷ rs) ≡ true
validate_ack_ranges-parse_ranges n s l b rs rest h e =
    let (u, g) =
      Ensures-ok (InOrder s) (parse_ranges n s b) (rs, rest) (parse_ranges-InOrder n s b) e in
    (validate_ack_ranges_iff (record { smallest = s; largest = l } ∷ rs)).1 ((λ n. cc), (h, u, g))
