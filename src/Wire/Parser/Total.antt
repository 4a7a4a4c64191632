-- ===== src/Wire/Parser/Total.antt =====
-- The fuel of the loop of `ParseNext` that skips padding.
use uquic.Shared.{
  ℕ, zero, suc, ◌+◌, ◌≤◌, ◌≢◌, inl, inr, List, [], ◌∷◌, arith, ◌==◌, Bool-cases, Result-cases,
  Result, ok, err, length, drop, All, length-drop, All-drop,
}
use uquic.Varint.{IsByte, parse}
use uquic.Varint.Decode.{parse_bounds}
use uquic.Wire.Codec.{Error}
use uquic.Wire.Frame.{Frame, EncryptionLevel}
use uquic.Wire.Parser.{FrameParser, report, stuck, after_type, parse_next_loop, parse_next}

report-ne-stuck :
    (typ parsed : ℕ) (r : Result (Error × ℕ) (Frame × ℕ)) → report typ parsed r ≢ stuck
unfolding report
report-ne-stuck typ parsed (ok (f, l)) e = cc
report-ne-stuck typ parsed (err (x, l)) e = cc

parse_next_loop-ne-stuck :
    (fuel : ℕ) (p : FrameParser) (b : List ℕ) (parsed : ℕ) (level : EncryptionLevel)
    → All IsByte b
    → length b ≤ fuel
    → parse_next_loop fuel p b parsed level ≢ stuck
unfolding parse_next_loop
parse_next_loop-ne-stuck fuel p [] parsed level h le = λ e. cc
parse_next_loop-ne-stuck zero p (x ∷ b) parsed level h le = absurd (omega arith)
parse_next_loop-ne-stuck (suc fuel) p (x ∷ b) parsed level h le =
    elim (Result-cases (parse (x ∷ b))) [
      | inr (y, q) ↦ rw (q, parse_next_loop) (λ e. cc)
      | inl ((typ, l), q) ↦
          let (_, pos, _, _) = parse_bounds (x ∷ b) typ l h q in
          elim (Bool-cases (typ == 0)) [
            | inl z ↦
                rw (q, z, parse_next_loop)
                  (parse_next_loop-ne-stuck fuel p (drop l (x ∷ b)) (parsed + l) level
                    (All-drop IsByte l (x ∷ b) h) (omega (arith, length-drop l (x ∷ b))))
            | inr n ↦
                rw (q, n, parse_next_loop) (unfold after_type in report-ne-stuck typ (parsed + l) _)
          ]
    ]

-- On every input of bytes the loop of `ParseNext` ends, with a frame, the end of the data or an error.
pub parse_next-ne-stuck :
    (p : FrameParser) (b : List ℕ) (level : EncryptionLevel)
    → All IsByte b
    → parse_next p b level ≢ stuck
unfolding parse_next
parse_next-ne-stuck p b level h = parse_next_loop-ne-stuck (length b) p b 0 level h (omega arith)
