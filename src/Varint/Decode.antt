-- ===== src/Varint/Decode.antt =====
-- `Parse` and `Read` on any input.
use uquic.Shared.{
  ℕ, ◌/◌, ◌^◌, ◌≤◌, ◌<◌, ◌≡◌, refl, List, [], ◌∷◌, ok, err, if◌then◌else◌, length, All, arith,
  bit_and, drop, ltb,
}
use uquic.Shared.Bits.{agree_below, agree_below→eq, bit_and_0x3f}
use uquic.Varint.{IsByte, eof, max_var_int8, parse, read}
use uquic.Varint.Encode.{width}

-- The width that the first byte announces: 1, 2, 4 or 8.
abbrev pub announced : ℕ → ℕ
announced first = 2 ^ (bit_and first 0xc0 / 2 ^ 6)

pub announced_eq :
    (b : ℕ)
    → b < 256
    → announced b ≡ (if ltb b 64 then 1 else if ltb b 128 then 2 else if ltb b 192 then 4 else 8)
unfolding agree_below
announced_eq = agree_below→eq _ _ 256 refl

-- A number that `Parse` reads from an input of bytes is at most 2^62 - 1. It takes at least one byte
-- and no more than the input has, and the shortest encoding of the number is no longer than that.
pub parse_bounds :
    (b : List ℕ) (v n : ℕ)
    → All IsByte b
    → parse b ≡ ok (v, n)
    → (v ≤ max_var_int8) × (1 ≤ n) × (n ≤ length b) × (width v ≤ n)
unfolding parse
parse_bounds [] v n h e = cc
parse_bounds (b1 ∷ b2 ∷ b3 ∷ b4 ∷ b5 ∷ b6 ∷ b7 ∷ b8 ∷ bs) v n h e =
    ground (arith, announced_eq b1, bit_and_0x3f b1)
parse_bounds (b1 ∷ bs) v n h e = ground (arith, announced_eq b1, bit_and_0x3f b1)

pub read-parse :
    (b : List ℕ)
    → All IsByte b
    → read b ≡ elim (parse b) [ ok (v, n) ↦ ok (v, drop n b) | err e ↦ err eof ]
unfolding parse read
read-parse [] h = refl
read-parse (b1 ∷ b2 ∷ b3 ∷ b4 ∷ b5 ∷ b6 ∷ b7 ∷ b8 ∷ bs) h = ground (arith, announced_eq b1)
read-parse (b1 ∷ bs) h = ground (arith, announced_eq b1)
