-- ===== src/Varint/Runs.antt =====
-- Concrete runs of the varint code, and its theorems at concrete inputs.
use uquic.Shared.{
  ℕ, ◌+◌, ◌≤◌, ◌≡◌, refl, inl, inr, List, [], ◌∷◌, ◌++◌, arith, ok, err, panic, length,
}
use uquic.Varint.{
  eof, unexpected_eof, max_var_int8, parse, read, append, append_with_len, append_padded, len,
  len_prefix,
}
use uquic.Varint.Encode.{width}
use uquic.Varint.Decode.{parse_bounds}
use uquic.Varint.RoundTrip.{parse-append, parse-append_with_len}

-- The two-byte example of the specification.
abbrev two_bytes : List ℕ
two_bytes = 0x7b ∷ 0xbd ∷ []

append_15293 : append (1 ∷ []) 15293 ≡ ok (1 ∷ two_bytes)
unfolding append
append_15293 = refl

parse_15293 : parse (0x7b ∷ 0xbd ∷ 9 ∷ []) ≡ ok (15293, 2)
unfolding parse
parse_15293 = refl

parse_cut : parse (0x9d ∷ 0x7f ∷ []) ≡ err unexpected_eof
unfolding parse
parse_cut = refl

read_cut : read (0x9d ∷ 0x7f ∷ []) ≡ err eof
unfolding read
read_cut = refl

append_too_wide : append [] (max_var_int8 + 1) ≡ err panic
unfolding append
append_too_wide = refl

append_with_len_37 : append_with_len [] 37 4 ≡ ok (0x80 ∷ 0 ∷ 0 ∷ 37 ∷ [])
unfolding append_with_len append_padded len_prefix len
append_with_len_37 = refl

parse-append_example :
    (e : List ℕ) × (append (1 ∷ []) 15293 ≡ ok (1 ∷ e))
    × (len 15293 ≡ ok (length e))
    × (parse (e ++ (9 ∷ [])) ≡ ok (15293, length e))
parse-append_example = parse-append (1 ∷ []) 15293 (9 ∷ []) (omega arith)

parse-append_with_len_example :
    (e : List ℕ) × (append_with_len [] 37 4 ≡ ok e)
    × (length e ≡ 4)
    × (parse (e ++ []) ≡ ok (37, 4))
parse-append_with_len_example =
    parse-append_with_len [] 37 4 [] (omega arith) (inr (inr (inl refl))) (omega arith)

parse_bounds_example : (15293 ≤ max_var_int8) × (1 ≤ 2) × (2 ≤ 3) × (width 15293 ≤ 2)
parse_bounds_example = parse_bounds (0x7b ∷ 0xbd ∷ 9 ∷ []) 15293 2 (omega arith) parse_15293
