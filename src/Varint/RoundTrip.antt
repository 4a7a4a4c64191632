-- ===== src/Varint/RoundTrip.antt =====
-- `Parse` and `Read` after `Append` and `AppendWithLen`.
use uquic.Shared.{
  Bool-cases, ◌∙◌, replicate, ℕ, ◌+◌, ◌-◌, ◌*◌, ◌^◌, ◌≤◌, ◌<◌, ◌≡◌, refl, List, [], ◌∷◌, ◌++◌, ok,
  length, All, All-append, drop_append, arith, ◌==◌, inl, inr, ◌⊎◌,
}
use mathlib.Core.List.{append_assoc}
use uquic.Shared.Bits.{bit_and_0x3f}
use uquic.Varint.{
  IsByte, max_var_int8, byte_at, append, append_with_len, append_padded, len_prefix, low_bytes, len,
  parse, read,
}
use uquic.Varint.Encode.{
  width, encoding, encoding-IsByte, append-encoding, length-encoding, len-width,
}
use uquic.Varint.Decode.{announced_eq, read-parse}

two_bytes : (i : ℕ) → i < 2 ^ 14 → byte_at i 0 + byte_at i 1 * 2 ^ 8 ≡ i
two_bytes i h = omega arith

four_bytes :
    (i : ℕ)
    → i < 2 ^ 30
    → byte_at i 0 + byte_at i 1 * 2 ^ 8 + byte_at i 2 * 2 ^ 16 + byte_at i 3 * 2 ^ 24 ≡ i
four_bytes i h = omega arith

eight_bytes :
    (i : ℕ)
    → i < 2 ^ 62
    → byte_at i 0
        + byte_at i 1 * 2 ^ 8
        + byte_at i 2 * 2 ^ 16
        + byte_at i 3 * 2 ^ 24
        + byte_at i 4 * 2 ^ 32
        + byte_at i 5 * 2 ^ 40
        + byte_at i 6 * 2 ^ 48
        + byte_at i 7 * 2 ^ 56
      ≡ i
eight_bytes i h = omega arith

parse_two :
    (x b2 : ℕ) (rest : List ℕ) → x < 64 → parse ((x + 64) ∷ b2 ∷ rest) ≡ ok (b2 + x * 2 ^ 8, 2)
unfolding parse
parse_two x b2 rest h = ground (arith, announced_eq (x + 64), bit_and_0x3f (x + 64))

parse_four :
    (x b2 b3 b4 : ℕ) (rest : List ℕ)
    → x < 64
    → parse ((x + 128) ∷ b2 ∷ b3 ∷ b4 ∷ rest) ≡ ok (b4 + b3 * 2 ^ 8 + b2 * 2 ^ 16 + x * 2 ^ 24, 4)
unfolding parse
parse_four x b2 b3 b4 rest h = ground (arith, announced_eq (x + 128), bit_and_0x3f (x + 128))

parse_eight :
    (x b2 b3 b4 b5 b6 b7 b8 : ℕ) (rest : List ℕ)
    → x < 64
    → parse ((x + 192) ∷ b2 ∷ b3 ∷ b4 ∷ b5 ∷ b6 ∷ b7 ∷ b8 ∷ rest)
      ≡ ok (
        b8
            + b7 * 2 ^ 8
            + b6 * 2 ^ 16
            + b5 * 2 ^ 24
            + b4 * 2 ^ 32
            + b3 * 2 ^ 40
            + b2 * 2 ^ 48
            + x * 2 ^ 56,
        8,
      )
unfolding parse
parse_eight x b2 b3 b4 b5 b6 b7 b8 rest h =
    ground (arith, announced_eq (x + 192), bit_and_0x3f (x + 192))

pub parse_one : (x : ℕ) (rest : List ℕ) → x < 64 → parse (x ∷ rest) ≡ ok (x, 1)
unfolding parse
parse_one x rest h = ground (arith, announced_eq x, bit_and_0x3f x)

pub parse-encoding :
    (i : ℕ) (rest : List ℕ) → i ≤ max_var_int8 → parse (encoding i ++ rest) ≡ ok (i, width i)
unfolding encoding
parse-encoding i rest h = ground (
  arith,
  parse_one i rest,
  parse_two (byte_at i 1) (byte_at i 0) rest,
  two_bytes i,
  parse_four (byte_at i 3) (byte_at i 2) (byte_at i 1) (byte_at i 0) rest,
  four_bytes i,
  parse_eight (byte_at i 7) (byte_at i 6) (byte_at i 5) (byte_at i 4) (byte_at i 3) (byte_at i 2)
      (byte_at i 1) (byte_at i 0) rest,
  eight_bytes i,
)

-- What `Append` writes behind `b` for a number up to 2^62 - 1, `Parse` reads back, whatever follows;
-- it takes as many bytes as `Len` says.
pub parse-append :
    (b : List ℕ) (i : ℕ) (rest : List ℕ)
    → i ≤ max_var_int8
    → (e : List ℕ) × (append b i ≡ ok (b ++ e))
      × (len i ≡ ok (length e))
      × (parse (e ++ rest) ≡ ok (i, length e))
parse-append b i rest h = (
  encoding i,
  append-encoding b i h,
  rw length-encoding (len-width i h),
  rw length-encoding (parse-encoding i rest h),
)

-- What `Append` writes for a number up to 2^62 - 1, `Read` reads back in front of any bytes, and
-- leaves those.
read-append :
    (i : ℕ) (rest : List ℕ)
    → i ≤ max_var_int8
    → All IsByte rest
    → (e : List ℕ) × (append [] i ≡ ok e) × (read (e ++ rest) ≡ ok (i, rest))
read-append i rest h hr = (
  encoding i,
  append-encoding [] i h,
  read-parse (encoding i ++ rest) (All-append _ (encoding i) rest (encoding-IsByte i h) hr)
      ∙ rw (parse-encoding i rest h)
          (rw (← length-encoding i) (rw (drop_append (encoding i) rest))),
)

-- The bytes of `AppendWithLen` where the number does not fill the width.
padding : ℕ → ℕ → ℕ → List ℕ
padding i want l = len_prefix want ++ (replicate (want - l - 1) 0 ++ low_bytes l i)

abbrev Reads : ℕ → List ℕ → ℕ → ℕ → Type 0
Reads i rest want l =
    (parse (padding i want l ++ rest) ≡ ok (i, want)) × (length (padding i want l) ≡ want)

padding_one :
    (i : ℕ) (rest : List ℕ) → i < 2 ^ 6 → Reads i rest 2 1 × Reads i rest 4 1 × Reads i rest 8 1
unfolding padding len_prefix
padding_one i rest h = ground (
  arith,
  parse_two 0 (byte_at i 0) rest,
  parse_four 0 0 0 (byte_at i 0) rest,
  parse_eight 0 0 0 0 0 0 0 (byte_at i 0) rest,
)

padding_two : (i : ℕ) (rest : List ℕ) → i < 2 ^ 14 → Reads i rest 4 2 × Reads i rest 8 2
unfolding padding len_prefix
padding_two i rest h = ground (
  arith,
  parse_four 0 0 (byte_at i 1) (byte_at i 0) rest,
  parse_eight 0 0 0 0 0 0 (byte_at i 1) (byte_at i 0) rest,
)

padding_four : (i : ℕ) (rest : List ℕ) → i < 2 ^ 30 → Reads i rest 8 4
unfolding padding len_prefix
padding_four i rest h =
    ground (arith, parse_eight 0 0 0 0 (byte_at i 3) (byte_at i 2) (byte_at i 1) (byte_at i 0) rest)

-- The pairs of a wider width and the number's own.
parse_padding :
    (i want l : ℕ) (rest : List ℕ)
    → width i ≡ l
    → (want ≡ 1) ⊎ (want ≡ 2) ⊎ (want ≡ 4) ⊎ (want ≡ 8)
    → (l ≡ 1) ⊎ (l ≡ 2) ⊎ (l ≡ 4) ⊎ (l ≡ 8)
    → l < want
    → Reads i rest want l
parse_padding i want l rest e (inl w) c lt = absurd (ground arith)
parse_padding i want l rest e (inr (inl w)) (inl c) lt =
    rw (w, c) (padding_one i rest (ground arith)).0
parse_padding i want l rest e (inr (inr (inl w))) (inl c) lt =
    rw (w, c) (padding_one i rest (ground arith)).1
parse_padding i want l rest e (inr (inr (inr w))) (inl c) lt =
    rw (w, c) (padding_one i rest (ground arith)).2
parse_padding i want l rest e (inr (inr (inl w))) (inr (inl c)) lt =
    rw (w, c) (padding_two i rest (ground arith)).0
parse_padding i want l rest e (inr (inr (inr w))) (inr (inl c)) lt =
    rw (w, c) (padding_two i rest (ground arith)).1
parse_padding i want l rest e (inr (inr (inr w))) (inr (inr (inl c))) lt =
    rw (w, c) (padding_four i rest (ground arith))
parse_padding i want l rest e (inr (inl w)) (inr c) lt = absurd (omega arith)
parse_padding i want l rest e (inr (inr (inl w))) (inr (inr c)) lt = absurd (omega arith)
parse_padding i want l rest e (inr (inr (inr w))) (inr (inr (inr c))) lt = absurd (omega arith)

width_cases : (i : ℕ) → (width i ≡ 1) ⊎ (width i ≡ 2) ⊎ (width i ≡ 4) ⊎ (width i ≡ 8)
width_cases i = ground arith

append_padded_same : (b : List ℕ) (i want l : ℕ) → l ≡ want → append_padded b i want l ≡ append b i
unfolding append_padded
append_padded_same b i want l h = ground arith

append_padded_wide :
    (b : List ℕ) (i want l : ℕ) → l < want → append_padded b i want l ≡ ok (b ++ padding i want l)
unfolding append_padded padding
append_padded_wide b i want l h =
    let zeros : List ℕ = replicate (want - l - 1) 0 in
    ground (
      arith,
      append_assoc (b ++ len_prefix want) zeros (low_bytes l i),
      append_assoc b (len_prefix want) (zeros ++ low_bytes l i),
    )

-- If `want` is 1, 2, 4 or 8 and no less than the width of `i`, which is at most 2^62 - 1,
-- `AppendWithLen` writes `want` bytes behind `b`, and `Parse` reads `i` back from them.
pub parse-append_with_len :
    (b : List ℕ) (i want : ℕ) (rest : List ℕ)
    → i ≤ max_var_int8
    → (want ≡ 1) ⊎ (want ≡ 2) ⊎ (want ≡ 4) ⊎ (want ≡ 8)
    → width i ≤ want
    → (e : List ℕ) × (append_with_len b i want ≡ ok (b ++ e))
      × (length e ≡ want)
      × (parse (e ++ rest) ≡ ok (i, want))
unfolding append_with_len
parse-append_with_len b i want rest h w fits = elim (Bool-cases (width i == want)) [
  | inl same ↦ (
    encoding i,
    ground (arith, len-width i h, append-encoding b i h, append_padded_same b i want (width i)),
    ground (arith, length-encoding i),
    ground (arith, parse-encoding i rest h),
  )
  | inr less ↦
      let r : Reads i rest want (width i) =
        parse_padding i want (width i) rest refl w (width_cases i) (ground arith) in
      (
        padding i want (width i),
        ground (arith, len-width i h, append_padded_wide b i want (width i)),
        r.1,
        r.0,
      )
]
