-- ===== src/Varint.antt =====
-- quicvarint/varint.go: QUIC's variable-length integers. A byte slice is a list of numbers below
-- 256; `uint8(x)` is `% 2 ^ 8` and `x >> k` is `/ 2 ^ k`. The sums that `Read` and `Parse` build put
-- bytes at disjoint places, so on bytes they do not pass `maxVarInt8` and no wrap-around arises.
pub mod Encode
pub mod Decode
pub mod RoundTrip
mod Runs
use uquic.Shared.{
  ℕ, zero, suc, ◌+◌, ◌-◌, ◌*◌, ◌/◌, ◌%◌, ◌^◌, ◌<◌, bit_and, bit_or, List, [], ◌∷◌, ◌++◌, ◌||◌,
  Result, ok, err, Panic, panic, ◌>>=◌, ◌>>◌, guard, ltb, leb, ◌==◌, if◌then◌else◌, length, get_or,
  replicate,
}

abbrev pub IsByte : ℕ → Type 0
IsByte b = b < 256

abbrev pub max_var_int1 : ℕ
max_var_int1 = 63

abbrev pub max_var_int2 : ℕ
max_var_int2 = 16383

abbrev pub max_var_int4 : ℕ
max_var_int4 = 1073741823

abbrev pub max_var_int8 : ℕ
max_var_int8 = 4611686018427387903

-- io.EOF and io.ErrUnexpectedEOF
pub data Error : Type 0 where
  eof unexpected_eof : Error

-- `r.ReadByte()`
unfoldable pub read_byte : List ℕ → Result Error (ℕ × List ℕ)
read_byte [] = err eof
read_byte (b ∷ r) = ok (b, r)

-- The number, and what the reader has left.
unfoldable pub read : List ℕ → Result Error (ℕ × List ℕ)
unfolding read_byte
read r0 = do
  (first, r1) ← read_byte r0
  let l = 2 ^ (bit_and first 0xc0 / 2 ^ 6)
  let b1 = bit_and first 0x3f
  if l == 1 then ok (b1, r1) else do
    (b2, r2) ← read_byte r1
    if l == 2 then ok (b2 + b1 * 2 ^ 8, r2) else do
      (b3, r3) ← read_byte r2
      (b4, r4) ← read_byte r3
      if l == 4 then ok (b4 + b3 * 2 ^ 8 + b2 * 2 ^ 16 + b1 * 2 ^ 24, r4) else do
        (b5, r5) ← read_byte r4
        (b6, r6) ← read_byte r5
        (b7, r7) ← read_byte r6
        (b8, r8) ← read_byte r7
        ok (
          b8
              + b7 * 2 ^ 8
              + b6 * 2 ^ 16
              + b5 * 2 ^ 24
              + b4 * 2 ^ 32
              + b3 * 2 ^ 40
              + b2 * 2 ^ 48
              + b1 * 2 ^ 56,
          r8,
        )

-- The number, and how many bytes it took. The indices are in range where they are read.
unfoldable pub parse : List ℕ → Result Error (ℕ × ℕ)
parse [] = err eof
parse (first ∷ rest) =
    let b = first ∷ rest in
    let l = 2 ^ (bit_and first 0xc0 / 2 ^ 6) in
    let b0 = bit_and first 0x3f in
    if ltb (length b) l
    then err unexpected_eof
    else if l == 1
    then ok (b0, 1)
    else if l == 2
    then ok (get_or b 1 0 + b0 * 2 ^ 8, 2)
    else if l == 4
    then ok (get_or b 3 0 + get_or b 2 0 * 2 ^ 8 + get_or b 1 0 * 2 ^ 16 + b0 * 2 ^ 24, 4)
    else ok (
      get_or b 7 0
          + get_or b 6 0 * 2 ^ 8
          + get_or b 5 0 * 2 ^ 16
          + get_or b 4 0 * 2 ^ 24
          + get_or b 3 0 * 2 ^ 32
          + get_or b 2 0 * 2 ^ 40
          + get_or b 1 0 * 2 ^ 48
          + b0 * 2 ^ 56,
      8,
    )

-- `uint8(i >> (8 * k))`
abbrev pub byte_at : ℕ → ℕ → ℕ
byte_at i k = i / 2 ^ (8 * k) % 2 ^ 8

unfoldable pub append : List ℕ → ℕ → Result Panic (List ℕ)
append b i =
    if leb i max_var_int1
    then ok (b ++ ((i % 2 ^ 8) ∷ []))
    else if leb i max_var_int2
    then ok (b ++ (bit_or (byte_at i 1) 0x40 ∷ byte_at i 0 ∷ []))
    else if leb i max_var_int4
    then ok (b ++ (bit_or (byte_at i 3) 0x80 ∷ byte_at i 2 ∷ byte_at i 1 ∷ byte_at i 0 ∷ []))
    else if leb i max_var_int8
    then ok (
        b
        ++ (bit_or (byte_at i 7) 0xc0
            ∷ byte_at i 6
            ∷ byte_at i 5
            ∷ byte_at i 4
            ∷ byte_at i 3
            ∷ byte_at i 2
            ∷ byte_at i 1
            ∷ byte_at i 0
            ∷ []))
    else err panic

unfoldable pub len : ℕ → Result Panic ℕ
len i =
    if leb i max_var_int1
    then ok 1
    else if leb i max_var_int2
    then ok 2
    else if leb i max_var_int4
    then ok 4
    else if leb i max_var_int8
    then ok 8
    else err panic

-- The second loop of `AppendWithLen`: with `n` rounds left the byte is `uint8(i >> (8 * (n - 1)))`.
abbrev pub low_bytes : ℕ → ℕ → List ℕ
low_bytes zero i = []
low_bytes (suc n) i = byte_at i n ∷ low_bytes n i

-- The bits that announce the width.
unfoldable pub len_prefix : ℕ → List ℕ
len_prefix l =
    if l == 2 then 0x40 ∷ [] else if l == 4 then 0x80 ∷ [] else if l == 8 then 0xc0 ∷ [] else []

-- The first loop of `AppendWithLen` puts `want - l - 1` zeros.
unfoldable pub append_padded : List ℕ → ℕ → ℕ → ℕ → Result Panic (List ℕ)
append_padded b i want l =
    if l == want
    then append b i
    else if ltb want l
    then err panic
    else ok (((b ++ len_prefix want) ++ replicate (want - l - 1) 0) ++ low_bytes l i)

unfoldable pub append_with_len : List ℕ → ℕ → ℕ → Result Panic (List ℕ)
append_with_len b i want = do
  guard (want == 1 || (want == 2 || (want == 4 || want == 8))) panic
  l ← len i
  append_padded b i want l
