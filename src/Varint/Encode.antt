-- ===== src/Varint/Encode.antt =====
-- `Append`, `AppendWithLen` and `Len` in plain arithmetic.
use uquic.Shared.{
  ℕ, ◌+◌, ◌≤◌, ◌<◌, ◌≡◌, List, [], ◌∷◌, ◌++◌, ok, err, panic, leb, if◌then◌else◌, length, All,
  arith,
}
use uquic.Shared.Bits.{bit_or_0x40, bit_or_0x80, bit_or_0xc0}
use uquic.Varint.{
  IsByte, max_var_int1, max_var_int2, max_var_int4, max_var_int8, byte_at, low_bytes, append, len,
}

abbrev pub width : ℕ → ℕ
width i =
    if leb i max_var_int1
    then 1
    else if leb i max_var_int2
    then 2
    else if leb i max_var_int4
    then 4
    else 8

-- The two bits that announce the width stand above the number.
unfoldable pub encoding : ℕ → List ℕ
encoding i =
    if leb i max_var_int1
    then i ∷ []
    else if leb i max_var_int2
    then (byte_at i 1 + 64) ∷ low_bytes 1 i
    else if leb i max_var_int4
    then (byte_at i 3 + 128) ∷ low_bytes 3 i
    else (byte_at i 7 + 192) ∷ low_bytes 7 i

-- `Append` writes the encoding behind what is there.
pub append-encoding : (b : List ℕ) (i : ℕ) → i ≤ max_var_int8 → append b i ≡ ok (b ++ encoding i)
unfolding append encoding
append-encoding b i h =
    ground (arith, bit_or_0x40 (byte_at i 1), bit_or_0x80 (byte_at i 3), bit_or_0xc0 (byte_at i 7))

pub append_too_large : (b : List ℕ) (i : ℕ) → max_var_int8 < i → append b i ≡ err panic
unfolding append
append_too_large b i h = ground arith

pub length-encoding : (i : ℕ) → length (encoding i) ≡ width i
unfolding encoding
length-encoding i = ground arith

pub len-width : (i : ℕ) → i ≤ max_var_int8 → len i ≡ ok (width i)
unfolding len
len-width i h = ground arith

pub encoding-IsByte : (i : ℕ) → i ≤ max_var_int8 → All IsByte (encoding i)
unfolding encoding
encoding-IsByte i h = ground arith
