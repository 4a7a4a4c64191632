-- ===== src/Wire/PacketNumber.antt =====
-- The packet number at the end of a header: `appendPacketNumber` of
-- internal/wire/extended_header.go and `readPacketNumber` of internal/wire/header.go.
use uquic.Shared.{
  ℕ, ◌+◌, ◌*◌, ◌/◌, ◌%◌, ◌^◌, ◌≡◌, refl, inl, inr, List, [], ◌∷◌, ◌++◌, arith, ◌==◌, if◌then◌else◌,
  Result, ok, err, length, drop,
}
use uquic.Protocol.PacketNumber.{IsWidth, truncate}

-- The errors of the headers. `out_of_range` is the panic of an index or a slice out of range.
pub data HeaderError : Type 0 where
  eof unexpected_eof not_short_header not_long_header not_quic_packet : HeaderError
  invalid_packet_number_length invalid_connection_id_length unsupported_version : HeaderError
  packet_too_short out_of_range : HeaderError

-- encoding/binary's PutUint16 and PutUint32, for a value cut to that width.
abbrev pub put_uint16 : ℕ → List ℕ
put_uint16 x = (x / 2 ^ 8 % 2 ^ 8) ∷ (x % 2 ^ 8) ∷ []

abbrev pub put_uint32 : ℕ → List ℕ
put_uint32 x = (x / 2 ^ 24 % 2 ^ 8) ∷ (x / 2 ^ 16 % 2 ^ 8) ∷ (x / 2 ^ 8 % 2 ^ 8) ∷ (x % 2 ^ 8) ∷ []

-- Their inverses, on the bytes that stand in front.
abbrev pub uint16 : List ℕ → Result HeaderError ℕ
uint16 (a ∷ b ∷ more) = ok (a * 2 ^ 8 + b)
uint16 _ = err out_of_range

abbrev pub uint24 : List ℕ → Result HeaderError ℕ
uint24 (a ∷ b ∷ c ∷ more) = ok (a * 2 ^ 16 + b * 2 ^ 8 + c)
uint24 _ = err out_of_range

abbrev pub uint32 : List ℕ → Result HeaderError ℕ
uint32 (a ∷ b ∷ c ∷ d ∷ more) = ok (a * 2 ^ 24 + b * 2 ^ 16 + c * 2 ^ 8 + d)
uint32 _ = err out_of_range

abbrev pub first_byte_of : List ℕ → Result HeaderError ℕ
first_byte_of (a ∷ more) = ok a
first_byte_of [] = err out_of_range

unfoldable pub append_packet_number : List ℕ → ℕ → ℕ → Result HeaderError (List ℕ)
append_packet_number b pn pn_len =
    if pn_len == 1
    then ok (b ++ ((pn % 2 ^ 8) ∷ []))
    else if pn_len == 2
    then ok (b ++ put_uint16 (pn % 2 ^ 16))
    else if pn_len == 3
    then ok (b ++ drop 1 (put_uint32 (pn % 2 ^ 32)))
    else if pn_len == 4
    then ok (b ++ put_uint32 (pn % 2 ^ 32))
    else err invalid_packet_number_length

unfoldable pub read_packet_number : List ℕ → ℕ → Result HeaderError ℕ
read_packet_number b pn_len =
    if pn_len == 1
    then first_byte_of b
    else if pn_len == 2
    then uint16 b
    else if pn_len == 3
    then uint24 b
    else if pn_len == 4
    then uint32 b
    else err invalid_packet_number_length

-- What is written at one of the four widths is read back as the low bytes.
pub read-append_packet_number :
    (b : List ℕ) (pn w : ℕ) (more : List ℕ)
    → IsWidth w
    → (e : List ℕ) × (append_packet_number b pn w ≡ ok (b ++ e))
      × (length e ≡ w)
      × (read_packet_number (e ++ more) w ≡ ok (truncate w pn))
unfolding append_packet_number read_packet_number
read-append_packet_number b pn w more (inl e) = rw e (_, refl, refl, ground arith)
read-append_packet_number b pn w more (inr (inl e)) = rw e (_, refl, refl, ground arith)
read-append_packet_number b pn w more (inr (inr (inl e))) = rw e (_, refl, refl, ground arith)
read-append_packet_number b pn w more (inr (inr (inr e))) = rw e (_, refl, refl, ground arith)
