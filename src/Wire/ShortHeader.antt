-- ===== src/Wire/ShortHeader.antt =====
-- internal/wire/short_header.go: the header of 1-RTT packets.
use uquic.Shared.{
  ℕ, ◌+◌, ◌-◌, ◌%◌, ◌^◌, ◌≤◌, ◌<◌, bit_and, bit_or, ◌≡◌, refl, ap, ◌∙◌, ◌≢◌, inl, inr, Bool, true,
  not, Option, List, [], ◌∷◌, ◌++◌, arith, ltb, ◌==◌, if◌then◌else◌, Result, ok, err, ◌>>=◌, ◌>>◌,
  guard, length, drop, length-append, drop_append,
}
use mathlib.Core.List.{append_assoc}
use uquic.Protocol.PacketNumber.{
  IsWidth, truncate, after, decode_packet_number, packet_number_length_for_header,
  decode_packet_number-truncate, length_for_header-IsWidth, length_for_header-IsNear,
}
use uquic.Wire.PacketNumber.{
  HeaderError, eof, not_short_header, not_quic_packet, append_packet_number, read_packet_number,
  read-append_packet_number,
}

-- protocol.KeyPhaseBit
pub data KeyPhaseBit : Type 0 where
  undefined zero_phase one_phase : KeyPhaseBit

-- The results of `ParseShortHeader`. It answers ErrInvalidReservedBits beside the other values; here
-- that is the last field.
pub record ShortHeader : Type 0 where
  pub parsed_len : ℕ
  pub packet_number : ℕ
  pub packet_number_len : ℕ
  pub key_phase : KeyPhaseBit
  pub reserved_bits_valid : Bool

abbrev pub key_phase_of : ℕ → KeyPhaseBit
key_phase_of type_byte = if ltb 0 (bit_and type_byte 0b100) then one_phase else zero_phase

unfoldable pub parse_short_header : List ℕ → ℕ → Result HeaderError ShortHeader
parse_short_header [] conn_id_len = err eof
parse_short_header (type_byte ∷ rest) conn_id_len = do
  guard (not (ltb 0 (bit_and type_byte 0x80))) not_short_header
  guard (not (bit_and type_byte 0x40 == 0)) not_quic_packet
  let pn_len = bit_and type_byte 0b11 + 1
  guard (not (ltb (length (type_byte ∷ rest)) (1 + pn_len + conn_id_len))) eof
  pn ← read_packet_number (drop conn_id_len rest) pn_len
  ok (record {
    parsed_len = 1 + conn_id_len + pn_len;
    packet_number = pn;
    packet_number_len = pn_len;
    key_phase = key_phase_of type_byte;
    reserved_bits_valid = bit_and type_byte 0x18 == 0;
  })

-- `uint8(pnLen-1)`, and the key phase bit.
abbrev pub type_byte_of : ℕ → KeyPhaseBit → ℕ
type_byte_of pn_len one_phase = bit_or (bit_or 0x40 ((pn_len + 255) % 2 ^ 8)) 4
type_byte_of pn_len _ = bit_or 0x40 ((pn_len + 255) % 2 ^ 8)

unfoldable pub append_short_header :
    List ℕ → List ℕ → ℕ → ℕ → KeyPhaseBit → Result HeaderError (List ℕ)
append_short_header b conn_id pn pn_len kp =
    append_packet_number ((b ++ (type_byte_of pn_len kp ∷ [])) ++ conn_id) pn pn_len

-- What the type byte says.
abbrev Says : ℕ → ℕ → KeyPhaseBit → Type 0
Says t w kp =
    (not (ltb 0 (bit_and t 0x80)) ≡ true)
    × (not (bit_and t 0x40 == 0) ≡ true)
    × (bit_and t 0b11 + 1 ≡ w)
    × (key_phase_of t ≡ kp)
    × ((bit_and t 0x18 == 0) ≡ true)

type_byte_of-Says :
    (w : ℕ) (kp : KeyPhaseBit) → IsWidth w → kp ≢ undefined → Says (type_byte_of w kp) w kp
type_byte_of-Says w undefined h d = absurd (d refl)
type_byte_of-Says w zero_phase (inl e) d = rw e (refl, refl, refl, refl, refl)
type_byte_of-Says w zero_phase (inr (inl e)) d = rw e (refl, refl, refl, refl, refl)
type_byte_of-Says w zero_phase (inr (inr (inl e))) d = rw e (refl, refl, refl, refl, refl)
type_byte_of-Says w zero_phase (inr (inr (inr e))) d = rw e (refl, refl, refl, refl, refl)
type_byte_of-Says w one_phase (inl e) d = rw e (refl, refl, refl, refl, refl)
type_byte_of-Says w one_phase (inr (inl e)) d = rw e (refl, refl, refl, refl, refl)
type_byte_of-Says w one_phase (inr (inr (inl e))) d = rw e (refl, refl, refl, refl, refl)
type_byte_of-Says w one_phase (inr (inr (inr e))) d = rw e (refl, refl, refl, refl, refl)

-- What follows the header is left alone.
parse_said :
    (t : ℕ) (cid e more : List ℕ) (pn w : ℕ) (kp : KeyPhaseBit)
    → Says t w kp
    → length e ≡ w
    → read_packet_number (e ++ more) w ≡ ok pn
    → parse_short_header (t ∷ (cid ++ (e ++ more))) (length cid)
      ≡ ok (record {
        parsed_len = 1 + length cid + w;
        packet_number = pn;
        packet_number_len = w;
        key_phase = kp;
        reserved_bits_valid = true;
      })
unfolding parse_short_header
parse_said t cid e more pn w kp (s1, s2, s3, s4, s5) le r =
    rw (s1, s2, s3, drop_append cid (e ++ more), r, s4, s5)
      (ground (arith, length-append cid (e ++ more), length-append e more))

-- `AppendShortHeader` writes a header behind `b`, at one of the four packet number lengths and with a
-- key phase that is not undefined, and `ParseShortHeader` reads it back whatever follows, if it knows
-- the length of the connection ID: the low bytes of the packet number, its length, the key phase, and
-- valid reserved bits. It takes as many bytes as were written.
parse-append_short_header :
    (b cid : List ℕ) (pn w : ℕ) (kp : KeyPhaseBit) (more : List ℕ)
    → IsWidth w
    → kp ≢ undefined
    → (e : List ℕ) × (append_short_header b cid pn w kp ≡ ok (b ++ e))
      × (parse_short_header (e ++ more) (length cid)
          ≡ ok (record {
            parsed_len = length e;
            packet_number = truncate w pn;
            packet_number_len = w;
            key_phase = kp;
            reserved_bits_valid = true;
          }))
unfolding append_short_header
parse-append_short_header b cid pn w kp more h d =
    let t = type_byte_of w kp in
    let (e, written, long, read) = read-append_packet_number ((b ++ (t ∷ [])) ++ cid) pn w more h in
    (
      t ∷ (cid ++ e),
      written ∙ ap ok (append_assoc (b ++ (t ∷ [])) cid e ∙ append_assoc b (t ∷ []) (cid ++ e)),
      ap (λ (x : List ℕ). parse_short_header (t ∷ x) (length cid)) (append_assoc cid e more)
          ∙ parse_said t cid e more (truncate w pn) w kp (type_byte_of-Says w kp h d) long read
          ∙ ground (arith, length-append cid e, long),
    )

-- A packet number below 2^62, from the sender's choice of a length to the receiver's decoding, with a key
-- phase that is not undefined. If `pn` is above the largest acknowledged packet number and less than
-- 2^31 past it, and the largest packet number that the receiver has seen is no lower than the largest
-- acknowledged one and less than 2^15 - 1 ahead of `pn`, then the header is written, is parsed whatever
-- follows, and `DecodePacketNumber` makes `pn` of it.
pub decode-parse_short_header :
    (b cid : List ℕ) (pn : ℕ) (largest_acked largest : Option ℕ) (kp : KeyPhaseBit) (more : List ℕ)
    → kp ≢ undefined
    → pn < 2 ^ 62
    → after largest_acked ≤ pn
    → pn < after largest_acked + 2 ^ 31 - 1
    → after largest_acked ≤ after largest
    → after largest < pn + 2 ^ 15
    → (e : List ℕ) × (h : ShortHeader) × (append_short_header b cid pn
          (packet_number_length_for_header pn largest_acked)
          kp
        ≡ ok (b ++ e))
      × (parse_short_header (e ++ more) (length cid) ≡ ok h)
      × (decode_packet_number h.packet_number_len largest h.packet_number ≡ pn)
decode-parse_short_header b cid pn acked largest kp more d small h1 h2 h3 h4 =
    let w = packet_number_length_for_header pn acked in
    let wide = length_for_header-IsWidth pn acked in
    let (e, written, read) = parse-append_short_header b cid pn w kp more wide d in
    (
      e,
      _,
      written,
      read,
      decode_packet_number-truncate w largest pn wide small
          (length_for_header-IsNear pn acked largest h1 h2 h3 h4),
    )
