-- ===== src/Protocol/PacketNumber.antt =====
-- internal/protocol/packet_number.go. A packet number is a natural number, and where the code may
-- hold InvalidPacketNumber, which is -1, an option: `none` is that value.
use uquic.Shared.{
  ℕ, ◌+◌, ◌-◌, ◌*◌, ◌/◌, ◌%◌, ◌^◌, ◌≤◌, ◌<◌, bit_or, ◌≡◌, ◌⊎◌, inl, inr, ◌&&◌, Option, none, some,
  arith, ltb, leb, if◌then◌else◌, length,
}
use uquic.Shared.Fields.{bit_or_sum}

-- `largest + 1`
abbrev pub after : Option ℕ → ℕ
after none = 0
after (some p) = p + 1

-- `expected & ^mask` is the multiple of the window below `expected`. A test on a difference that could
-- be negative is written with a sum.
unfoldable pub decode_packet_number : ℕ → Option ℕ → ℕ → ℕ
decode_packet_number length largest truncated =
    let expected = after largest in
    let win = 2 ^ (length * 8) in
    let hwin = win / 2 in
    let candidate = bit_or (expected / win * win) truncated in
    if leb (candidate + hwin) expected && ltb (candidate + win) (2 ^ 62)
    then candidate + win
    else if ltb (expected + hwin) candidate && leb win candidate
    then candidate - win
    else candidate

-- `numUnacked`; `pn` is above every packet number that was acknowledged.
unfoldable pub num_unacked : ℕ → Option ℕ → ℕ
num_unacked pn none = pn + 1
num_unacked pn (some largest_acked) = pn - largest_acked

unfoldable pub packet_number_length_for_header : ℕ → Option ℕ → ℕ
packet_number_length_for_header pn largest_acked =
    let n = num_unacked pn largest_acked in
    if ltb n (2 ^ 15) then 2 else if ltb n (2 ^ 23) then 3 else 4

-- The receiver knows packet numbers up to `largest`, and `pn` lies within half a window of the next.
abbrev pub IsNear : ℕ → Option ℕ → ℕ → Type 0
IsNear length largest pn =
    (after largest < pn + 2 ^ (length * 8) / 2) × (pn ≤ after largest + 2 ^ (length * 8) / 2)

module _ (largest : Option ℕ) (pn : ℕ) (small : pn < 2 ^ 62) where
  near_one : IsNear 1 largest pn → decode_packet_number 1 largest (pn % 2 ^ 8) ≡ pn
  unfolding decode_packet_number
  near_one h = ground (arith, bit_or_sum 8 (after largest / 2 ^ 8) (pn % 2 ^ 8))

  near_two : IsNear 2 largest pn → decode_packet_number 2 largest (pn % 2 ^ 16) ≡ pn
  unfolding decode_packet_number
  near_two h = ground (arith, bit_or_sum 16 (after largest / 2 ^ 16) (pn % 2 ^ 16))

  near_three : IsNear 3 largest pn → decode_packet_number 3 largest (pn % 2 ^ 24) ≡ pn
  unfolding decode_packet_number
  near_three h = ground (arith, bit_or_sum 24 (after largest / 2 ^ 24) (pn % 2 ^ 24))

  near_four : IsNear 4 largest pn → decode_packet_number 4 largest (pn % 2 ^ 32) ≡ pn
  unfolding decode_packet_number
  near_four h = ground (arith, bit_or_sum 32 (after largest / 2 ^ 32) (pn % 2 ^ 32))

-- The packet number that the wire has of it, for the four widths.
abbrev pub truncate : ℕ → ℕ → ℕ
truncate length pn = pn % 2 ^ (length * 8)

abbrev pub IsWidth : ℕ → Type 0
IsWidth w = (w ≡ 1) ⊎ (w ≡ 2) ⊎ (w ≡ 3) ⊎ (w ≡ 4)

-- A packet number within half a window of the one that the receiver expects next is decoded from its
-- low bytes.
pub decode_packet_number-truncate :
    (w : ℕ) (largest : Option ℕ) (pn : ℕ)
    → IsWidth w
    → pn < 2 ^ 62
    → IsNear w largest pn
    → decode_packet_number w largest (truncate w pn) ≡ pn
decode_packet_number-truncate w largest pn (inl e) small near =
    rw e (near_one largest pn small (rw e at near))
decode_packet_number-truncate w largest pn (inr (inl e)) small near =
    rw e (near_two largest pn small (rw e at near))
decode_packet_number-truncate w largest pn (inr (inr (inl e))) small near =
    rw e (near_three largest pn small (rw e at near))
decode_packet_number-truncate w largest pn (inr (inr (inr e))) small near =
    rw e (near_four largest pn small (rw e at near))

pub length_for_header-IsWidth :
    (pn : ℕ) (largest_acked : Option ℕ) → IsWidth (packet_number_length_for_header pn largest_acked)
unfolding packet_number_length_for_header
length_for_header-IsWidth pn largest_acked = ground arith

-- The length that the sender chooses is enough, if at most 2^31 - 1 packets are unacknowledged, the
-- receiver knows the packets it acknowledged, and has not seen packets half a window ahead.
pub length_for_header-IsNear :
    (pn : ℕ) (largest_acked largest : Option ℕ)
    → after largest_acked ≤ pn
    → pn < after largest_acked + 2 ^ 31 - 1
    → after largest_acked ≤ after largest
    → after largest < pn + 2 ^ 15
    → IsNear (packet_number_length_for_header pn largest_acked) largest pn
unfolding packet_number_length_for_header num_unacked
length_for_header-IsNear pn none largest h1 h2 h3 h4 = ground arith
length_for_header-IsNear pn (some a) largest h1 h2 h3 h4 = ground arith
