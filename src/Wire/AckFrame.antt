-- ===== src/Wire/AckFrame.antt =====
-- internal/wire/ack_frame.go and ack_range.go. Packet numbers are natural numbers; a `uint64` or
-- `int64` operation that can wrap is written out modulo 2^64. `DelayTime` is a nonnegative count of
-- nanoseconds.
pub mod Ranges
pub mod Encode
pub mod RoundTrip
pub mod Query
pub mod Delay
use uquic.Shared.{
  ℕ, zero, suc, ◌+◌, ◌-◌, ◌*◌, ◌/◌, ◌%◌, ◌^◌, Bool, true, false, ◌&&◌, ◌||◌, List, [], ◌∷◌, ◌++◌,
  ltb, leb, ◌==◌, if◌then◌else◌, Result, ok, err, Panic, panic, ◌>>=◌, ◌>>◌, guard, length, take,
}
use uquic.Varint
use uquic.Varint.{len, append}
use uquic.Wire.Codec.{Error, invalid_first_ack_range, invalid_ack_ranges, next}

pub record AckRange : Type 0 where
  pub smallest : ℕ
  pub largest : ℕ

-- `AckRange.Len`
unfoldable pub range_len : AckRange → ℕ
range_len r = r.largest + 1 - r.smallest

pub record AckFrame : Type 0 where
  pub ack_ranges : List AckRange
  pub delay_time : ℕ
  pub ect0 : ℕ
  pub ect1 : ℕ
  pub ecnce : ℕ

abbrev pub ack_frame_type : ℕ
ack_frame_type = 0x2

abbrev pub ack_ecn_frame_type : ℕ
ack_ecn_frame_type = 0x3

-- `time.Duration(delay*1<<ackDelayExponent) * time.Microsecond`, as the bits of an int64, and the
-- replacement of a negative value by math.MaxInt64.
unfoldable pub decode_delay : ℕ → ℕ → ℕ
decode_delay exponent delay =
    let bits = delay * 2 ^ exponent % 2 ^ 64 * 1000 % 2 ^ 64 in
    if leb (2 ^ 63) bits then 2 ^ 63 - 1 else bits

-- protocol.AckDelayExponent
abbrev pub ack_delay_exponent : ℕ
ack_delay_exponent = 3

unfoldable pub encode_ack_delay : ℕ → ℕ
encode_ack_delay delay = delay / (1000 * 2 ^ ack_delay_exponent)

-- The loop over the further ranges; `s` is `smallest`.
unfoldable pub parse_ranges : ℕ → ℕ → List ℕ → Result Error (List AckRange × List ℕ)
parse_ranges zero s b = ok ([], b)
parse_ranges (suc n) s b0 = do
  (gap, b1) ← next b0
  guard (leb (gap + 2) s) invalid_ack_ranges
  let largest = s - gap - 2
  (ack_block, b2) ← next b1
  guard (leb ack_block largest) invalid_ack_ranges
  (rs, b3) ← parse_ranges n (largest - ack_block) b2
  ok (record { smallest = largest - ack_block; largest = largest } ∷ rs, b3)

-- The first loop of `validateAckRanges`.
unfoldable pub all_ordered : List AckRange → Bool
all_ordered [] = true
all_ordered (r ∷ rest) = if ltb r.largest r.smallest then false else all_ordered rest

-- The second, from the second range on; `last` is `lastAckRange`.
unfoldable pub all_apart : AckRange → List AckRange → Bool
all_apart last [] = true
all_apart last (r ∷ rest) =
    if leb last.smallest r.smallest
    then false
    else if leb last.smallest (r.largest + 1)
    then false
    else all_apart r rest

unfoldable pub validate_ack_ranges : List AckRange → Bool
validate_ack_ranges [] = false
validate_ack_ranges (r ∷ rest) = all_ordered (r ∷ rest) && all_apart r rest

-- The ECN counts, if the frame type announces them.
unfoldable pub parse_ecn : Bool → List ℕ → Result Error ((ℕ × ℕ × ℕ) × List ℕ)
parse_ecn false b = ok ((0, 0, 0), b)
parse_ecn true b0 = do
  (ect0, b1) ← next b0
  (ect1, b2) ← next b1
  (ecnce, b3) ← next b2
  ok ((ect0, ect1, ecnce), b3)

-- The frame, and how many bytes it took. The frame that the caller passes in is reset before the
-- call, so it starts empty.
unfoldable pub parse_ack_frame : List ℕ → ℕ → ℕ → Result Error (AckFrame × ℕ)
parse_ack_frame b0 typ exponent = do
  (largest_acked, b1) ← next b0
  (delay, b2) ← next b1
  (num_blocks, b3) ← next b2
  (ack_block, b4) ← next b3
  guard (leb ack_block largest_acked) invalid_first_ack_range
  let smallest = largest_acked - ack_block
  (rs, b5) ← parse_ranges num_blocks smallest b4
  let ranges : List AckRange = record { smallest = smallest; largest = largest_acked } ∷ rs
  guard (validate_ack_ranges ranges) invalid_ack_ranges
  ((ect0, ect1, ecnce), b6) ← parse_ecn (typ == ack_ecn_frame_type) b5
  ok (
    record {
      ack_ranges = ranges;
      delay_time = decode_delay exponent delay;
      ect0 = ect0;
      ect1 = ect1;
      ecnce = ecnce;
    },
    length b0 - length b6,
  )

-- `uint64(a - b)`, with `a` and `b` packet numbers
abbrev pub sub64 : ℕ → ℕ → ℕ
sub64 a b = (a + 2 ^ 64 - b) % 2 ^ 64

-- `encodeAckRange(i)` for `i > 0`: the gap to the range before it, and the length.
unfoldable pub encode_ack_range : AckRange → AckRange → ℕ × ℕ
encode_ack_range prev r = (sub64 prev.smallest (r.largest + 2), sub64 r.largest r.smallest)

-- protocol.MaxAckFrameSize
abbrev pub max_ack_frame_size : ℕ
max_ack_frame_size = 1000

-- The loop of `numEncodableAckRanges`, with the ranges from index `i` on.
unfoldable pub num_encodable_loop : ℕ → ℕ → AckRange → List AckRange → Result Panic ℕ
num_encodable_loop i length prev [] = ok i
num_encodable_loop i length prev (r ∷ rest) = do
  let (gap, block) = encode_ack_range prev r
  gap_len ← len gap
  block_len ← len block
  let more = num_encodable_loop (i + 1) (length + (gap_len + block_len)) r rest
  if ltb max_ack_frame_size (length + (gap_len + block_len)) then ok (i - 1) else more

-- `numEncodableAckRanges`, with `f.AckRanges`.
unfoldable pub num_encodable_of : AckFrame → List AckRange → Result Panic ℕ
num_encodable_of f [] = err panic
num_encodable_of f (r ∷ rest) = do
  largest_len ← len r.largest
  delay_len ← len (encode_ack_delay f.delay_time)
  num_encodable_loop 1 (1 + largest_len + delay_len + 2) r rest

unfoldable pub num_encodable_ack_ranges : AckFrame → Result Panic ℕ
num_encodable_ack_ranges f = num_encodable_of f f.ack_ranges

-- The loop of `Append` over the ranges from index 1 on.
unfoldable pub append_ranges : List ℕ → AckRange → List AckRange → Result Panic (List ℕ)
append_ranges b prev [] = ok b
append_ranges b0 prev (r ∷ rest) = do
  let (gap, block) = encode_ack_range prev r
  b1 ← append b0 gap
  b2 ← append b1 block
  append_ranges b2 r rest

unfoldable pub has_ecn : AckFrame → Bool
has_ecn f = ltb 0 f.ect0 || (ltb 0 f.ect1 || ltb 0 f.ecnce)

unfoldable pub append_ecn : List ℕ → AckFrame → Result Panic (List ℕ)
append_ecn b0 f = do b1 ← append b0 f.ect0; b2 ← append b1 f.ect1; append b2 f.ecnce

-- `Append`, with `f.AckRanges`; a frame without ranges panics.
unfoldable pub append_of : List ℕ → AckFrame → List AckRange → Result Panic (List ℕ)
append_of b f [] = err panic
append_of b0 f (r ∷ rest) = do
  let b1 = b0 ++ ((if has_ecn f then ack_ecn_frame_type else ack_frame_type) ∷ [])
  b2 ← append b1 r.largest
  b3 ← append b2 (encode_ack_delay f.delay_time)
  num_ranges ← num_encodable_ack_ranges f
  b4 ← append b3 (sub64 num_ranges 1)
  b5 ← append b4 (sub64 r.largest r.smallest)
  b6 ← append_ranges b5 r (take (num_ranges - 1) rest)
  if has_ecn f then append_ecn b6 f else ok b6

unfoldable pub append_ack_frame : List ℕ → AckFrame → Result Panic (List ℕ)
append_ack_frame b f = append_of b f f.ack_ranges
