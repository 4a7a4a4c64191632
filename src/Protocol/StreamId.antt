-- ===== src/Protocol/StreamId.antt =====
-- internal/protocol/stream.go and perspective.go: stream IDs and the numbers of streams. Both are int64: a
-- number below 2^64 stands for the bits of one, so from 2^63 on for a negative one. Sums wrap, and division
-- and remainder round towards 0.
use uquic.Shared.{
  ℕ, ◌+◌, ◌-◌, ◌*◌, ◌/◌, ◌%◌, ◌^◌, ◌≤◌, ◌<◌, ◌≡◌, ◌↔◌, Bool, arith, leb, ◌==◌, if◌then◌else◌,
}
use uquic.Wire.Frame.{StreamType, uni, bidi}

pub data Perspective : Type 0 where
  server client : Perspective

unfoldable pub opposite : Perspective → Perspective
opposite server = client
opposite client = server

abbrev pub first_id : StreamType → Perspective → ℕ
first_id bidi client = 0
first_id bidi server = 1
first_id uni client = 2
first_id uni server = 3

-- The bits of -1.
abbrev pub invalid_stream_id : ℕ
invalid_stream_id = 2 ^ 64 - 1

unfoldable pub is_negative : ℕ → Bool
is_negative bits = leb (2 ^ 63) bits

-- `StreamNum.StreamID`; a peer opens at most 2^60 streams, and from number 2^61 + 1 on the ID would wrap.
unfoldable pub stream_id : ℕ → StreamType → Perspective → ℕ
stream_id s typ pers =
    if s == 0
    then invalid_stream_id
    else (first_id typ pers + 4 * ((s + 2 ^ 64 - 1) % 2 ^ 64)) % 2 ^ 64

unfoldable pub initiated_by : ℕ → Perspective
initiated_by id = if id % 2 == 0 then client else server

-- `StreamID.Type`; the remainder of a negative ID is not positive.
unfoldable pub stream_type_of : ℕ → StreamType
stream_type_of id = if is_negative id then bidi else if leb 2 (id % 4) then uni else bidi

unfoldable pub stream_num : ℕ → ℕ
stream_num id = if is_negative id then (2 ^ 64 - (2 ^ 64 - id) / 4 + 1) % 2 ^ 64 else id / 4 + 1

-- For numbers up to 2^61 and IDs that are not negative, a stream ID says which stream it is and no two
-- streams share one: number, type and initiator of a stream can be read off its ID, for every such number
-- but 0; and every such ID is that of the stream that is read off it.
pub stream_id_iff :
    (s : ℕ) (typ : StreamType) (pers : Perspective) (id : ℕ)
    → s ≤ 2 ^ 61
    → id < 2 ^ 63
    → (stream_id s typ pers ≡ id)
      ↔ ((stream_num id ≡ s) × (stream_type_of id ≡ typ) × (initiated_by id ≡ pers))
unfolding stream_id initiated_by stream_type_of stream_num is_negative
stream_id_iff s bidi client id few positive = ground arith
stream_id_iff s bidi server id few positive = ground arith
stream_id_iff s uni client id few positive = ground arith
stream_id_iff s uni server id few positive = ground arith
