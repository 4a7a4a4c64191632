-- ===== src/Wire/Payload.antt =====
-- The frames that carry bytes: crypto_frame.go, new_token_frame.go, stream_frame.go and
-- datagram_frame.go, with their length limits and the splitting of a frame. A parser copies or
-- slices the bytes; which of the two makes no difference to the frame read.
pub mod RoundTrip
use uquic.Shared.{
  ℕ, ◌+◌, ◌-◌, bit_and, Bool, true, false, not, ◌&&◌, Option, none, some, List, [], ◌∷◌, ◌++◌, ltb,
  leb, ◌==◌, if◌then◌else◌, Result, ok, err, Panic, panic, ◌>>=◌, ◌>>◌, guard, length, take, drop,
}
use Prim.Native.Nat.{bit_xor}
use uquic.Varint.{len}
use uquic.Wire.Codec.{Error, eof, empty_token, stream_data_overflow, empty_stream_frame, next, put}
use uquic.Wire.Frame.{
  Frame, crypto, new_token, stream, datagram, StreamFrame, CryptoFrame, DatagramFrame,
  min_stream_frame_buffer_size, max_packet_buffer_size, max_byte_count,
}
use uquic.Wire.Control.{next_bytes}

unfoldable pub parse_crypto_frame : List ℕ → Result Error (Frame × ℕ)
parse_crypto_frame b0 = do
  (offset, b1) ← next b0
  (data_len, b2) ← next b1
  (payload, b3) ← next_bytes data_len b2
  ok (crypto (record { offset = offset; payload = payload }), length b0 - length b3)

unfoldable pub append_crypto_frame : List ℕ → CryptoFrame → Result Error (List ℕ)
append_crypto_frame b0 f = do
  b1 ← put (b0 ++ (0x6 ∷ [])) f.offset
  b2 ← put b1 (length f.payload)
  ok (b2 ++ f.payload)

unfoldable pub parse_new_token_frame : List ℕ → Result Error (Frame × ℕ)
parse_new_token_frame b0 = do
  (token_len, b1) ← next b0
  guard (ltb 0 token_len) empty_token
  (token, b2) ← next_bytes token_len b1
  ok (new_token token, length b0 - length b2)

unfoldable pub append_new_token_frame : List ℕ → List ℕ → Result Error (List ℕ)
append_new_token_frame b0 token = do b1 ← put (b0 ++ (0x7 ∷ [])) (length token); ok (b1 ++ token)

-- A field that is read only if its flag is set, and is 0 otherwise.
unfoldable pub next_if : Bool → List ℕ → Result Error (ℕ × List ℕ)
next_if true b = next b
next_if false b = ok (0, b)

-- The payload: as long as its length field says, or the rest of the packet.
unfoldable pub next_payload : Bool → List ℕ → Result Error (List ℕ × List ℕ)
next_payload true b0 = do (data_len, b1) ← next b0; next_bytes data_len b1
next_payload false b = ok (b, [])

-- A short payload gets its own storage; a longer one has to fit a buffer from the pool.
unfoldable pub fits_buffer : ℕ → Bool
fits_buffer data_len =
    if ltb data_len min_stream_frame_buffer_size then true else leb data_len max_packet_buffer_size

unfoldable pub parse_stream_frame : List ℕ → ℕ → Result Error (Frame × ℕ)
parse_stream_frame b0 typ = do
  let has_offset = ltb 0 (bit_and typ 0x4)
  let fin = ltb 0 (bit_and typ 0x1)
  let has_data_len = ltb 0 (bit_and typ 0x2)
  (stream_id, b1) ← next b0
  (offset, b2) ← next_if has_offset b1
  (payload, b3) ← next_payload has_data_len b2
  guard (fits_buffer (length payload)) eof
  guard (leb (offset + length payload) max_byte_count) stream_data_overflow
  ok (
    stream (record {
      stream_id = stream_id;
      offset = offset;
      payload = payload;
      fin = fin;
      data_len_present = has_data_len;
    }),
    length b0 - length b3,
  )

-- The frame type: FIN, whether there is a length, and whether the offset is 0.
abbrev pub type_bits : Bool → Bool → Bool → ℕ
type_bits fin present at_start =
    let t0 : ℕ = 0x8 in
    let t1 = if fin then bit_xor t0 0x1 else t0 in
    let t2 = if present then bit_xor t1 0x2 else t1 in if at_start then t2 else bit_xor t2 0x4

abbrev pub stream_type : StreamFrame → ℕ
stream_type f = type_bits f.fin f.data_len_present (f.offset == 0)

unfoldable pub put_if : Bool → List ℕ → ℕ → Result Error (List ℕ)
put_if true b v = put b v
put_if false b v = ok b

unfoldable pub append_stream_frame : List ℕ → StreamFrame → Result Error (List ℕ)
append_stream_frame b0 f = do
  guard (not (length f.payload == 0 && not f.fin)) empty_stream_frame
  b1 ← put (b0 ++ (stream_type f ∷ [])) f.stream_id
  b2 ← put_if (not (f.offset == 0)) b1 f.offset
  b3 ← put_if f.data_len_present b2 (length f.payload)
  ok (b3 ++ f.payload)

unfoldable pub len_if : Bool → ℕ → Result Panic ℕ
len_if true v = len v
len_if false v = ok 0

-- `StreamFrame.Length`
unfoldable pub stream_length : StreamFrame → Result Panic ℕ
stream_length f = do
  id_len ← len f.stream_id
  offset_len ← len_if (not (f.offset == 0)) f.offset
  data_len_len ← len_if f.data_len_present (length f.payload)
  ok (1 + id_len + offset_len + data_len_len + length f.payload)

-- What is left for the payload behind a header of `header_len` bytes, one of them for the length
-- field if `present`: a payload whose length takes two bytes gets one byte less.
unfoldable pub payload_room : Bool → ℕ → ℕ → Result Panic ℕ
payload_room present header_len max_size = if ltb max_size header_len then ok 0 else do
  width ← len_if present (max_size - header_len)
  ok (if present && not (width == 1) then max_size - header_len - 1 else max_size - header_len)

-- `StreamFrame.MaxDataLen`
unfoldable pub stream_max_data_len : StreamFrame → ℕ → Result Panic ℕ
stream_max_data_len f max_size = do
  id_len ← len f.stream_id
  offset_len ← len_if (not (f.offset == 0)) f.offset
  payload_room f.data_len_present (1 + id_len + offset_len + (if f.data_len_present then 1 else 0))
      max_size

-- `StreamFrame.MaybeSplitOffFrame`: the frame split off, whether splitting was required, and the
-- frame that remains.
pub record Split (F : Type 0) : Type 0 where
  pub off : Option F
  pub required : Bool
  pub remains : F

unfoldable pub stream_split_at : StreamFrame → ℕ → StreamFrame × StreamFrame
stream_split_at f n = (
  record f { payload = take n f.payload; fin = false },
  record f { payload = drop n f.payload; offset = f.offset + n },
)

-- The remainder is copied to a buffer from the pool, which is cut to its length: that panics if it is
-- longer than the buffer. `n` is at most the length of the payload.
unfoldable pub split_stream : StreamFrame → ℕ → Result Panic (Split StreamFrame)
split_stream f n =
    if n == 0
    then ok (record { off = none; required = true; remains = f })
    else if ltb max_packet_buffer_size (length f.payload - n)
    then err panic
    else let (front, back) = stream_split_at f n in
      ok (record { off = some front; required = true; remains = back })

unfoldable pub maybe_split_stream : StreamFrame → ℕ → Result Panic (Split StreamFrame)
maybe_split_stream f max_size = do
  size ← stream_length f
  if leb size max_size
      then ok (record { off = none; required = false; remains = f })
      else do n ← stream_max_data_len f max_size; split_stream f n

unfoldable pub parse_datagram_frame : List ℕ → ℕ → Result Error (Frame × ℕ)
parse_datagram_frame b0 typ = do
  let present = ltb 0 (bit_and typ 0x1)
  (payload, b1) ← next_payload present b0
  ok (datagram (record { data_len_present = present; payload = payload }), length b0 - length b1)

abbrev pub datagram_type : DatagramFrame → ℕ
datagram_type f = if f.data_len_present then bit_xor 0x30 0x1 else 0x30

unfoldable pub append_datagram_frame : List ℕ → DatagramFrame → Result Error (List ℕ)
append_datagram_frame b0 f = do
  b1 ← put_if f.data_len_present (b0 ++ (datagram_type f ∷ [])) (length f.payload)
  ok (b1 ++ f.payload)
