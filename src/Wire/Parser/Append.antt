-- ===== src/Wire/Parser/Append.antt =====
-- `Append` of the interface `Frame` (internal/wire/frame.go): each frame's own method, and what it
-- writes: the frame type and a body.
use uquic.Shared.{ℕ, ◌≤◌, ◌≡◌, refl, ap, false, List, [], ◌∷◌, ◌++◌, arith, Result, ok, length}
use uquic.Varint.Encode.{encoding}
use uquic.Wire.Codec.{Error, IsVarint, put_one, put_two, put_three, lift_panic}
use uquic.Wire.AckFrame.{append_ack_frame}
use uquic.Wire.Frame.{
  Frame, ping, ack, reset_stream, stop_sending, crypto, new_token, stream, max_data,
  max_stream_data, max_streams, data_blocked, stream_data_blocked, streams_blocked,
  new_connection_id, retire_connection_id, path_challenge, path_response, connection_close,
  handshake_done, datagram, uni, bidi, StreamType, max_stream_count,
}
use uquic.Wire.Control.{
  append_reset_stream_frame, append_stop_sending_frame, append_max_data_frame,
  append_max_stream_data_frame, append_max_streams_frame, append_data_blocked_frame,
  append_stream_data_blocked_frame, append_streams_blocked_frame, append_new_connection_id_frame,
  append_retire_connection_id_frame, append_path_challenge_frame, append_path_response_frame,
  append_connection_close_frame,
}
use uquic.Wire.Control.RoundTrip.{tag}
use uquic.Wire.Control.Composite.{
  IsConnectionId, connection_id_body, append_new_connection_id, IsClose, close_body, close_type,
  append_connection_close,
}
use uquic.Wire.Payload.{
  append_crypto_frame, append_new_token_frame, append_stream_frame, append_datagram_frame,
  stream_type, datagram_type,
}
use uquic.Wire.Payload.RoundTrip.{
  counted, counted_if, append_crypto, append_new_token, IsStream, stream_body, append_stream,
  append_datagram,
}
use mathlib.Core.List.{append_assoc}

unfoldable pub append_frame : List ℕ → Frame → Result Error (List ℕ)
append_frame b ping = ok (b ++ (0x1 ∷ []))
append_frame b (ack f) = lift_panic (append_ack_frame b f)
append_frame b (reset_stream s c n) = append_reset_stream_frame b s c n
append_frame b (stop_sending s c) = append_stop_sending_frame b s c
append_frame b (crypto f) = append_crypto_frame b f
append_frame b (new_token t) = append_new_token_frame b t
append_frame b (stream f) = append_stream_frame b f
append_frame b (max_data n) = append_max_data_frame b n
append_frame b (max_stream_data s n) = append_max_stream_data_frame b s n
append_frame b (max_streams t n) = append_max_streams_frame b t n
append_frame b (data_blocked n) = append_data_blocked_frame b n
append_frame b (stream_data_blocked s n) = append_stream_data_blocked_frame b s n
append_frame b (streams_blocked t n) = append_streams_blocked_frame b t n
append_frame b (new_connection_id f) = append_new_connection_id_frame b f
append_frame b (retire_connection_id n) = append_retire_connection_id_frame b n
append_frame b (path_challenge d) = append_path_challenge_frame b d
append_frame b (path_response d) = append_path_response_frame b d
append_frame b (connection_close f) = append_connection_close_frame b f
append_frame b handshake_done = ok (b ++ (0x1e ∷ []))
append_frame b (datagram f) = append_datagram_frame b f

-- The frames that can be written and read back as they are, with what follows them in the packet:
-- their numbers fit varints, their counts are in range, and a frame without a length field ends the
-- packet. An ACK frame comes back changed, and is left to a theorem of its own.
abbrev pub IsWritable : Frame → List ℕ → Type 0
IsWritable ping more = Unit {0}
IsWritable (ack f) more = ⊥
IsWritable (reset_stream s c n) more = IsVarint s × IsVarint c × IsVarint n
IsWritable (stop_sending s c) more = IsVarint s × IsVarint c
IsWritable (crypto f) more = IsVarint f.offset × IsVarint (length f.payload)
IsWritable (new_token t) more = IsVarint (length t) × (1 ≤ length t)
IsWritable (stream f) more = IsStream f more
IsWritable (max_data n) more = IsVarint n
IsWritable (max_stream_data s n) more = IsVarint s × IsVarint n
IsWritable (max_streams t n) more = n ≤ max_stream_count
IsWritable (data_blocked n) more = IsVarint n
IsWritable (stream_data_blocked s n) more = IsVarint s × IsVarint n
IsWritable (streams_blocked t n) more = n ≤ max_stream_count
IsWritable (new_connection_id f) more = IsConnectionId f
IsWritable (retire_connection_id n) more = IsVarint n
IsWritable (path_challenge d) more = length d ≡ 8
IsWritable (path_response d) more = length d ≡ 8
IsWritable (connection_close f) more = IsClose f
IsWritable handshake_done more = Unit {0}
IsWritable (datagram f) more =
    IsVarint (length f.payload) × (f.data_len_present ≡ false → more ≡ [])

abbrev pub type_byte : Frame → ℕ
type_byte ping = 0x1
type_byte (ack f) = 0x2
type_byte (reset_stream s c n) = 0x4
type_byte (stop_sending s c) = 0x5
type_byte (crypto f) = 0x6
type_byte (new_token t) = 0x7
type_byte (stream f) = stream_type f
type_byte (max_data n) = 0x10
type_byte (max_stream_data s n) = 0x11
type_byte (max_streams t n) = tag 0x12 0x13 t
type_byte (data_blocked n) = 0x14
type_byte (stream_data_blocked s n) = 0x15
type_byte (streams_blocked t n) = tag 0x16 0x17 t
type_byte (new_connection_id f) = 0x18
type_byte (retire_connection_id n) = 0x19
type_byte (path_challenge d) = 0x1a
type_byte (path_response d) = 0x1b
type_byte (connection_close f) = close_type f
type_byte handshake_done = 0x1e
type_byte (datagram f) = datagram_type f

abbrev pub body : Frame → List ℕ
body ping = []
body (ack f) = []
body (reset_stream s c n) = encoding s ++ (encoding c ++ encoding n)
body (stop_sending s c) = encoding s ++ encoding c
body (crypto f) = encoding f.offset ++ counted f.payload
body (new_token t) = counted t
body (stream f) = stream_body f
body (max_data n) = encoding n
body (max_stream_data s n) = encoding s ++ encoding n
body (max_streams t n) = encoding n
body (data_blocked n) = encoding n
body (stream_data_blocked s n) = encoding s ++ encoding n
body (streams_blocked t n) = encoding n
body (new_connection_id f) = connection_id_body f
body (retire_connection_id n) = encoding n
body (path_challenge d) = d
body (path_response d) = d
body (connection_close f) = close_body f
body handshake_done = []
body (datagram f) = counted_if f.data_len_present f.payload

append_max_streams :
    (b : List ℕ) (t : StreamType) (n : ℕ)
    → IsVarint n
    → append_max_streams_frame b t n ≡ ok (b ++ (tag 0x12 0x13 t ∷ encoding n))
unfolding append_max_streams_frame
append_max_streams b bidi n h = put_one b 0x12 n h
append_max_streams b uni n h = put_one b 0x13 n h

append_streams_blocked :
    (b : List ℕ) (t : StreamType) (n : ℕ)
    → IsVarint n
    → append_streams_blocked_frame b t n ≡ ok (b ++ (tag 0x16 0x17 t ∷ encoding n))
unfolding append_streams_blocked_frame
append_streams_blocked b bidi n h = put_one b 0x16 n h
append_streams_blocked b uni n h = put_one b 0x17 n h

pub append_frame_lem :
    (b : List ℕ) (f : Frame) (more : List ℕ)
    → IsWritable f more
    → append_frame b f ≡ ok (b ++ (type_byte f ∷ body f))
unfolding append_frame append_reset_stream_frame append_stop_sending_frame append_max_data_frame
    append_max_stream_data_frame append_data_blocked_frame append_stream_data_blocked_frame
    append_retire_connection_id_frame append_path_challenge_frame append_path_response_frame
append_frame_lem b ping more h = refl
append_frame_lem b (ack f) more h = absurd h
append_frame_lem b (reset_stream s c n) more (hs, hc, hn) = put_three b 0x4 s c n hs hc hn
append_frame_lem b (stop_sending s c) more (hs, hc) = put_two b 0x5 s c hs hc
append_frame_lem b (crypto f) more (ho, hl) = append_crypto b f ho hl
append_frame_lem b (new_token t) more (h, pos) = append_new_token b t h
append_frame_lem b (stream f) more v = append_stream f more v b
append_frame_lem b (max_data n) more h = put_one b 0x10 n h
append_frame_lem b (max_stream_data s n) more (hs, hn) = put_two b 0x11 s n hs hn
append_frame_lem b (max_streams t n) more h = append_max_streams b t n (omega arith)
append_frame_lem b (data_blocked n) more h = put_one b 0x14 n h
append_frame_lem b (stream_data_blocked s n) more (hs, hn) = put_two b 0x15 s n hs hn
append_frame_lem b (streams_blocked t n) more h = append_streams_blocked b t n (omega arith)
append_frame_lem b (new_connection_id f) more v = append_new_connection_id f v b
append_frame_lem b (retire_connection_id n) more h = put_one b 0x19 n h
append_frame_lem b (path_challenge d) more h = ap ok (append_assoc b (0x1a ∷ []) d)
append_frame_lem b (path_response d) more h = ap ok (append_assoc b (0x1b ∷ []) d)
append_frame_lem b (connection_close f) more v = append_connection_close f v b
append_frame_lem b handshake_done more h = refl
append_frame_lem b (datagram f) more (h, last) = append_datagram f h b
