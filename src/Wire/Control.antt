-- ===== src/Wire/Control.antt =====
-- The control frames: the `parse…Frame` functions and the `Append` methods of the files
-- reset_stream, stop_sending, max_data, max_stream_data, max_streams, data_blocked,
-- stream_data_blocked, streams_blocked, new_connection_id, retire_connection_id, path_challenge,
-- path_response, connection_close, handshake_done and ping (`…_frame.go`). A parser answers the
-- frame and the bytes taken: the length of the input less the length of what is left.
pub mod RoundTrip
pub mod Composite
use uquic.Shared.{
  ℕ, zero, ◌+◌, ◌-◌, ◌%◌, ◌^◌, Bool, true, false, List, [], ◌∷◌, ◌++◌, ltb, leb, ◌==◌,
  if◌then◌else◌, Result, ok, err, ◌>>=◌, ◌>>◌, guard, length, take, drop,
}
use uquic.Wire.Codec.{
  Error, eof, too_many_streams, retire_prior_to_too_large, zero_length_connection_id,
  invalid_connection_id_len, next, put,
}
use uquic.Wire.Frame.{
  Frame, reset_stream, stop_sending, max_data, max_stream_data, max_streams, data_blocked,
  stream_data_blocked, streams_blocked, new_connection_id, retire_connection_id, path_challenge,
  path_response, connection_close, ConnectionCloseFrame, NewConnectionIdFrame, StreamType, uni,
  bidi, max_stream_count, max_conn_id_len,
}

unfoldable pub parse_reset_stream_frame : List ℕ → Result Error (Frame × ℕ)
parse_reset_stream_frame b0 = do
  (stream_id, b1) ← next b0
  (error_code, b2) ← next b1
  (byte_offset, b3) ← next b2
  ok (reset_stream stream_id error_code byte_offset, length b0 - length b3)

unfoldable pub append_reset_stream_frame : List ℕ → ℕ → ℕ → ℕ → Result Error (List ℕ)
append_reset_stream_frame b0 stream_id error_code final_size = do
  b1 ← put (b0 ++ (0x4 ∷ [])) stream_id
  b2 ← put b1 error_code
  put b2 final_size

unfoldable pub parse_stop_sending_frame : List ℕ → Result Error (Frame × ℕ)
parse_stop_sending_frame b0 = do
  (stream_id, b1) ← next b0
  (error_code, b2) ← next b1
  ok (stop_sending stream_id error_code, length b0 - length b2)

unfoldable pub append_stop_sending_frame : List ℕ → ℕ → ℕ → Result Error (List ℕ)
append_stop_sending_frame b0 stream_id error_code = do
  b1 ← put (b0 ++ (0x5 ∷ [])) stream_id
  put b1 error_code

unfoldable pub parse_max_data_frame : List ℕ → Result Error (Frame × ℕ)
parse_max_data_frame b0 = do
  (byte_offset, b1) ← next b0
  ok (max_data byte_offset, length b0 - length b1)

unfoldable pub append_max_data_frame : List ℕ → ℕ → Result Error (List ℕ)
append_max_data_frame b maximum_data = put (b ++ (0x10 ∷ [])) maximum_data

unfoldable pub parse_max_stream_data_frame : List ℕ → Result Error (Frame × ℕ)
parse_max_stream_data_frame b0 = do
  (stream_id, b1) ← next b0
  (offset, b2) ← next b1
  ok (max_stream_data stream_id offset, length b0 - length b2)

unfoldable pub append_max_stream_data_frame : List ℕ → ℕ → ℕ → Result Error (List ℕ)
append_max_stream_data_frame b0 stream_id maximum = do
  b1 ← put (b0 ++ (0x11 ∷ [])) stream_id
  put b1 maximum

-- The stream type that the frame type tells; the parsers are called for two types only.
abbrev pub type_of : ℕ → ℕ → StreamType
type_of bidi_type typ = if typ == bidi_type then bidi else uni

unfoldable pub parse_max_streams_frame : List ℕ → ℕ → Result Error (Frame × ℕ)
parse_max_streams_frame b0 typ = do
  (num, b1) ← next b0
  guard (leb num max_stream_count) (too_many_streams num)
  ok (max_streams (type_of 0x12 typ) num, length b0 - length b1)

unfoldable pub append_max_streams_frame : List ℕ → StreamType → ℕ → Result Error (List ℕ)
append_max_streams_frame b bidi num = put (b ++ (0x12 ∷ [])) num
append_max_streams_frame b uni num = put (b ++ (0x13 ∷ [])) num

unfoldable pub parse_data_blocked_frame : List ℕ → Result Error (Frame × ℕ)
parse_data_blocked_frame b0 = do
  (offset, b1) ← next b0
  ok (data_blocked offset, length b0 - length b1)

unfoldable pub append_data_blocked_frame : List ℕ → ℕ → Result Error (List ℕ)
append_data_blocked_frame b maximum_data = put (b ++ (0x14 ∷ [])) maximum_data

unfoldable pub parse_stream_data_blocked_frame : List ℕ → Result Error (Frame × ℕ)
parse_stream_data_blocked_frame b0 = do
  (stream_id, b1) ← next b0
  (offset, b2) ← next b1
  ok (stream_data_blocked stream_id offset, length b0 - length b2)

unfoldable pub append_stream_data_blocked_frame : List ℕ → ℕ → ℕ → Result Error (List ℕ)
append_stream_data_blocked_frame b0 stream_id maximum = do
  b1 ← put (b0 ++ (0x15 ∷ [])) stream_id
  put b1 maximum

unfoldable pub parse_streams_blocked_frame : List ℕ → ℕ → Result Error (Frame × ℕ)
parse_streams_blocked_frame b0 typ = do
  (limit, b1) ← next b0
  guard (leb limit max_stream_count) (too_many_streams limit)
  ok (streams_blocked (type_of 0x16 typ) limit, length b0 - length b1)

unfoldable pub append_streams_blocked_frame : List ℕ → StreamType → ℕ → Result Error (List ℕ)
append_streams_blocked_frame b bidi limit = put (b ++ (0x16 ∷ [])) limit
append_streams_blocked_frame b uni limit = put (b ++ (0x17 ∷ [])) limit

-- `b[0]` and `b = b[1:]`, with the check that there is a byte.
unfoldable pub first_byte : List ℕ → Result Error (ℕ × List ℕ)
first_byte [] = err eof
first_byte (x ∷ b) = ok (x, b)

-- The next `n` bytes, with the check that they are there.
unfoldable pub next_bytes : ℕ → List ℕ → Result Error (List ℕ × List ℕ)
next_bytes n b = if ltb (length b) n then err eof else ok (take n b, drop n b)

unfoldable pub parse_new_connection_id_frame : List ℕ → Result Error (Frame × ℕ)
parse_new_connection_id_frame b0 = do
  (seq, b1) ← next b0
  (ret, b2) ← next b1
  guard (leb ret seq) retire_prior_to_too_large
  (conn_id_len, b3) ← first_byte b2
  guard (ltb 0 conn_id_len) zero_length_connection_id
  guard (leb conn_id_len max_conn_id_len) invalid_connection_id_len
  (conn_id, b4) ← next_bytes conn_id_len b3
  (token, b5) ← next_bytes 16 b4
  ok (
    new_connection_id (record {
      sequence_number = seq;
      retire_prior_to = ret;
      connection_id = conn_id;
      stateless_reset_token = token;
    }),
    length b0 - length b5,
  )

unfoldable pub append_new_connection_id_frame :
    List ℕ → NewConnectionIdFrame → Result Error (List ℕ)
append_new_connection_id_frame b0 f = do
  b1 ← put (b0 ++ (0x18 ∷ [])) f.sequence_number
  b2 ← put b1 f.retire_prior_to
  let conn_id_len = length f.connection_id
  guard (leb conn_id_len max_conn_id_len) invalid_connection_id_len
  ok (((b2 ++ ((conn_id_len % 2 ^ 8) ∷ [])) ++ f.connection_id) ++ f.stateless_reset_token)

unfoldable pub parse_retire_connection_id_frame : List ℕ → Result Error (Frame × ℕ)
parse_retire_connection_id_frame b0 = do
  (seq, b1) ← next b0
  ok (retire_connection_id seq, length b0 - length b1)

unfoldable pub append_retire_connection_id_frame : List ℕ → ℕ → Result Error (List ℕ)
append_retire_connection_id_frame b seq = put (b ++ (0x19 ∷ [])) seq

unfoldable pub parse_path_challenge_frame : List ℕ → Result Error (Frame × ℕ)
parse_path_challenge_frame b = do (payload, rest) ← next_bytes 8 b; ok (path_challenge payload, 8)

unfoldable pub parse_path_response_frame : List ℕ → Result Error (Frame × ℕ)
parse_path_response_frame b = do (payload, rest) ← next_bytes 8 b; ok (path_response payload, 8)

unfoldable pub append_path_challenge_frame : List ℕ → List ℕ → Result Error (List ℕ)
append_path_challenge_frame b payload = ok ((b ++ (0x1a ∷ [])) ++ payload)

unfoldable pub append_path_response_frame : List ℕ → List ℕ → Result Error (List ℕ)
append_path_response_frame b payload = ok ((b ++ (0x1b ∷ [])) ++ payload)

-- The frame type field, which an application error does not have.
unfoldable pub parse_frame_type : Bool → List ℕ → Result Error (ℕ × List ℕ)
parse_frame_type true b = ok (0, b)
parse_frame_type false b = next b

unfoldable pub parse_connection_close_frame : List ℕ → ℕ → Result Error (Frame × ℕ)
parse_connection_close_frame b0 typ = do
  let is_application_error = typ == 0x1d
  (error_code, b1) ← next b0
  (frame_type, b2) ← parse_frame_type is_application_error b1
  (reason_phrase_len, b3) ← next b2
  (reason_phrase, b4) ← next_bytes reason_phrase_len b3
  ok (
    connection_close (record {
      is_application_error = is_application_error;
      error_code = error_code;
      frame_type = frame_type;
      reason_phrase = reason_phrase;
    }),
    length b0 - length b4,
  )

unfoldable pub put_frame_type : Bool → List ℕ → ℕ → Result Error (List ℕ)
put_frame_type true b frame_type = ok b
put_frame_type false b frame_type = put b frame_type

unfoldable pub append_connection_close_frame : List ℕ → ConnectionCloseFrame → Result Error (List ℕ)
append_connection_close_frame b0 f = do
  b1 ← put (b0 ++ ((if f.is_application_error then 0x1d else 0x1c) ∷ [])) f.error_code
  b2 ← put_frame_type f.is_application_error b1 f.frame_type
  b3 ← put b2 (length f.reason_phrase)
  ok (b3 ++ f.reason_phrase)
