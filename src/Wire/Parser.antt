-- ===== src/Wire/Parser.antt =====
-- internal/wire/frame_parser.go: the frame parser, which reads frames one by one. The ACK frame that
-- the parser keeps to save allocations is reset before each use, so it holds no state for the model.
pub mod Append
pub mod RoundTrip
pub mod Total
use uquic.Shared.{
  ℕ, zero, suc, ◌+◌, bit_and, Bool, true, false, not, ◌&&◌, ◌||◌, List, [], ◌∷◌, ◌==◌,
  if◌then◌else◌, Result, ok, err, ◌>>=◌, ◌>>◌, length, drop,
}
use uquic.Varint
use uquic.Varint.{parse}
use uquic.Wire.Codec.{Error, eof, unexpected_eof, unknown_frame_type, not_allowed_at_enc_level}
use uquic.Wire.AckFrame.{parse_ack_frame, ack_delay_exponent}
use uquic.Wire.Frame.{
  Frame, ping, ack, crypto, new_token, retire_connection_id, path_response, connection_close,
  handshake_done, EncryptionLevel, initial, handshake, zero_rtt, one_rtt,
}
use uquic.Wire.Control.{
  parse_reset_stream_frame, parse_stop_sending_frame, parse_max_data_frame,
  parse_max_stream_data_frame, parse_max_streams_frame, parse_data_blocked_frame,
  parse_stream_data_blocked_frame, parse_streams_blocked_frame, parse_new_connection_id_frame,
  parse_retire_connection_id_frame, parse_path_challenge_frame, parse_path_response_frame,
  parse_connection_close_frame,
}
use uquic.Wire.Payload.{
  parse_crypto_frame, parse_new_token_frame, parse_stream_frame, parse_datagram_frame,
}

pub record FrameParser : Type 0 where
  pub ack_delay_exponent : ℕ
  pub supports_datagrams : Bool

-- `NewFrameParser`, and `SetAckDelayExponent`
abbrev pub new_frame_parser : Bool → FrameParser
new_frame_parser supports_datagrams = record {
  ack_delay_exponent = 0;
  supports_datagrams = supports_datagrams;
}

abbrev pub set_ack_delay_exponent : FrameParser → ℕ → FrameParser
set_ack_delay_exponent p exponent = record p { ack_delay_exponent = exponent }

-- The frames of the Initial and Handshake packets.
unfoldable pub is_handshake_frame : Frame → Bool
is_handshake_frame (crypto f) = true
is_handshake_frame (ack f) = true
is_handshake_frame (connection_close f) = true
is_handshake_frame ping = true
is_handshake_frame _ = false

-- The frames that a 0-RTT packet must not hold.
unfoldable pub is_refused_in_zero_rtt : Frame → Bool
is_refused_in_zero_rtt (crypto f) = true
is_refused_in_zero_rtt (ack f) = true
is_refused_in_zero_rtt (connection_close f) = true
is_refused_in_zero_rtt (new_token t) = true
is_refused_in_zero_rtt (path_response d) = true
is_refused_in_zero_rtt (retire_connection_id n) = true
is_refused_in_zero_rtt _ = false

unfoldable pub is_allowed_at_enc_level : Frame → EncryptionLevel → Bool
is_allowed_at_enc_level f initial = is_handshake_frame f
is_allowed_at_enc_level f handshake = is_handshake_frame f
is_allowed_at_enc_level f zero_rtt = not (is_refused_in_zero_rtt f)
is_allowed_at_enc_level f one_rtt = true

-- The exponent for the ACK delay: the peer's holds in 1-RTT packets only.
unfoldable pub delay_exponent : FrameParser → EncryptionLevel → ℕ
delay_exponent p one_rtt = p.ack_delay_exponent
delay_exponent p _ = ack_delay_exponent

unfoldable pub parse_ack : List ℕ → ℕ → ℕ → Result Error (Frame × ℕ)
parse_ack b typ exponent = do (f, l) ← parse_ack_frame b typ exponent; ok (ack f, l)

-- The `switch` of `parseFrame`. A frame without content takes no bytes behind its type.
unfoldable pub parse_control : FrameParser → List ℕ → ℕ → EncryptionLevel → Result Error (Frame × ℕ)
unfolding parse_ack
parse_control p b typ level =
    if typ == 0x1
    then ok (ping, 0)
    else if typ == 0x2 || typ == 0x3
    then parse_ack b typ (delay_exponent p level)
    else if typ == 0x4
    then parse_reset_stream_frame b
    else if typ == 0x5
    then parse_stop_sending_frame b
    else if typ == 0x6
    then parse_crypto_frame b
    else if typ == 0x7
    then parse_new_token_frame b
    else if typ == 0x10
    then parse_max_data_frame b
    else if typ == 0x11
    then parse_max_stream_data_frame b
    else if typ == 0x12 || typ == 0x13
    then parse_max_streams_frame b typ
    else if typ == 0x14
    then parse_data_blocked_frame b
    else if typ == 0x15
    then parse_stream_data_blocked_frame b
    else if typ == 0x16 || typ == 0x17
    then parse_streams_blocked_frame b typ
    else if typ == 0x18
    then parse_new_connection_id_frame b
    else if typ == 0x19
    then parse_retire_connection_id_frame b
    else if typ == 0x1a
    then parse_path_challenge_frame b
    else if typ == 0x1b
    then parse_path_response_frame b
    else if typ == 0x1c || typ == 0x1d
    then parse_connection_close_frame b typ
    else if typ == 0x1e
    then ok (handshake_done, 0)
    else if (typ == 0x30 || typ == 0x31) && p.supports_datagrams
    then parse_datagram_frame b typ
    else err unknown_frame_type

unfoldable pub parse_typed : FrameParser → List ℕ → ℕ → EncryptionLevel → Result Error (Frame × ℕ)
parse_typed p b typ level =
    if bit_and typ 0xf8 == 0x8 then parse_stream_frame b typ else parse_control p b typ level

-- `parseFrame`. An error comes with the count of bytes that the function answers beside it.
unfoldable pub check_level : EncryptionLevel → Frame × ℕ → Result (Error × ℕ) (Frame × ℕ)
check_level level (f, l) =
    if is_allowed_at_enc_level f level then ok (f, l) else err (not_allowed_at_enc_level, l)

unfoldable pub with_level :
    EncryptionLevel → Result Error (Frame × ℕ) → Result (Error × ℕ) (Frame × ℕ)
with_level level (ok fl) = check_level level fl
with_level level (err e) = err (e, 0)

unfoldable pub parse_frame :
    FrameParser → List ℕ → ℕ → EncryptionLevel → Result (Error × ℕ) (Frame × ℕ)
parse_frame p b typ level = with_level level (parse_typed p b typ level)

-- `ParseNext`: the bytes taken, with a frame, with none because only padding was left, or with a
-- transport error, which names the frame type (0 where the type itself could not be read).
pub data Next : Type 0 where
  found : Frame → ℕ → Next
  end_of_data : ℕ → Next
  failed : Error → ℕ → ℕ → Next
  -- no answer of the code: the fuel of the loop ran out
  stuck : Next

-- The error of quicvarint.Parse, which this function passes on as it is.
abbrev raw_error : Varint.Error → Error
raw_error Varint.Error.eof = eof
raw_error Varint.Error.unexpected_eof = unexpected_eof

-- What follows the frame type.
unfoldable pub report : ℕ → ℕ → Result (Error × ℕ) (Frame × ℕ) → Next
report typ parsed (ok (f, l)) = found f (parsed + l)
report typ parsed (err (e, l)) = failed e typ (parsed + l)

unfoldable pub after_type : FrameParser → List ℕ → ℕ → ℕ → EncryptionLevel → Next
after_type p b typ parsed level = report typ parsed (parse_frame p b typ level)

-- The loop that skips PADDING. Each round takes a byte at least, so `length b` rounds are enough.
unfoldable pub parse_next_loop : ℕ → FrameParser → List ℕ → ℕ → EncryptionLevel → Next
parse_next_loop fuel p [] parsed level = end_of_data parsed
parse_next_loop zero p (x ∷ b) parsed level = stuck
parse_next_loop (suc fuel) p (x ∷ b) parsed level = elim (parse (x ∷ b)) [
  | ok (typ, l) ↦ elim (typ == 0) [
    | true ↦ parse_next_loop fuel p (drop l (x ∷ b)) (parsed + l) level
    | false ↦ after_type p (drop l (x ∷ b)) typ (parsed + l) level
  ]
  | err e ↦ failed (raw_error e) 0 parsed
]

unfoldable pub parse_next : FrameParser → List ℕ → EncryptionLevel → Next
parse_next p b level = parse_next_loop (length b) p b 0 level
