-- ===== src/Wire/Frame.antt =====
-- The frames of internal/wire (the `*_frame.go` files), their types from frame_parser.go, and the
-- types of internal/protocol that they use. A byte slice, a token, a connection ID and a reason
-- phrase are lists of bytes; stream IDs, error codes and byte counts are natural numbers.
use uquic.Shared.{ℕ, ◌-◌, ◌^◌, Bool, List}
use uquic.Wire.AckFrame.{AckFrame}

-- protocol.StreamType
pub data StreamType : Type 0 where
  uni bidi : StreamType

-- protocol.EncryptionLevel
pub data EncryptionLevel : Type 0 where
  initial handshake zero_rtt one_rtt : EncryptionLevel

pub record StreamFrame : Type 0 where
  pub stream_id : ℕ
  pub offset : ℕ
  pub payload : List ℕ
  pub fin : Bool
  pub data_len_present : Bool

pub record CryptoFrame : Type 0 where
  pub offset : ℕ
  pub payload : List ℕ

pub record ConnectionCloseFrame : Type 0 where
  pub is_application_error : Bool
  pub error_code : ℕ
  pub frame_type : ℕ
  pub reason_phrase : List ℕ

pub record NewConnectionIdFrame : Type 0 where
  pub sequence_number : ℕ
  pub retire_prior_to : ℕ
  pub connection_id : List ℕ
  pub stateless_reset_token : List ℕ

pub record DatagramFrame : Type 0 where
  pub data_len_present : Bool
  pub payload : List ℕ

pub data Frame : Type 0 where
  ping : Frame
  ack : AckFrame → Frame
  -- the stream ID, the error code, the final size
  reset_stream : ℕ → ℕ → ℕ → Frame
  -- the stream ID, the error code
  stop_sending : ℕ → ℕ → Frame
  crypto : CryptoFrame → Frame
  new_token : List ℕ → Frame
  stream : StreamFrame → Frame
  max_data : ℕ → Frame
  -- the stream ID, the maximum
  max_stream_data : ℕ → ℕ → Frame
  max_streams : StreamType → ℕ → Frame
  data_blocked : ℕ → Frame
  -- the stream ID, the maximum
  stream_data_blocked : ℕ → ℕ → Frame
  streams_blocked : StreamType → ℕ → Frame
  new_connection_id : NewConnectionIdFrame → Frame
  retire_connection_id : ℕ → Frame
  path_challenge : List ℕ → Frame
  path_response : List ℕ → Frame
  connection_close : ConnectionCloseFrame → Frame
  handshake_done : Frame
  datagram : DatagramFrame → Frame

-- protocol.MaxStreamCount
abbrev pub max_stream_count : ℕ
max_stream_count = 2 ^ 60

-- protocol.MaxByteCount
abbrev pub max_byte_count : ℕ
max_byte_count = 2 ^ 62 - 1

-- protocol.MaxConnIDLen
abbrev pub max_conn_id_len : ℕ
max_conn_id_len = 20

-- protocol.MinStreamFrameBufferSize
abbrev pub min_stream_frame_buffer_size : ℕ
min_stream_frame_buffer_size = 128

-- protocol.MaxPacketBufferSize, the capacity of a pooled STREAM frame
abbrev pub max_packet_buffer_size : ℕ
max_packet_buffer_size = 1452
