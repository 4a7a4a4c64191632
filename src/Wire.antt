-- ===== src/Wire.antt =====
-- internal/wire: the frames of QUIC and their encoding.
pub mod PacketNumber
pub mod ShortHeader
pub mod Codec
pub mod AckFrame
pub mod Frame
pub mod Control
pub mod Payload
pub mod Parser
mod Runs
