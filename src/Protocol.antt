-- ===== src/Protocol.antt =====
-- internal/protocol: packet numbers and stream IDs.
pub mod PacketNumber
pub mod StreamId
mod Runs
