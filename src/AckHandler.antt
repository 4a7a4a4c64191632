-- ===== src/AckHandler.antt =====
-- internal/ackhandler.
pub mod History
pub mod Tracker
pub mod Handler
pub mod Ecn
pub mod Sent
pub mod Space
pub mod Rtt
pub mod Sender
