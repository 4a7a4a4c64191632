-- ===== src/FlowControl.antt =====
-- internal/flowcontrol: how much data the peer and this side may send.
pub mod Base
pub mod Connection
pub mod Stream
pub mod Window
pub mod Session
pub mod Balance
pub mod Totals
pub mod Sending
mod Runs
