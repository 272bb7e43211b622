-- ===== src/Dlq.antt =====
-- src/dlq: inspecting, replaying and discarding dead letters.
pub mod Prepare
pub mod Replay
pub mod Discard
pub mod Listing
