-- ===== src/Consumer/Orders/Laws.antt =====
-- No message is lost: what an acknowledged, a requeued and a failed delivery have left behind.
mod Follow
pub mod Delivery
pub mod Handle
pub mod Liveness
