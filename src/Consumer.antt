-- ===== src/Consumer.antt =====
-- src/consumer: the worker. `Consumer.Claim` is the transaction that claims and handles an event.
pub mod Handler
pub mod Claim
pub mod Processor
pub mod Messages
pub mod Orders
pub mod DeadLetters
pub mod Demo
