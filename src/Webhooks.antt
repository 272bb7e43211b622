-- ===== src/Webhooks.antt =====
-- src/webhooks: the ingestion endpoint and its publisher.
pub mod Publisher
pub mod Ingest
pub mod Poison
pub mod Endpoint
