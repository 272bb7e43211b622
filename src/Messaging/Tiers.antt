-- ===== src/Messaging/Tiers.antt =====
-- The retry ladder.
use async_webhook_ingestion.Prelude.{ℕ, zero, suc, ◌≤◌, ◌≡◌, refl, some, arith}
use async_webhook_ingestion.Messaging.{RetryTier, retry_tier_for_attempt}

-- The tier of an attempt, rung by rung.
abbrev pub rung : ℕ → RetryTier
rung zero = record { queue = "webhooks.retry.5s"; routing_key = "orders.retry.5s"; ttl_ms = 5000 }
rung (suc zero) = record {
  queue = "webhooks.retry.5s";
  routing_key = "orders.retry.5s";
  ttl_ms = 5000;
}
rung (suc (suc zero)) = record {
  queue = "webhooks.retry.30s";
  routing_key = "orders.retry.30s";
  ttl_ms = 30000;
}
rung (suc (suc (suc n))) = record {
  queue = "webhooks.retry.2m";
  routing_key = "orders.retry.2m";
  ttl_ms = 120000;
}

-- The index never leaves the array: every attempt has a tier, the 5 s one up to attempt 1, the 30 s
-- one at attempt 2, and the 2 min one from attempt 3 on.
pub retry_tier_for_attempt-rung : (n : ℕ) → retry_tier_for_attempt n ≡ some (rung n)
unfolding retry_tier_for_attempt
retry_tier_for_attempt-rung zero = refl
retry_tier_for_attempt-rung (suc zero) = refl
retry_tier_for_attempt-rung (suc (suc zero)) = refl
retry_tier_for_attempt-rung (suc (suc (suc n))) = ground arith

-- A later attempt never waits less.
pub rung_mono : (m n : ℕ) → m ≤ n → (rung m).ttl_ms ≤ (rung n).ttl_ms
rung_mono m n h = ground arith
