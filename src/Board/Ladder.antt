-- ===== src/Board/Ladder.antt =====
-- The board's retry ladder and the worker's agree.
use async_webhook_ingestion.Prelude.{ℕ, zero, suc, ◌≡◌, refl, Option, none, some, lookup, arith}
use async_webhook_ingestion.Messaging.{RetryTier, retry_tier_for_attempt}
use async_webhook_ingestion.Messaging.Tiers.{retry_tier_for_attempt-rung}
use async_webhook_ingestion.Board.Reducer.{retry_tier, retry_ttl}

abbrev pub ttl_of : Option RetryTier → Option ℕ
ttl_of none = none
ttl_of (some tier) = some tier.ttl_ms

retry_tier-late : (n : ℕ) → retry_tier (suc (suc (suc n))) ≡ "2min"
unfolding retry_tier
retry_tier-late n = ground arith

-- For every number of attempts, the countdown of the board's tier is the time to live of the queue
-- that the worker retries through.
pub retry_tier-ttl : (n : ℕ) → lookup (retry_tier n) retry_ttl ≡ ttl_of (retry_tier_for_attempt n)
unfolding retry_tier retry_tier_for_attempt
retry_tier-ttl zero = refl
retry_tier-ttl (suc zero) = refl
retry_tier-ttl (suc (suc zero)) = refl
retry_tier-ttl (suc (suc (suc n))) =
    rw (retry_tier-late n) (rw (retry_tier_for_attempt-rung (suc (suc (suc n)))) refl)
