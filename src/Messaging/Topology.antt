-- ===== src/Messaging/Topology.antt =====
-- Where the declared queues take what the code publishes. No binding has a wildcard, so a binding
-- matches exactly its own routing key.
use async_webhook_ingestion.Prelude.{
  ℕ, zero, suc, String, ◌≡◌, refl, ◌&&◌, some, List, [], ◌∷◌, ◌==◌, keep,
}
use async_webhook_ingestion.Messaging.{
  RetryTier, Queue, queues, retry_exchange, webhook_exchange, order_received_routing_key,
  work_queue, retry_tier_for_attempt,
}
use async_webhook_ingestion.Messaging.Tiers.{rung, retry_tier_for_attempt-rung}

abbrev pub bound_to : String → String → List Queue
bound_to exchange key = keep (λ q. q.exchange == exchange && q.routing_key == key) queues

-- What becomes of a message published for a tier.
abbrev pub IsRetryRoute : RetryTier → Queue → Type 0
IsRetryRoute t q =
    (bound_to retry_exchange t.routing_key ≡ q ∷ [])
    × (q.name ≡ t.queue)
    × (q.message_ttl ≡ some t.ttl_ms)
    × (q.dead_letter_to ≡ some (webhook_exchange, order_received_routing_key))

rung_route : (n : ℕ) → (q : Queue) × IsRetryRoute (rung n) q
unfolding queues
rung_route zero = (_, (refl, refl, refl, refl))
rung_route (suc zero) = (_, (refl, refl, refl, refl))
rung_route (suc (suc zero)) = (_, (refl, refl, refl, refl))
rung_route (suc (suc (suc n))) = (_, (refl, refl, refl, refl))

-- Every attempt has a tier, and a message published with that tier's key lands in exactly one
-- declared queue, which holds it for the tier's time to live and then dead-letters it to the route
-- that one queue is bound to, the work queue.
pub retry_route :
    (n : ℕ)
    → (t : RetryTier) × (retry_tier_for_attempt n ≡ some t)
      × ((q : Queue) × IsRetryRoute t q)
      × (w : Queue) × (bound_to webhook_exchange order_received_routing_key ≡ w ∷ [])
      × (w.name ≡ work_queue)
unfolding queues
retry_route n = (rung n, retry_tier_for_attempt-rung n, rung_route n, _, refl, refl)
