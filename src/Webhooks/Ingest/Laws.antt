-- ===== src/Webhooks/Ingest/Laws.antt =====
-- A webhook is accepted exactly when the broker has it.
use async_webhook_ingestion.Prelude.{
  ⊤, ℕ, String, ◌≡◌, ◌⊎◌, inl, inr, refl, Bool, true, false, Option, List, Result, ok, err, get_or,
  arith,
}
use async_webhook_ingestion.Errors.{Thrown}
use async_webhook_ingestion.Timeout.{Pending, with_timeout}
use async_webhook_ingestion.Webhooks.Publisher.{
  PendingReturns, verdict, begin_publish, finish_publish,
}
use async_webhook_ingestion.Webhooks.Publisher.Laws.{
  Meanwhile, happen_all, AreAlien, was_returned, finish_publish-verdict,
}
use async_webhook_ingestion.Webhooks.Ingest.{Accepted, service_unavailable, respond, ingest_order}

-- The broker confirmed in time, and returned no message of this token.
abbrev pub IsQueued : Bool → Result Thrown ⊤ → Type 0
IsQueued returned confirmed = (confirmed ≡ ok tt) × (returned ≡ false)

abbrev pub Answered : String → Bool → Result Thrown ⊤ → Result Thrown Accepted → Type 0
Answered correlation_id returned confirmed answer =
    (IsQueued returned confirmed
      × (answer ≡ ok (record { correlation_id = correlation_id; status = "accepted" })))
    ⊎ ((¬ IsQueued returned confirmed) × (answer ≡ err service_unavailable))

respond-Answered :
    (correlation_id : String) (returned : Bool) (confirmed : Result Thrown ⊤)
    → Answered correlation_id returned confirmed
        (respond correlation_id (verdict returned confirmed))
respond-Answered correlation_id returned (err e) = inr (λ q. ground (arith, q.0), refl)
respond-Answered correlation_id true (ok u) = inr (λ q. ground (arith, q.1), refl)
respond-Answered correlation_id false (ok u) = inl ((refl, refl), refl)

-- Whatever is published and returned meanwhile under other tokens, the endpoint answers 202 with the
-- correlation id if the broker confirmed the message within the timeout and did not return it as
-- unroutable, and 503 in every other case.
pub ingest_order-Answered :
    (current : Option String) (uuid token : String) (es : List Meanwhile) (m : PendingReturns)
    (ms : ℕ) (confirm : Pending ⊤)
    → AreAlien token es
    → Answered
        (get_or current uuid)
        (was_returned token es)
        (with_timeout confirm ms "publisher confirm timed out")
        (ingest_order current uuid
          (λ id. (finish_publish ms token confirm (happen_all es (begin_publish token m))).0))
unfolding ingest_order
ingest_order-Answered current uuid token es m ms confirm alien =
    rw ((finish_publish-verdict token es m ms confirm alien).0) (
      respond-Answered (get_or current uuid) (was_returned token es)
        (with_timeout confirm ms "publisher confirm timed out"))
