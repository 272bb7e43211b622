-- ===== src/Webhooks/Ingest.antt =====
-- `ingestOrder` of src/webhooks/webhooks.controller.ts. The correlation id is the request's, or else
-- a fresh UUID.
pub mod Laws
use async_webhook_ingestion.Prelude.{⊤, String, Option, Result, ok, err, get_or}
use async_webhook_ingestion.Errors.{Thrown, http_exception}

-- The body of the 202.
pub record Accepted : Type 0 where
  pub correlation_id : String
  pub status : String

abbrev pub service_unavailable : Thrown
service_unavailable = http_exception 503 "event could not be accepted"

abbrev pub respond : (correlation_id : String) → Result Thrown ⊤ → Result Thrown Accepted
respond correlation_id (ok u) = ok (record { correlation_id = correlation_id; status = "accepted" })
respond correlation_id (err e) = err service_unavailable

-- `publish` is the publisher's, by the correlation id.
unfoldable pub ingest_order :
    (current : Option String) (uuid : String) → (String → Result Thrown ⊤) → Result Thrown Accepted
ingest_order current uuid publish =
    let correlation_id = get_or current uuid in respond correlation_id (publish correlation_id)
