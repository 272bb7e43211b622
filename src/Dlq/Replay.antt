-- ===== src/Dlq/Replay.antt =====
-- `replay` of `DlqReplayService` in src/dlq/dlq-replay.service.ts: reset first, publish second. The
-- broker answers a publish within the timeout or not.
pub mod Laws
use async_webhook_ingestion.Prelude.{
  ⊤, ℕ, String, true, false, Option, some, [], ◌∷◌, Result, ok, err,
}
use async_webhook_ingestion.Json.{Json, num, nat, str}
use async_webhook_ingestion.Errors.{Thrown, http_exception}
use async_webhook_ingestion.Messaging.{
  Publication, json, webhook_exchange, order_received_routing_key, attempt_header,
}
use async_webhook_ingestion.Events.Database.{Database}
use async_webhook_ingestion.Timeout.{Pending, with_timeout}
use async_webhook_ingestion.Worker.{
  Action, pure, raise, attempt, publish_confirmed, transaction, ◌>>=◌,
}
use async_webhook_ingestion.Dlq.Prepare.{PreparedReplay, prepare}

pub record ReplayReceipt : Type 0 where
  pub event_id : String
  pub correlation_id : String
  pub status : String

-- The header marks the redrive as a continuation.
unfoldable pub replay_publication : PreparedReplay → Publication
replay_publication prepared = record {
  exchange = webhook_exchange;
  routing_key = order_received_routing_key;
  content = json prepared.body;
  persistent = true;
  mandatory = false;
  message_id = some prepared.event_id;
  correlation_id = some prepared.correlation_id;
  content_type = some "application/json";
  headers = (attempt_header, num (nat 0)) ∷ ("x-correlation-id", str prepared.correlation_id) ∷ [];
}

abbrev pub receipt : PreparedReplay → ReplayReceipt
receipt prepared = record {
  event_id = prepared.event_id;
  correlation_id = prepared.correlation_id;
  status = "replayed";
}

abbrev pub not_published_error : Thrown
not_published_error = http_exception 503 "replay could not be published"

module _ (db : Database) (broker : Publication → Pending ⊤) (confirm_timeout_ms : ℕ) where
  -- The publish and its `catch`.
  abbrev pub confirm : Publication → Result Thrown ⊤
  confirm p = with_timeout (broker p) confirm_timeout_ms "publisher confirm timed out"

  abbrev answer : PreparedReplay → Result Thrown ⊤ → Action db.Db ReplayReceipt
  answer prepared (ok u) = pure (receipt prepared)
  answer prepared (err e) = raise not_published_error

  unfoldable pub publish_replay : PreparedReplay → Action db.Db ReplayReceipt
  publish_replay prepared = do
    published ← attempt (publish_confirmed confirm (replay_publication prepared))
    answer prepared published

  unfoldable pub replay :
      (parse_json : String → Option Json) (now : ℕ) (id : String) → Action db.Db ReplayReceipt
  unfolding publish_replay
  replay parse_json now id = do
    prepared ← transaction db (prepare db parse_json now id)
    publish_replay prepared
