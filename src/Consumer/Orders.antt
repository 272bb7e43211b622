-- ===== src/Consumer/Orders.antt =====
-- `OrderConsumer` of src/consumer/order-consumer.ts. `JSON.parse`, the broker's confirm, the handler,
-- the database and a fresh UUID are arguments. A handler that returns acknowledges the message; the
-- correlation context and the log lines have no part in what it does.
pub mod Laws
use async_webhook_ingestion.Prelude.{
  ⊤, ℕ, String, Bool, Option, none, some, Result, ok, err, if◌then◌else◌,
}
use async_webhook_ingestion.Json.{Json}
use async_webhook_ingestion.Errors.{Thrown, reason_of, is_non_recoverable_db_error, other_error}
use async_webhook_ingestion.Messaging.{Publication, Delivery, RetryTier, retry_tier_for_attempt}
use async_webhook_ingestion.Events.{EventStatus, status_text}
use async_webhook_ingestion.Events.Database.{Database}
use async_webhook_ingestion.Telemetry.{TelemetryStage, TelemetryStageInput}
use async_webhook_ingestion.Worker.{
  Action, pure, raise, attempt, perform, publish_confirmed, emit, count_event, observe_duration,
  ◌>>=◌, ◌>>◌,
}
use async_webhook_ingestion.Consumer.Handler.{
  HandledEvent, OrderHandler, ProcessDecision, processed, duplicate, retry, dead,
}
use async_webhook_ingestion.Consumer.Processor.{process, stage_of}
use async_webhook_ingestion.Consumer.Messages.{
  DeadLetter, dead_letter_for, dead_letter_unparseable, dead_letter_publication, retry_publication,
  event_of, event_id_of, is_continuation, outcome_text, attempts_of, parse, correlation_of,
}

-- `void` acknowledges; `new Nack(true)` puts the message back in the queue.
pub data Verdict : Type 0 where
  ack requeue : Verdict

abbrev pub dead_stage : DeadLetter → (event_type : String) → TelemetryStageInput
dead_stage letter event_type = record {
  stage = TelemetryStage.dead;
  correlation_id = letter.correlation_id;
  event_id = letter.event_id;
  event_type = event_type;
  status = status_text EventStatus.dead;
  attempts = letter.attempts;
}

module _ (db : Database) (broker : Publication → Result Thrown ⊤) where
  unfoldable pub to_dead_letter : DeadLetter → Action db.Db ⊤
  to_dead_letter letter = publish_confirmed broker (dead_letter_publication letter)

  -- The tail of the branches that dead-letter.
  unfoldable pub bury : DeadLetter → (event_type : String) → Action db.Db ⊤
  unfolding to_dead_letter
  bury letter event_type = do to_dead_letter letter; perform (emit (dead_stage letter event_type))

  unfoldable pub publish_retry : HandledEvent → ℕ → Option RetryTier → Action db.Db Verdict
  publish_retry event n none = raise (other_error "tier is undefined")
  publish_retry event n (some tier) = do
    publish_confirmed broker (retry_publication event tier n)
    pure ack

  -- The `switch` on the decision.
  unfoldable pub follow : (raw : String) → HandledEvent → ProcessDecision → Action db.Db Verdict
  unfolding bury publish_retry
  follow raw event (processed n) = pure ack
  follow raw event (duplicate n) = pure ack
  follow raw event (retry n) = publish_retry event n (retry_tier_for_attempt n)
  follow raw event (dead n reason) = do
    bury (dead_letter_for raw event n reason) event.event_type
    pure ack

  -- A message that the database will never take.
  unfoldable pub reject : (raw : String) → HandledEvent → Thrown → Action db.Db Verdict
  unfolding bury
  reject raw event e = do
    bury (dead_letter_for raw event 0 (reason_of e)) event.event_type
    perform (count_event "db_error")
    pure ack

  -- The `catch` around the processor.
  unfoldable pub rescue : (raw : String) → HandledEvent → Thrown → Action db.Db Verdict
  unfolding reject
  rescue raw event e =
      if is_non_recoverable_db_error e
      then reject raw event e
      else (perform (count_event "requeued") >> pure requeue)

  -- What follows the processor.
  unfoldable pub conclude :
      (raw : String) → HandledEvent → Result Thrown ProcessDecision → Action db.Db Verdict
  unfolding follow rescue
  conclude raw event (err e) = rescue raw event e
  conclude raw event (ok decision) = do
    perform (count_event (outcome_text decision))
    perform observe_duration
    perform (
        emit (record {
          stage = TelemetryStage.processing_decision;
          correlation_id = event.correlation_id;
          event_id = some event.event_id;
          event_type = event.event_type;
          status = outcome_text decision;
          attempts = attempts_of decision;
        }))
    follow raw event decision

  module _ (handler : OrderHandler) (max_attempts : ℕ) where
    unfoldable pub consume_event : (raw : String) → HandledEvent → Bool → Action db.Db Verdict
    unfolding conclude
    consume_event raw event continuation = do
      perform (emit (stage_of event TelemetryStage.consuming EventStatus.received 0))
      result ← attempt (process db handler max_attempts event continuation)
      conclude raw event result

    unfoldable pub consume_unparseable : (correlation_id raw : String) → Action db.Db Verdict
    unfolding bury
    consume_unparseable correlation_id raw = do
      bury (dead_letter_unparseable raw correlation_id) "unknown"
      perform (count_event "unparseable")
      pure ack

    unfoldable pub consume :
        (correlation_id : String)
        → (parsed : Json) → Delivery
        → Option String
        → Action db.Db Verdict
    unfolding consume_event consume_unparseable
    consume correlation_id parsed m none = consume_unparseable correlation_id m.raw
    consume correlation_id parsed m (some id) =
        consume_event m.raw (event_of id correlation_id parsed) (is_continuation m)

    unfoldable pub handle :
        (parse_json : String → Option Json) (uuid : String) → Delivery → Action db.Db Verdict
    unfolding consume
    handle parse_json uuid m =
        let parsed = parse parse_json m.raw in
        consume (correlation_of parse_json uuid m) parsed m (event_id_of parsed)
