-- ===== src/Consumer/Processor.antt =====
-- `IdempotentEventProcessor.process` of src/consumer/idempotent-event-processor.ts: the transaction
-- and the telemetry of its decision.
pub mod Laws
use async_webhook_ingestion.Prelude.{⊤, ℕ, Bool, some, [], ◌∷◌}
use async_webhook_ingestion.Events.{EventStatus, status_text}
use async_webhook_ingestion.Events.Database.{Database}
use async_webhook_ingestion.Telemetry.{TelemetryStage, TelemetryStageInput}
use async_webhook_ingestion.Worker.{Action, pure, perform, emit, transaction, ◌>>=◌, ◌>>◌}
use async_webhook_ingestion.Consumer.Handler.{
  HandledEvent, OrderHandler, ProcessDecision, processed, duplicate, retry, dead,
}
use async_webhook_ingestion.Consumer.Claim.{claim_and_handle}

abbrev pub stage_of : HandledEvent → TelemetryStage → EventStatus → ℕ → TelemetryStageInput
stage_of event stage status attempts = record {
  stage = stage;
  correlation_id = event.correlation_id;
  event_id = some event.event_id;
  event_type = event.event_type;
  status = status_text status;
  attempts = attempts;
}

module _ {Db : Type 0} (event : HandledEvent) where
  abbrev pub emit_decision : ProcessDecision → Action Db ⊤
  emit_decision (processed n) =
      perform (emit (stage_of event TelemetryStage.processed EventStatus.processed n))
  emit_decision (duplicate n) =
      perform (emit (stage_of event TelemetryStage.duplicate EventStatus.processed n))
  emit_decision (retry n) =
      perform (emit (stage_of event TelemetryStage.retry EventStatus.processing n))
  emit_decision (dead n reason) = pure tt

unfoldable pub process :
    (db : Database) → OrderHandler → ℕ → HandledEvent → Bool → Action db.Db ProcessDecision
process db handler max_attempts event is_continuation = do
  decision ← transaction db (claim_and_handle db handler max_attempts event is_continuation)
  emit_decision event decision
  pure decision
