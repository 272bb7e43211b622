-- ===== src/Telemetry.antt =====
-- src/telemetry/telemetry-emitter.ts: the stages that the worker reports, and the envelope that the
-- AMQP emitter publishes for one. Its publish is not awaited and its errors are swallowed, so that
-- for the worker `emit` only records the input; with the other emitter it does nothing.
pub mod Gateway
use async_webhook_ingestion.Prelude.{ℕ, String, false, true, Option, none, some, []}
use async_webhook_ingestion.Json.{Json, str, num, nat, null, obj, end, field}
use async_webhook_ingestion.Messaging.{
  Publication, json, telemetry_exchange, telemetry_routing_key, telemetry_envelope_version,
}

pub data TelemetryStage : Type 0 where
  consuming processing_decision processed duplicate retry dead : TelemetryStage

abbrev pub stage_text : TelemetryStage → String
stage_text consuming = "consuming"
stage_text processing_decision = "processing_decision"
stage_text processed = "processed"
stage_text duplicate = "duplicate"
stage_text retry = "retry"
stage_text dead = "dead"

pub record TelemetryStageInput : Type 0 where
  pub stage : TelemetryStage
  pub correlation_id : String
  pub event_id : Option String
  pub event_type : String
  pub status : String
  pub attempts : ℕ

-- A text or `null`.
abbrev pub json_text : Option String → Json
json_text none = null
json_text (some s) = str s

-- The envelope as JSON; `ts` is the time of the call, as a text.
abbrev pub envelope : String → TelemetryStageInput → Json
envelope ts input = obj (
    field "version" (num (nat telemetry_envelope_version)) (
      field "stage" (str (stage_text input.stage)) (
        field "correlation_id" (str input.correlation_id) (
          field "event_id" (json_text input.event_id) (
            field "event_type" (str input.event_type) (
              field "status" (str input.status)
                (field "attempts" (num (nat input.attempts)) (field "ts" (str ts) end))))))))

-- What `AmqpTelemetryEmitter.emit` publishes. The connection's default is persistent.
unfoldable pub telemetry_publication : String → TelemetryStageInput → Publication
telemetry_publication ts input = record {
  exchange = telemetry_exchange;
  routing_key = telemetry_routing_key (stage_text input.stage);
  content = json (envelope ts input);
  persistent = true;
  mandatory = false;
  message_id = none;
  correlation_id = none;
  content_type = none;
  headers = [];
}
