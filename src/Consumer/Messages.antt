-- ===== src/Consumer/Messages.antt =====
-- What `OrderConsumer` of src/consumer/order-consumer.ts reads off a message and publishes.
use async_webhook_ingestion.Prelude.{
  ℕ, String, Bool, true, false, ◌||◌, Option, none, some, [], ◌∷◌, lookup, get_or, is_some,
  if◌then◌else◌, ◌&&◌,
}
use async_webhook_ingestion.Json.{
  Json, null, num, nat, str, obj, end, field, property, as_string, as_nonempty, truthy,
  is_object_type,
}
use async_webhook_ingestion.Messaging.{
  Publication, Delivery, json, RetryTier, attempt_header, retry_exchange, dead_letter_exchange,
  dead_letter_routing_key,
}
use async_webhook_ingestion.Telemetry.{json_text}
use async_webhook_ingestion.Consumer.Handler.{
  HandledEvent, ProcessDecision, processed, duplicate, retry, dead,
}

pub record DeadLetter : Type 0 where
  pub event_id : Option String
  pub correlation_id : String
  pub reason : String
  pub attempts : ℕ
  pub payload : String

-- The letters of the three branches that write one.
abbrev pub dead_letter_for : (raw : String) → HandledEvent → ℕ → (reason : String) → DeadLetter
dead_letter_for raw event attempts reason = record {
  event_id = some event.event_id;
  correlation_id = event.correlation_id;
  reason = reason;
  attempts = attempts;
  payload = raw;
}

abbrev pub dead_letter_unparseable : (raw correlation_id : String) → DeadLetter
dead_letter_unparseable raw correlation_id = record {
  event_id = none;
  correlation_id = correlation_id;
  reason = "unparseable payload or missing event_id";
  attempts = 0;
  payload = raw;
}

unfoldable pub dead_letter_publication : DeadLetter → Publication
dead_letter_publication letter = record {
  exchange = dead_letter_exchange;
  routing_key = dead_letter_routing_key;
  content = json (
      obj (
        field "event_id" (json_text letter.event_id) (
          field "correlation_id" (str letter.correlation_id) (
            field "reason" (str letter.reason) (
              field "attempts" (num (nat letter.attempts))
                (field "payload" (str letter.payload) end))))));
  persistent = true;
  mandatory = false;
  message_id = letter.event_id;
  correlation_id = some letter.correlation_id;
  content_type = none;
  headers = ("x-correlation-id", str letter.correlation_id) ∷ [];
}

unfoldable pub retry_publication : HandledEvent → RetryTier → ℕ → Publication
retry_publication event tier attempts = record {
  exchange = retry_exchange;
  routing_key = tier.routing_key;
  content = json (
      obj (
        field "event_id" (str event.event_id) (
          field "event_type" (str event.event_type) (
            field "payload" event.payload
              (field "correlation_id" (str event.correlation_id) end)))));
  persistent = true;
  mandatory = false;
  message_id = some event.event_id;
  correlation_id = some event.correlation_id;
  content_type = none;
  headers =
      (attempt_header, num (nat attempts)) ∷ ("x-correlation-id", str event.correlation_id) ∷ [];
}

-- `parsed.payload && typeof parsed.payload === 'object' ? parsed.payload : {}`
abbrev pub payload_or_empty : Option Json → Json
payload_or_empty none = obj end
payload_or_empty (some p) = if truthy p && is_object_type p then p else obj end

abbrev pub event_of : String → String → Json → HandledEvent
event_of id correlation_id parsed = record {
  event_id = id;
  event_type = get_or (as_string (property "event_type" parsed)) "unknown";
  correlation_id = correlation_id;
  payload = payload_or_empty (property "payload" parsed);
}

-- The event id, unless the message is falsy or its id is no text or empty.
abbrev pub event_id_of : Json → Option String
event_id_of parsed = if truthy parsed then as_nonempty (property "event_id" parsed) else none

unfoldable pub is_continuation : Delivery → Bool
is_continuation m = is_some (lookup attempt_header m.headers) || m.redelivered

unfoldable pub outcome_text : ProcessDecision → String
outcome_text (processed n) = "processed"
outcome_text (duplicate n) = "duplicate"
outcome_text (retry n) = "retry"
outcome_text (dead n reason) = "dead"

abbrev pub attempts_of : ProcessDecision → ℕ
attempts_of (processed n) = n
attempts_of (duplicate n) = n
attempts_of (retry n) = n
attempts_of (dead n reason) = n

module _ (parse_json : String → Option Json) where
  -- `parse`: `null` where `JSON.parse` throws.
  abbrev pub parse : String → Json
  parse raw = get_or (parse_json raw) null

  -- `correlationOf`, with the UUID that it would draw.
  unfoldable pub correlation_of : (uuid : String) → Delivery → String
  correlation_of uuid m =
      let from_body = get_or (as_nonempty (property "correlation_id" (parse m.raw))) uuid in
      let from_header = get_or (as_nonempty (lookup "x-correlation-id" m.headers)) from_body in
      get_or (as_nonempty m.correlation_id) from_header
