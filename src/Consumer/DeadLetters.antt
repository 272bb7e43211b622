-- ===== src/Consumer/DeadLetters.antt =====
-- `DlqConsumer` of src/consumer/dlq-consumer.ts: what it makes of a message of the dead-letter queue.
pub mod Laws
pub mod Redelivery
use async_webhook_ingestion.Prelude.{⊤, ℕ, String, Option, none, some, Result, ok, err, get_or}
use async_webhook_ingestion.Json.{
  Json, null, bool, num, nat, str, arr, obj, end, field, Number, property, as_string, as_nonempty,
  as_number,
}
use async_webhook_ingestion.Errors.{Thrown, other_error}
use async_webhook_ingestion.Messaging.{Delivery}
use async_webhook_ingestion.Events.{Event, EventStatus, NewDeadLetter}
use async_webhook_ingestion.Events.Database
use async_webhook_ingestion.Events.Database.{Database, Tx}
use async_webhook_ingestion.Worker.{
  Action, pure, raise, attempt, perform, count_dead_letter, transaction, ◌>>=◌, ◌>>◌,
}
use async_webhook_ingestion.Consumer.Orders.{Verdict, ack, requeue}

-- `parse`: the body, or an object that holds the text of a message that is no JSON.
abbrev pub parse_dead : (String → Option Json) → String → Json
parse_dead parse_json raw = get_or (parse_json raw) (obj (field "payload" (str raw) end))

abbrev pub correlation_of_dead : Json → Delivery → String
correlation_of_dead letter m =
    get_or (as_nonempty (property "correlation_id" letter))
      (get_or (as_string m.correlation_id) "unknown")

abbrev pub event_id_of_dead : Json → Option String
event_id_of_dead letter = as_nonempty (property "event_id" letter)

-- `typeof messageId === 'string' ? messageId : eventId`
abbrev or_event_id : Option String → Option String → Option String
or_event_id (some id) event_id = some id
or_event_id none event_id = event_id

abbrev pub letter_values : Json → Delivery → NewDeadLetter
letter_values letter m = record {
  message_id = or_event_id (as_string m.message_id) (event_id_of_dead letter);
  correlation_id = correlation_of_dead letter m;
  event_id = event_id_of_dead letter;
  reason = get_or (as_string (property "reason" letter)) "unknown";
  attempts = get_or (as_number (property "attempts" letter)) (nat 0);
  payload = get_or (as_string (property "payload" letter)) m.raw;
}

abbrev pub mark_dead : Event → Event
mark_dead row = record row { status = EventStatus.dead }

module _ (db : Database) where
  abbrev mark_event : Option String → Tx db.Db ⊤
  mark_event none d = ok (tt, d)
  mark_event (some id) d = db.update_event id mark_dead d

  unfoldable pub record_letter : NewDeadLetter → Tx db.Db ⊤
  record_letter values = Database.◌>>◌ (db.insert_dead_letter values) (mark_event values.event_id)

  -- The `try` and its `catch`.
  abbrev conclude_letter : Result Thrown ⊤ → Action db.Db Verdict
  conclude_letter (ok u) = perform count_dead_letter >> pure ack
  conclude_letter (err e) = pure requeue

  unfoldable pub persist : NewDeadLetter → Action db.Db Verdict
  unfolding record_letter
  persist values = do
    result ← attempt (transaction db (record_letter values))
    conclude_letter result

  -- The properties of `null` cannot be read: the error leaves the handler, whose `try` begins later.
  unfoldable pub persist_body : Json → Delivery → Action db.Db Verdict
  unfolding persist
  persist_body null m = raise (other_error "Cannot read properties of null (reading 'event_id')")
  persist_body (bool b) m = persist (letter_values (bool b) m)
  persist_body (num n) m = persist (letter_values (num n) m)
  persist_body (str s) m = persist (letter_values (str s) m)
  persist_body (arr vs) m = persist (letter_values (arr vs) m)
  persist_body (obj fs) m = persist (letter_values (obj fs) m)

  unfoldable pub handle : (parse_json : String → Option Json) → Delivery → Action db.Db Verdict
  unfolding persist_body
  handle parse_json m = persist_body (parse_dead parse_json m.raw) m
