-- ===== src/Examples.antt =====
-- Concrete runs: the data that the children share. The children hold tests, and for each result of
-- the development a case in which its hypotheses hold.
mod Worker
mod Letters
mod Edge
mod Screen
mod Setup
mod Playback
mod Admin
mod Relay
mod Answers
mod Buttons
use async_webhook_ingestion.Prelude.{
  ⊤, ℕ, String, Bool, true, false, Option, none, some, List, [], ◌∷◌, Result, ok, err, ◌==◌,
  if◌then◌else◌,
}
use async_webhook_ingestion.Json.{Json, obj, str, field, end, nat}
use async_webhook_ingestion.Errors.{Thrown, other_error}
use async_webhook_ingestion.Messaging.{Publication, Delivery}
use async_webhook_ingestion.Timeout.{Pending}
use async_webhook_ingestion.Events.{Event, EventStatus, DlqMessage}
use async_webhook_ingestion.Events.Database.{Rows}
use async_webhook_ingestion.Worker.{World}
use async_webhook_ingestion.Consumer.Handler.{HandledEvent, OrderHandler}

abbrev pub order_json : Json
order_json = obj (
    field "event_id" (str "evt_1")
      (field "event_type" (str "order.created") (field "payload" (obj end) end)))

abbrev pub unlucky_json : Json
unlucky_json = obj (
    field "event_id" (str "evt_1")
      (field "event_type" (str "unlucky") (field "payload" (obj end) end)))

-- A parser that knows two texts.
abbrev pub parse_two : String → Option Json
parse_two raw =
    if raw == "order" then some order_json else if raw == "unlucky" then some unlucky_json else none

abbrev pub delivery : String → Delivery
delivery raw = record {
  raw = raw;
  correlation_id = some (str "corr_1");
  message_id = some (str "evt_1");
  headers = [];
  redelivered = false;
}

abbrev pub accepts : Publication → Result Thrown ⊤
accepts p = ok tt

abbrev pub confirms : Publication → Pending ⊤
confirms p = some (10, ok tt)

abbrev pub no_rows : Rows
no_rows = record { events = λ k. none; letters = [] }

abbrev pub world : Rows → World Rows
world r = record { db = r; log = [] }

abbrev pub order_event : HandledEvent
order_event = record {
  event_id = "evt_1";
  event_type = "order.created";
  correlation_id = "corr_1";
  payload = obj end;
}

abbrev pub failing : OrderHandler
failing event attempt = err (other_error "down")

abbrev pub order_row : EventStatus → ℕ → Event
order_row status attempts = record {
  event_id = "evt_1";
  event_type = "order.created";
  status = status;
  attempts = attempts;
  duplicate_count = 0;
  correlation_id = "corr_1";
  payload = obj end;
  failure_reason = none;
}

abbrev pub letter : DlqMessage
letter = record {
  id = "letter-1";
  message_id = some "evt_1";
  correlation_id = "corr_1";
  event_id = some "evt_1";
  reason = "down";
  attempts = nat 4;
  payload = some "order";
  created_at = 0;
  replayed_at = none;
}

abbrev pub one_letter : EventStatus → Rows
one_letter status = record {
  events = λ k. if k == "evt_1" then some (order_row status 4) else none;
  letters = letter ∷ [];
}
