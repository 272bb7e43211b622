-- ===== src/Webhooks/Publisher.antt =====
-- `RabbitEventPublisher` of src/webhooks/rabbit-event-publisher.ts. Its map of pending publishes, by
-- token, holds for each the flag that its closure sets; publishes and returned messages interleave.
pub mod Laws
use async_webhook_ingestion.Prelude.{
  ⊤, ℕ, String, Bool, true, false, Option, none, some, List, [], ◌∷◌, Result, ok, err, lookup,
  insert, erase, get_or, ◌==◌, if◌then◌else◌,
}
use async_webhook_ingestion.Json.{Json, str, obj, end, field, as_string}
use async_webhook_ingestion.Errors.{Thrown, other_error}
use async_webhook_ingestion.Messaging.{
  Publication, json, webhook_exchange, order_received_routing_key,
}
use async_webhook_ingestion.Timeout.{Pending, with_timeout}

abbrev pub publish_token_header : String
publish_token_header = "x-publish-token"

-- `OrderWebhookDto`, validated.
pub record OrderWebhook : Type 0 where
  pub event_id : String
  pub event_type : String
  pub payload : Json

unfoldable pub event_publication : OrderWebhook → (correlation_id token : String) → Publication
event_publication event correlation_id token = record {
  exchange = webhook_exchange;
  routing_key = order_received_routing_key;
  content = json (
      obj (
        field "event_id" (str event.event_id) (
          field "event_type" (str event.event_type)
            (field "payload" event.payload (field "correlation_id" (str correlation_id) end)))));
  persistent = true;
  mandatory = true;
  message_id = some event.event_id;
  correlation_id = some correlation_id;
  content_type = some "application/json";
  headers = ("x-correlation-id", str correlation_id) ∷ (publish_token_header, str token) ∷ [];
}

abbrev pub PendingReturns : Type 0
PendingReturns = List (String × Bool)

-- `pendingReturns.get(token)?.()`
unfoldable pub mark_returned : String → PendingReturns → PendingReturns
mark_returned token [] = []
mark_returned token ((t, returned) ∷ m) =
    if t == token then (t, true) ∷ mark_returned token m else (t, returned) ∷ mark_returned token m

abbrev return_of : Option String → PendingReturns → PendingReturns
return_of none m = m
return_of (some token) m = mark_returned token m

-- The listener on basic.return, by the headers of the returned message.
unfoldable pub on_return : List (String × Json) → PendingReturns → PendingReturns
on_return headers m = return_of (as_string (lookup publish_token_header headers)) m

-- The part of `publish` before it waits.
unfoldable pub begin_publish : (token : String) → PendingReturns → PendingReturns
begin_publish token m = insert token false m

abbrev pub verdict : Bool → Result Thrown ⊤ → Result Thrown ⊤
verdict returned (err e) = err e
verdict returned (ok u) =
    if returned then err (other_error "message returned as unroutable") else ok u

-- The part of `publish` after it has waited for the confirm: the `finally`, and the test of the flag.
unfoldable pub finish_publish :
    (confirm_timeout_ms : ℕ) (token : String)
    → Pending ⊤
    → PendingReturns
    → Result Thrown ⊤ × PendingReturns
finish_publish confirm_timeout_ms token confirm m = (
  verdict (get_or (lookup token m) false)
      (with_timeout confirm confirm_timeout_ms "publisher confirm timed out"),
  erase token m,
)
