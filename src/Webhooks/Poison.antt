-- ===== src/Webhooks/Poison.antt =====
-- src/webhooks/demo-poison.controller.ts, which publishes a broken message in demo mode, and
-- src/common/demo-mode.ts. The variables of the environment are arguments.
use async_webhook_ingestion.Prelude.{
  ⊤, String, Bool, true, false, ◌&&◌, Option, none, some, [], ◌∷◌, Result, ok, err, get_or, ◌==◌,
  if◌then◌else◌,
}
use async_webhook_ingestion.Json.{str}
use async_webhook_ingestion.Errors.{Thrown, http_exception, other_error}
use async_webhook_ingestion.Messaging.{
  Publication, bytes, webhook_exchange, order_received_routing_key,
}
use async_webhook_ingestion.Webhooks.Ingest.{Accepted}

abbrev is_text : String → Option String → Bool
is_text t none = false
is_text t (some s) = s == t

unfoldable pub is_demo_mode : Option String → Bool
is_demo_mode value = is_text "true" value

abbrev pub default_web_origin : String
default_web_origin = "http://localhost:5173"

unfoldable pub demo_web_origin : Option String → String
demo_web_origin none = default_web_origin
demo_web_origin (some value) = if value == "" then default_web_origin else value

unfoldable pub assert_demo_mode_allowed :
    (demo_mode : Bool) (node_env : Option String) → Result Thrown ⊤
assert_demo_mode_allowed demo_mode node_env =
    if demo_mode && is_text "production" node_env
    then err (
        other_error
          "DEMO_MODE is not allowed with NODE_ENV=production: it exposes public HMAC and admin credentials")
    else ok tt

abbrev pub poison_bytes : String
poison_bytes = "{\"event_id\": <not even json"

unfoldable pub poison_publication : (correlation_id : String) → Publication
poison_publication correlation_id = record {
  exchange = webhook_exchange;
  routing_key = order_received_routing_key;
  content = bytes poison_bytes;
  persistent = true;
  mandatory = false;
  message_id = none;
  correlation_id = some correlation_id;
  content_type = some "application/json";
  headers = ("x-correlation-id", str correlation_id) ∷ [];
}

abbrev injected : String → Result Thrown ⊤ → Result Thrown Accepted
injected correlation_id (ok u) =
    ok (record { correlation_id = correlation_id; status = "injected" })
injected correlation_id (err e) = err e

unfoldable pub inject :
    (demo_mode current : Option String) (uuid : String)
    → (Publication → Result Thrown ⊤)
    → Result Thrown Accepted
inject demo_mode current uuid broker =
    let correlation_id = get_or current uuid in
    if is_demo_mode demo_mode
    then injected correlation_id (broker (poison_publication correlation_id))
    else err (http_exception 404 "Not Found")
