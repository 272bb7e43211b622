-- ===== src/Board/Answers.antt =====
-- What the service answers to the buttons of the board: web/src/lib/scenarios.ts through
-- web/src/lib/api.ts, src/webhooks/webhooks.controller.ts and src/webhooks/demo-poison.controller.ts.
pub mod Verdicts
pub mod Laws
use Prim.Native.String
use Prim.Native.Nat.{◌^◌}
use async_webhook_ingestion.Prelude.{
  ⊤, ℕ, ◌+◌, ◌-◌, ◌*◌, ◌/◌, ◌≤◌, ◌<◌, String, Bool, true, false, ◌≡◌, ◌≢◌, refl, sym, ap, ◌∙◌,
  subst, Option, none, some, List, [], ◌∷◌, map, Result, ok, err, get_or, eq_iff, arith,
  if◌then◌else◌, ◌==◌, leb, Bool-cases, inl, inr,
}
use async_webhook_ingestion.Json.{Json, str, Fields, end, field, num, nat, as_nonempty}
use async_webhook_ingestion.Errors.{Thrown}
use async_webhook_ingestion.Messaging.{Publication}
use async_webhook_ingestion.Boundary.{
  Crypto, Request, one, header_value, truthy_text, unauthorized, timing_safe_equal_string,
}
use async_webhook_ingestion.Boundary.Signature.{
  Finite, SignatureGuard, can_activate, check_headers, check_signature, within_tolerance,
}
use async_webhook_ingestion.Boundary.Signature.Laws.{authentic-can_activate}
use async_webhook_ingestion.Webhooks.Publisher.{OrderWebhook}
use async_webhook_ingestion.Webhooks.Ingest.{ingest_order}
use async_webhook_ingestion.Webhooks.Endpoint.{
  post_orders, answer_status, order_of, order_from, after_guard, as_id,
}
use async_webhook_ingestion.Webhooks.Poison.{inject, is_demo_mode, poison_publication}
use async_webhook_ingestion.Board.Signing.{sign_request, canonical_string}
use async_webhook_ingestion.Board.Api.{trigger_request, signed_of}
use async_webhook_ingestion.Board.Scenarios.{
  TriggerSpec, Fresh, outage_window_ms, ScenarioDef, event_type, payload_with, order_body,
}
use async_webhook_ingestion.Board.Scenarios.Definitions.{
  scenario_field, outage_fields, spec_of, poison_spec, malformed_body_spec, scenarios,
}

-- The runtime of both sides, the guard with the secret that the board signs with, and one clock.
pub record Deployment : Type 1 where
  pub crypto : Crypto
  pub number : String → Option Finite
  pub text_of : ℕ → String
  pub stringify : Json → String
  pub parse_body : Option String → Option Json
  pub length_of : String → ℕ
  pub guard : SignatureGuard
  pub publish : OrderWebhook → String → Result Thrown ⊤
  pub broker : Publication → Result Thrown ⊤
  pub uuid : String
  pub fresh : Fresh

abbrev pub now_seconds : Deployment → ℕ
now_seconds d = d.fresh.now_ms / 1000

abbrev pub request_of : Deployment → TriggerSpec → Request
request_of d spec =
    (trigger_request d.crypto d.text_of d.stringify d.guard.secret d.fresh.now_ms spec).request

-- The status of the answer to one request of the board.
abbrev pub order_status : Deployment → TriggerSpec → ℕ
order_status d spec = answer_status (
    post_orders d.length_of (some spec.correlation_id) d.uuid d.publish d.crypto d.number
      (now_seconds d) d.guard d.parse_body (request_of d spec))

abbrev pub poison_status : Deployment → TriggerSpec → ℕ
poison_status d spec =
    answer_status (inject (some "true") (some spec.correlation_id) d.uuid d.broker)

abbrev pub statuses : Deployment → ScenarioDef → List ℕ
statuses d scenario =
    map (if scenario.inject then poison_status d else order_status d) (scenario.build d.fresh)

abbrev pub joined : (ℕ → String) → List ℕ → String
joined text_of [] = ""
joined text_of (n ∷ []) = text_of n
joined text_of (n ∷ (m ∷ ns)) =
    String.◌++◌ (text_of n) (String.◌++◌ " / " (joined text_of (m ∷ ns)))

-- A time whose text is not empty and reads as the time.
abbrev pub Reads : Deployment → ℕ → Type 0
Reads d n =
    (d.number (d.text_of n) ≡ some (record { is_negative = false; magnitude = n; scale = 0 }))
    × (d.text_of n ≢ "")

-- The bodies that the board sends.
pub data Sent (d : Deployment) : Json → Type 0 where
  plain : Sent d (order_body d.fresh.event_id end)
  transient : Sent d (order_body d.fresh.event_id (scenario_field "transient"))
  exhaust : Sent d (order_body d.fresh.event_id (outage_fields d.fresh.now_ms))
  permanent : Sent d (order_body d.fresh.event_id (scenario_field "permanent"))
  malformed : Sent d (malformed_body_spec d.fresh).body

-- What the runtime documents, a guard with a window under 600 s, ids as the board makes them, and a
-- broker that confirms.
pub record IsSound (d : Deployment) : Type 0 where
  pub now_read : Reads d (now_seconds d)
  pub late_read : Reads d (now_seconds d - 600)
  pub shows_202 : d.text_of 202 ≡ "202"
  pub shows_400 : d.text_of 400 ≡ "400"
  pub shows_401 : d.text_of 401 ≡ "401"
  pub signs : (key message : String) → d.crypto.hmac_sha256_hex key message ≢ ""
  pub wrong_secret :
      (message : String)
      → d.crypto.sha256 (d.crypto.hmac_sha256_hex "wrong-secret" message)
        ≢ d.crypto.sha256 (d.crypto.hmac_sha256_hex d.guard.secret message)
  pub parses : (v : Json) → Sent d v → d.parse_body (some (d.stringify v)) ≡ some v
  pub window : d.guard.tolerance_seconds < 600
  pub late : 600 ≤ now_seconds d
  pub type_length : d.length_of event_type ≤ 255
  pub id_length : d.length_of d.fresh.event_id ≤ 255
  pub id_there : d.fresh.event_id ≢ ""
  pub publishes : (order : OrderWebhook) (id : String) → d.publish order id ≡ ok tt
  pub injects : (p : Publication) → d.broker p ≡ ok tt
