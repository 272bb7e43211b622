-- ===== src/Board/Api.antt =====
-- web/src/lib/api.ts: the requests of the board and what it makes of the answers. Times, the runtime's
-- JSON functions and the configuration are arguments.
use Prim.Native.String
use async_webhook_ingestion.Prelude.{
  ⊤, ℕ, ◌/◌, String, Bool, not, ◌&&◌, Option, none, some, [], ◌∷◌, Result, ok, err, get_or, leb,
  ltb, if◌then◌else◌,
}
use async_webhook_ingestion.Json.{Json, str, as_string, property, is_object_type}
use async_webhook_ingestion.Errors.{Thrown, other_error}
use async_webhook_ingestion.Boundary.{Crypto, Request, one}
use async_webhook_ingestion.Board.Stages.{injected, unavailable, api_stage_for_status, is_null}
use async_webhook_ingestion.Board.Signing.{SignedRequest, sign_request}
use async_webhook_ingestion.Board.Reducer.{TriggerResult}
use async_webhook_ingestion.Board.Scenarios.{TriggerSpec}

-- What the board reads of a response.
pub record Response : Type 0 where
  pub status : ℕ
  pub text : String
  pub correlation_id : Option String

-- `response.ok`
abbrev pub is_ok_status : ℕ → Bool
is_ok_status status = leb 200 status && ltb status 300

-- A request with its target, `config.apiUrl` left out.
pub record ApiRequest : Type 0 where
  pub method : String
  pub path : String
  pub request : Request

abbrev pub parsed_or_text : Option Json → String → Json
parsed_or_text body text = get_or body (str text)

-- `isRecord(body) && typeof body.correlation_id === 'string' ? body.correlation_id : null`
abbrev pub correlation_in : Json → Option String
correlation_in body =
    if is_object_type body && not (is_null body)
    then as_string (property "correlation_id" body)
    else none

abbrev either_id : Option String → Option String → Option String
either_id none o = o
either_id (some id) o = some id

module _ (crypto : Crypto) (text_of : ℕ → String) (stringify : Json → String) (hmac_secret : String)
    (now_ms : ℕ) where
  abbrev pub signed_of : TriggerSpec → SignedRequest
  signed_of spec =
      sign_request crypto text_of (get_or spec.secret_override hmac_secret) (stringify spec.body)
        (get_or spec.timestamp_override (now_ms / 1000))

  unfoldable pub trigger_request : TriggerSpec → ApiRequest
  trigger_request spec = record {
    method = "POST";
    path = "/webhooks/orders";
    request = record {
      headers =
          ("content-type", one "application/json")
          ∷ ("x-signature", one (signed_of spec).signature)
          ∷ ("x-timestamp", one (signed_of spec).timestamp)
          ∷ ("x-correlation-id", one spec.correlation_id)
          ∷ [];
      raw_body = some (stringify spec.body);
    };
  }

  unfoldable pub trigger_result :
      (parse_json : String → Option Json)
      → (latency_ms : ℕ) → TriggerSpec
      → Response
      → TriggerResult
  trigger_result parse_json latency_ms spec response =
      let body = parsed_or_text (parse_json response.text) response.text in
      record {
        correlation_id = spec.correlation_id;
        event_id = spec.event_id;
        event_type = spec.event_type;
        status = response.status;
        is_ok = is_ok_status response.status;
        body_text = response.text;
        body = body;
        latency_ms = latency_ms;
        signed = signed_of spec;
        api_stage = api_stage_for_status response.status;
        responded_correlation_id = either_id response.correlation_id (correlation_in body);
      }

unfoldable pub poison_request : TriggerSpec → ApiRequest
poison_request spec = record {
  method = "POST";
  path = "/demo/poison";
  request = record {
    headers = ("x-correlation-id", one spec.correlation_id) ∷ [];
    raw_body = none;
  };
}

abbrev pub unsigned : SignedRequest
unsigned = record { timestamp = ""; raw_body = ""; canonical = ""; signature = "" }

unfoldable pub poison_result :
    (parse_json : String → Option Json) → (latency_ms : ℕ) → TriggerSpec → Response → TriggerResult
poison_result parse_json latency_ms spec response =
    let body = parsed_or_text (parse_json response.text) response.text in
    record {
      correlation_id = spec.correlation_id;
      event_id = none;
      event_type = spec.event_type;
      status = response.status;
      is_ok = is_ok_status response.status;
      body_text = response.text;
      body = body;
      latency_ms = latency_ms;
      signed = unsigned;
      api_stage = if is_ok_status response.status then injected else unavailable;
      responded_correlation_id = correlation_in body;
    }

-- The requests of the dead-letter panel, with the admin key.
abbrev admin_request : (method path admin_key : String) → ApiRequest
admin_request method path admin_key = record {
  method = method;
  path = path;
  request = record { headers = ("x-admin-key", one admin_key) ∷ []; raw_body = none };
}

abbrev pub fetch_dlq_request : (admin_key : String) → ApiRequest
fetch_dlq_request admin_key = admin_request "GET" "/dlq" admin_key

abbrev pub discard_dlq_request : (admin_key id : String) → ApiRequest
discard_dlq_request admin_key id = admin_request "DELETE" (String.◌++◌ "/dlq/" id) admin_key

abbrev pub replay_dlq_request : (admin_key id : String) → ApiRequest
replay_dlq_request admin_key id =
    admin_request "POST" (String.◌++◌ "/dlq/" (String.◌++◌ id "/replay")) admin_key

-- `if (!response.ok) throw new Error(…)`
abbrev checked : (failure : String) → Response → Result Thrown ⊤
checked failure response = if is_ok_status response.status then ok tt else err (other_error failure)

-- `response.json()`, which throws on a text that is no JSON.
abbrev read_json :
    (parse_json : String → Option Json) (invalid : Thrown) → Response → Result Thrown Json
read_json parse_json invalid response = elim (parse_json response.text) [
  | none ↦ err invalid
  | some body ↦ ok body
]

abbrev then_read : Result Thrown ⊤ → Result Thrown Json → Result Thrown Json
then_read (ok u) body = body
then_read (err e) body = err e

module _ (text_of : ℕ → String) where
  unfoldable pub discard_dlq : (id : String) → Response → Result Thrown ⊤
  discard_dlq id response =
      checked
        (String.◌++◌ "DELETE /dlq/"
          (String.◌++◌ id (String.◌++◌ " failed with " (text_of response.status))))
        response

  module _ (parse_json : String → Option Json) (invalid : Thrown) where
    unfoldable pub fetch_dlq : Response → Result Thrown Json
    fetch_dlq response =
        then_read (checked (String.◌++◌ "GET /dlq failed with " (text_of response.status)) response)
          (read_json parse_json invalid response)

    unfoldable pub replay_dlq : Response → Result Thrown Json
    replay_dlq response =
        then_read (checked (String.◌++◌ "replay failed with " (text_of response.status)) response)
          (read_json parse_json invalid response)
