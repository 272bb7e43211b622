-- ===== src/Webhooks/Endpoint.antt =====
-- POST /webhooks/orders of src/webhooks/webhooks.controller.ts from the request to the answer: the body
-- is parsed, the signature guard runs, the body is validated by src/webhooks/dto/order-webhook.dto.ts,
-- and the event is published. The throttler lets the request pass.
use async_webhook_ingestion.Prelude.{
  ⊤, ℕ, String, Bool, true, ◌&&◌, Option, none, some, [], ◌∷◌, Result, ok, err, member, leb,
  if◌then◌else◌,
}
use async_webhook_ingestion.Json.{
  Json, null, bool, num, str, arr, obj, Fields, end, field, as_nonempty, lookup_field,
}
use async_webhook_ingestion.Errors.{
  Thrown, transient_processing_error, permanent_processing_error, query_failed, http_exception,
  other_error, non_error,
}
use async_webhook_ingestion.Boundary.{Crypto, Request}
use async_webhook_ingestion.Boundary.Signature.{Finite, SignatureGuard, can_activate}
use async_webhook_ingestion.Webhooks.Publisher.{OrderWebhook}
use async_webhook_ingestion.Webhooks.Ingest.{Accepted, ingest_order}

abbrev pub max_id_length : ℕ
max_id_length = 255

-- A body with a property that the class does not declare is refused.
abbrev pub only_declared : Fields → Bool
only_declared end = true
only_declared (field key value fields) =
    member key ("event_id" ∷ "event_type" ∷ "payload" ∷ []) && only_declared fields

abbrev as_object : Option Json → Option Json
as_object none = none
as_object (some null) = none
as_object (some (bool b)) = none
as_object (some (num n)) = none
as_object (some (str s)) = none
as_object (some (arr vs)) = none
as_object (some (obj fs)) = some (obj fs)

-- `length_of` counts the characters of a text as the validator does.
module _ (length_of : String → ℕ) where
  -- `@IsString()`, `@IsNotEmpty()` and `@MaxLength(MAX_ID_LENGTH)`
  abbrev pub as_id : Option String → Option String
  as_id none = none
  as_id (some text) = if leb (length_of text) max_id_length then some text else none

  abbrev pub order_from : Option String → Option String → Option Json → Option OrderWebhook
  order_from none event_type payload = none
  order_from (some id) none payload = none
  order_from (some id) (some event_type) none = none
  order_from (some id) (some event_type) (some payload) =
      some (record { event_id = id; event_type = event_type; payload = payload })

  abbrev pub order_of_fields : Fields → Option OrderWebhook
  order_of_fields fields =
      if only_declared fields
      then order_from (as_id (as_nonempty (lookup_field "event_id" fields)))
          (as_id (as_nonempty (lookup_field "event_type" fields)))
          (as_object (lookup_field "payload" fields))
      else none

  unfoldable pub order_of : Json → Option OrderWebhook
  order_of null = none
  order_of (bool b) = none
  order_of (num n) = none
  order_of (str s) = none
  order_of (arr vs) = none
  order_of (obj fields) = order_of_fields fields

  abbrev bad_request : Thrown
  bad_request = http_exception 400 "Bad Request"

  -- `publish` by the event and its correlation id.
  module _ (current : Option String) (uuid : String)
      (publish : OrderWebhook → String → Result Thrown ⊤) where
    abbrev ingest_valid : Option OrderWebhook → Result Thrown Accepted
    ingest_valid none = err bad_request
    ingest_valid (some order) = ingest_order current uuid (publish order)

    abbrev pub after_guard : Json → Result Thrown Bool → Result Thrown Accepted
    after_guard body (err e) = err e
    after_guard body (ok b) = ingest_valid (order_of body)

    abbrev guarded : Result Thrown Bool → Option Json → Result Thrown Accepted
    guarded verdict none = err bad_request
    guarded verdict (some body) = after_guard body verdict

    -- `parse_body` is the framework's parser, `none` for a body that it refuses.
    unfoldable pub post_orders :
        Crypto
        → (String → Option Finite)
        → (now : ℕ) → SignatureGuard
        → (parse_body : Option String → Option Json) → Request
        → Result Thrown Accepted
    post_orders crypto number now guard parse_body request =
        guarded (can_activate crypto number now guard request) (parse_body request.raw_body)

abbrev thrown_status : Thrown → ℕ
thrown_status (http_exception status m) = status
thrown_status (transient_processing_error m) = 500
thrown_status (permanent_processing_error m) = 500
thrown_status (query_failed c m) = 500
thrown_status (other_error m) = 500
thrown_status (non_error m) = 500

-- The status of the answer, `@HttpCode(HttpStatus.ACCEPTED)` without an error.
abbrev pub answer_status : Result Thrown Accepted → ℕ
answer_status (ok accepted) = 202
answer_status (err e) = thrown_status e
