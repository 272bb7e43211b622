-- ===== src/Examples/Edge.antt =====
-- The HTTP boundary, the publisher and the retry ladder on concrete requests.
use async_webhook_ingestion.Prelude.{
  String, true, false, ◌≡◌, ◌↔◌, refl, Option, none, some, List, [], ◌∷◌, ok, err, ◌==◌,
  if◌then◌else◌, lookup,
}
use async_webhook_ingestion.Timeout.{with_timeout}
use async_webhook_ingestion.Messaging.{
  RetryTier, Queue, webhook_exchange, order_received_routing_key, work_queue,
  retry_tier_for_attempt,
}
use async_webhook_ingestion.Messaging.Topology.{bound_to, IsRetryRoute, retry_route}
use async_webhook_ingestion.Boundary.{
  Request, one, plain_crypto, header_value, truthy_text, timing_safe_equal_string, unauthorized,
}
use async_webhook_ingestion.Boundary.AdminKey.{key_answer, admin_key_answer}
use async_webhook_ingestion.Boundary.AdminKey
use async_webhook_ingestion.Boundary.Signature.{
  Finite, SignatureGuard, can_activate, check_signature, check_headers, within_tolerance,
}
use async_webhook_ingestion.Boundary.Signature.Laws.{IsAuthentic, can_activate_iff}
use async_webhook_ingestion.Webhooks.Publisher.{begin_publish, finish_publish}
use async_webhook_ingestion.Webhooks.Publisher.Laws.{
  Meanwhile, returned, begun, finished, happen_all, was_returned, ConfirmedIn, publish_isolated,
}
use async_webhook_ingestion.Webhooks.Ingest.{ingest_order}
use async_webhook_ingestion.Webhooks.Ingest.Laws.{Answered, ingest_order-Answered}

abbrev number : String → Option Finite
number t =
    if t == "100" then some (record { is_negative = false; magnitude = 100; scale = 0 }) else none

abbrev guard : SignatureGuard
guard = record { secret = "key"; tolerance_seconds = 300 }

abbrev signed : Request
signed = record {
  headers = ("x-signature", one "key#100.{}") ∷ ("x-timestamp", one "100") ∷ [];
  raw_body = some "{}";
}

can_activate_iff_example :
    (can_activate plain_crypto number 110 guard signed ≡ ok true)
    ↔ IsAuthentic plain_crypto number 110 guard signed
        (truthy_text (header_value signed "x-signature"))
        (truthy_text (header_value signed "x-timestamp"))
can_activate_iff_example = can_activate_iff plain_crypto number 110 guard signed (λ s t h. h)

accepts_signed : can_activate plain_crypto number 110 guard signed ≡ ok true
unfolding can_activate header_value timing_safe_equal_string check_signature check_headers
    within_tolerance
accepts_signed = refl

refuses_stale :
    can_activate plain_crypto number 500 guard signed
    ≡ err (unauthorized "stale or invalid timestamp")
unfolding can_activate header_value timing_safe_equal_string check_signature check_headers
    within_tolerance
refuses_stale = refl

abbrev keyed : Request
keyed = record { headers = ("x-admin-key", one "wrong") ∷ []; raw_body = none }

admin_key_answer_example :
    AdminKey.can_activate plain_crypto "admin" keyed
    ≡ key_answer plain_crypto "admin" (truthy_text (header_value keyed "x-admin-key"))
admin_key_answer_example = admin_key_answer plain_crypto "admin" keyed (λ p e h. h)

abbrev meanwhile : List Meanwhile
meanwhile = begun "b" ∷ returned "b" ∷ finished "b" 5000 (some (20, ok tt)) ∷ []

publish_isolated_example :
    (((finish_publish 5000 "a" (some (10, ok tt)) (happen_all meanwhile (begin_publish "a" []))).0
        ≡ ok tt)
      ↔ (ConfirmedIn 5000 (some (10, ok tt)) × (was_returned "a" meanwhile ≡ false)))
    × (lookup "a"
          (finish_publish 5000 "a"
            (some (10, ok tt))
            (happen_all meanwhile (begin_publish "a" []))).1
        ≡ none)
publish_isolated_example =
    publish_isolated "a" meanwhile [] 5000 (some (10, ok tt)) (refl, (refl, tt))

ingest_order-Answered_example :
    Answered "corr_1"
      (was_returned "a" meanwhile)
      (with_timeout (some (10, ok tt)) 5000 "publisher confirm timed out")
      (ingest_order none "corr_1" (λ id.
        (finish_publish 5000 "a"
          (some (10, ok tt))
          (happen_all meanwhile (begin_publish "a" []))).0))
ingest_order-Answered_example =
    ingest_order-Answered none "corr_1" "a" meanwhile [] 5000 (some (10, ok tt)) (refl, (refl, tt))

retry_route_example :
    (t : RetryTier) × (retry_tier_for_attempt 2 ≡ some t)
    × ((q : Queue) × IsRetryRoute t q)
    × (w : Queue) × (bound_to webhook_exchange order_received_routing_key ≡ w ∷ [])
    × (w.name ≡ work_queue)
retry_route_example = retry_route 2
