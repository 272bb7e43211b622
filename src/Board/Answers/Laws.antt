-- ===== src/Board/Answers/Laws.antt =====
-- The service answers to each button of the board what the button expects.
use Prim.Native.String
use async_webhook_ingestion.Prelude.{
  ℕ, ◌-◌, ◌≤◌, String, Bool, true, false, ◌≡◌, ◌≢◌, refl, ap, ◌∙◌, none, some, List, ◌∷◌, map,
  Result, ok, err, eq_iff, arith, ◌==◌,
}
use async_webhook_ingestion.Json.{str, Fields, end, as_nonempty}
use async_webhook_ingestion.Errors.{Thrown}
use async_webhook_ingestion.Boundary.{unauthorized}
use async_webhook_ingestion.Webhooks.Publisher.{OrderWebhook}
use async_webhook_ingestion.Webhooks.Ingest.{ingest_order}
use async_webhook_ingestion.Webhooks.Endpoint.{
  post_orders, answer_status, order_of, order_from, after_guard, as_id,
}
use async_webhook_ingestion.Webhooks.Poison.{inject, is_demo_mode, poison_publication}
use async_webhook_ingestion.Board.Signing.{sign_request}
use async_webhook_ingestion.Board.Api.{trigger_request}
use async_webhook_ingestion.Board.Scenarios.{TriggerSpec, event_type, payload_with, order_body}
use async_webhook_ingestion.Board.Scenarios.Definitions.{
  scenario_field, outage_fields, spec_of, poison_spec, malformed_body_spec, scenarios,
}
use async_webhook_ingestion.Board.Answers.{
  Deployment, IsSound, Sent, now_seconds, request_of, order_status, poison_status, statuses, joined,
}
use async_webhook_ingestion.Board.Answers.Verdicts.{
  leb-true, signed_by, verdict_on, signed_by-passes, signed_by-wrong, signed_by-stale,
}

module _ (d : Deployment) (sound : IsSound d) where
  short_id : (text : String) → d.length_of text ≤ 255 → as_id d.length_of (some text) ≡ some text
  short_id text h = rw (leb-true (d.length_of text) 255 h) refl

  nonempty_id :
      as_id d.length_of (as_nonempty (some (str d.fresh.event_id))) ≡ some d.fresh.event_id
  nonempty_id =
      rw (not_empty d.fresh.event_id sound.id_there) (short_id d.fresh.event_id sound.id_length)
    where
      not_empty : (s : String) → s ≢ "" → (s == "") ≡ false
      not_empty s h = ground (arith, eq_iff s "", h)

  -- A body with the ids of the board, whatever its payload has more.
  abbrev order_with : Fields → OrderWebhook
  order_with extra = record {
    event_id = d.fresh.event_id;
    event_type = event_type;
    payload = payload_with extra;
  }

  order_of-order_body :
      (extra : Fields)
      → order_of d.length_of (order_body d.fresh.event_id extra) ≡ some (order_with extra)
  unfolding order_of order_body
  order_of-order_body extra =
      ap
        (λ id.
          order_from d.length_of id (as_id d.length_of (some event_type))
            (some (payload_with extra)))
        nonempty_id
      ∙ ap (λ t. order_from d.length_of (some d.fresh.event_id) t (some (payload_with extra)))
          (short_id event_type sound.type_length)

  order_status-after :
      (spec : TriggerSpec) (v : Result Thrown Bool)
      → Sent d spec.body
      → verdict_on d sound (request_of d spec) ≡ v
      → order_status d spec
        ≡ answer_status
            (after_guard d.length_of (some spec.correlation_id) d.uuid d.publish spec.body v)
  unfolding post_orders trigger_request
  order_status-after spec v sent h = rw (sound.parses spec.body sent, h) refl

  accepted :
      (spec : TriggerSpec) (extra : Fields)
      → Sent d spec.body
      → request_of d spec
        ≡ signed_by d sound d.guard.secret
            (now_seconds d)
            (d.stringify spec.body)
            spec.correlation_id
      → spec.body ≡ order_body d.fresh.event_id extra
      → order_status d spec ≡ 202
  unfolding ingest_order
  accepted spec extra sent request body =
      order_status-after spec (ok true) sent (
        ap (verdict_on d sound) request
        ∙ signed_by-passes d sound (d.stringify spec.body) spec.correlation_id)
      ∙ rw (body, order_of-order_body extra, sound.publishes (order_with extra) spec.correlation_id)
          refl

  refused_body :
      (spec : TriggerSpec)
      → Sent d spec.body
      → request_of d spec
        ≡ signed_by d sound d.guard.secret
            (now_seconds d)
            (d.stringify spec.body)
            spec.correlation_id
      → order_of d.length_of spec.body ≡ none
      → order_status d spec ≡ 400
  refused_body spec sent request body =
      order_status-after spec (ok true) sent (
        ap (verdict_on d sound) request
        ∙ signed_by-passes d sound (d.stringify spec.body) spec.correlation_id)
      ∙ rw body refl

  unauthorized_wrong :
      (spec : TriggerSpec)
      → Sent d spec.body
      → request_of d spec
        ≡ signed_by d sound "wrong-secret"
            (now_seconds d)
            (d.stringify spec.body)
            spec.correlation_id
      → order_status d spec ≡ 401
  unauthorized_wrong spec sent request =
      order_status-after spec (err (unauthorized "invalid signature")) sent (
        ap (verdict_on d sound) request
        ∙ signed_by-wrong d sound (d.stringify spec.body) spec.correlation_id)

  unauthorized_stale :
      (spec : TriggerSpec)
      → Sent d spec.body
      → request_of d spec
        ≡ signed_by d sound d.guard.secret
            (now_seconds d - 600)
            (d.stringify spec.body)
            spec.correlation_id
      → order_status d spec ≡ 401
  unauthorized_stale spec sent request =
      order_status-after spec (err (unauthorized "stale or invalid timestamp")) sent (
        ap (verdict_on d sound) request
        ∙ signed_by-stale d sound d.guard.secret (d.stringify spec.body) spec.correlation_id)

  poisoned : (spec : TriggerSpec) → poison_status d spec ≡ 202
  unfolding inject is_demo_mode
  poisoned spec = rw (sound.injects (poison_publication spec.correlation_id)) refl

  shown : {n m : ℕ} {t : String} → n ≡ m → d.text_of m ≡ t → d.text_of n ≡ t
  shown p q = ap d.text_of p ∙ q

  answered_202 :
      (id label : String) (extra : Fields)
      → Sent d (order_body d.fresh.event_id extra)
      → order_status d (spec_of d.fresh id label none none extra) ≡ 202
  unfolding trigger_request sign_request
  answered_202 id label extra sent =
      accepted (spec_of d.fresh id label none none extra) extra sent refl refl

  answered_401 :
      (id label : String)
      → order_status d (spec_of d.fresh id label (some "wrong-secret") none end) ≡ 401
  unfolding trigger_request sign_request
  answered_401 id label =
      unauthorized_wrong (spec_of d.fresh id label (some "wrong-secret") none end) Sent.plain refl

  answered_late :
      (id label : String)
      → order_status d (spec_of d.fresh id label none (some (now_seconds d - 600)) end) ≡ 401
  unfolding trigger_request sign_request
  answered_late id label =
      unauthorized_stale (spec_of d.fresh id label none (some (now_seconds d - 600)) end) Sent.plain
        refl

  answered_400 : order_status d (malformed_body_spec d.fresh) ≡ 400
  unfolding trigger_request sign_request order_of
  answered_400 = refused_body (malformed_body_spec d.fresh) Sent.malformed refl refl

  -- For each button of the board, in their order: the statuses that the service answers to its
  -- requests, written as the board writes them, are the ones that the button says it expects,
  -- provided that the deployment is sound: the broker confirms every publication, the guard's
  -- tolerance is under 600 s and its secret is not the wrong one (no message has the same hash under
  -- both), both sides have one clock past its first 600 s, which the guard reads from the texts of its
  -- times, the board's ids are not empty and fit 255 characters, `JSON.parse` takes back what the
  -- board sends, and the poison endpoint is served.
  pub scenarios-expected :
      map (λ scenario. joined d.text_of (statuses d scenario)) scenarios
      ≡ map (λ scenario. scenario.expected) scenarios
  scenarios-expected =
      let id = d.fresh.correlation_id in
      cons-eq (shown (answered_202 id "Happy path" end Sent.plain) sound.shows_202) (
        cons-eq (shown (answered_401 id "Invalid signature") sound.shows_401) (
          cons-eq (shown (answered_late id "Stale timestamp") sound.shows_401) (
            cons-eq
              (both (shown (answered_202 id "Duplicate (first)" end Sent.plain) sound.shows_202) (
                shown
                  (answered_202 d.fresh.second_correlation_id "Duplicate (second)" end Sent.plain)
                  sound.shows_202))
              (cons-eq
                (shown
                  (answered_202 id "Transient failure" (scenario_field "transient") Sent.transient)
                  sound.shows_202)
                (cons-eq
                  (shown
                    (answered_202 id "Retries exhausted" (outage_fields d.fresh.now_ms)
                      Sent.exhaust)
                    sound.shows_202)
                  (cons-eq
                    (shown
                      (answered_202 id "Permanent failure" (scenario_field "permanent")
                        Sent.permanent)
                      sound.shows_202)
                    (cons-eq (shown (poisoned (poison_spec d.fresh)) sound.shows_202)
                      (cons-eq (shown answered_400 sound.shows_400) refl))))))))
    where
      cons-eq :
          {x y : String} {xs ys : List String}
          → x ≡ y
          → xs ≡ ys
          → ◌≡◌ {A = List String} (x ∷ xs) (y ∷ ys)
      cons-eq p q = cc (p, q)

      both :
          {x y : String} → x ≡ "202" → y ≡ "202" → String.◌++◌ x (String.◌++◌ " / " y) ≡ "202 / 202"
      both p q = rw (p, q) refl
