-- ===== src/Examples/Screen.antt =====
-- The demo board on concrete requests and telemetry.
use async_webhook_ingestion.Prelude.{
  map, ℕ, String, true, false, ◌≡◌, refl, Option, none, some, List, [], ◌∷◌, ok, arith, ◌==◌,
  if◌then◌else◌, eq_iff,
}
use async_webhook_ingestion.Telemetry.{TelemetryStage}
use async_webhook_ingestion.Boundary.{plain_crypto}
use async_webhook_ingestion.Boundary.Signature.{Finite, SignatureGuard, can_activate}
use async_webhook_ingestion.Board.Tokens.{Browser, happy}
use async_webhook_ingestion.Board.Signing.{sign_request}
use async_webhook_ingestion.Board.Signing.Laws.{request_of, sign_request-can_activate}
use async_webhook_ingestion.Board.Reducer.{
  DemoState, TelemetryEnvelope, TriggerStarted, Action, trigger_started, initial_state,
}
use async_webhook_ingestion.Board.Feed.{feed, plus_feed, feed-plus_feed}
use async_webhook_ingestion.Board.Overview.{tokens_of}
use async_webhook_ingestion.Board.Overview.Laws.{dispatch_all, id_of, tokens_of_complete}

abbrev browser : Browser
browser = record {
  char_codes = λ s. 99 ∷ 49 ∷ [];
  locale_before = λ a b. false;
  date_parse = λ s. some 1000;
}

abbrev text_of : ℕ → String
text_of n = "100"

abbrev number : String → Option Finite
number t =
    if t == "100" then some (record { is_negative = false; magnitude = 100; scale = 0 }) else none

abbrev guard : SignatureGuard
guard = record { secret = "key"; tolerance_seconds = 300 }

sign_request-can_activate_example :
    can_activate plain_crypto number 110 guard
      (request_of (sign_request plain_crypto text_of "key" "{}" 100))
    ≡ ok true
unfolding sign_request
sign_request-can_activate_example =
    sign_request-can_activate plain_crypto number text_of 110 100 guard "{}" refl
      (λ e. cc ((eq_iff "100" "").1 e)) (λ e. cc ((eq_iff "key#100.{}" "").1 e)) (omega arith)

abbrev started : TriggerStarted
started = record {
  correlation_id = "corr_1";
  event_id = some "evt_1";
  event_type = "order.created";
  scenario = happy;
  label = "Happy path";
  ts = "t0";
  initial_stage = none;
}

abbrev reported : TelemetryStage → ℕ → TelemetryEnvelope
reported stage attempts = record {
  version = 1;
  stage = stage;
  correlation_id = "corr_1";
  event_id = some "evt_1";
  event_type = "order.created";
  status = "processing";
  attempts = attempts;
  ts = "t1";
}

abbrev envelopes : List (TelemetryEnvelope × ℕ)
envelopes =
    (reported TelemetryStage.consuming 0, 5)
    ∷ (reported TelemetryStage.retry 1, 6)
    ∷ (reported TelemetryStage.processed 2, 7)
    ∷ []

feed-plus_feed_example :
    (s' : DemoState) × (feed browser text_of envelopes initial_state ≡ some s')
    × (s'.counters ≡ plus_feed initial_state.counters envelopes)
feed-plus_feed_example =
    feed-plus_feed browser text_of envelopes initial_state (refl, (refl, (refl, tt)))

tokens_of_complete_example :
    (s : DemoState) × (dispatch_all browser text_of
        (trigger_started started
          ∷ Action.envelope (reported TelemetryStage.consuming 0) 5
          ∷ Action.envelope (reported TelemetryStage.processed 1) 7
          ∷ [])
        initial_state
      ≡ some s)
    × (map id_of (tokens_of s) ≡ map some s.order)
tokens_of_complete_example =
    tokens_of_complete browser text_of
      (trigger_started started
        ∷ Action.envelope (reported TelemetryStage.consuming 0) 5
        ∷ Action.envelope (reported TelemetryStage.processed 1) 7
        ∷ [])
      (tt, (refl, (refl, tt)))
