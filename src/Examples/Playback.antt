-- ===== src/Examples/Playback.antt =====
-- The walk of the balls on concrete tokens.
use async_webhook_ingestion.Prelude.{
  ℕ, suc, zero, ◌+◌, ◌*◌, String, true, false, ◌≡◌, refl, Option, none, some, List, [], ◌∷◌, map,
  member, arith,
}
use async_webhook_ingestion.Telemetry.{TelemetryStage}
use async_webhook_ingestion.Board.Stages.{
  Stage, api, worker, received, signature_verified, published,
}
use async_webhook_ingestion.Board.Tokens.{StageEvent, Token, happy}
use async_webhook_ingestion.Board.Path.{step_for, path_of, node_for, retry_node}
use async_webhook_ingestion.Board.Reducer.{retry_tier}
use async_webhook_ingestion.Board.Path.Laws.{connected, last, latest, path_of-connected}
use async_webhook_ingestion.Board.Graph.{node_text}
use async_webhook_ingestion.Board.Walk.{ticks, visual_of, target_of}
use async_webhook_ingestion.Board.Walk.Laws.{OnTime, last_time}
use async_webhook_ingestion.Board.Walk.Arrival.{ticks-arrive}
use async_webhook_ingestion.Board.View.{settled_now}
use async_webhook_ingestion.Board.View.Laws.{Drawing, reported, drawn, drawn_all, settled_now-once}

abbrev digits : ℕ → String
digits n = "1"

abbrev seen : Stage → Option ℕ → StageEvent
seen stage attempts = record { stage = stage; ts = "t"; status = none; attempts = attempts }

abbrev ball : List StageEvent → Stage → Token
ball stages stage = record {
  correlation_id = "corr_1";
  event_id = some "evt_1";
  event_type = "order.created";
  scenario = happy;
  label = "Happy path";
  color = 0;
  stages = stages;
  current_stage = stage;
  terminal = true;
  attempts = 1;
  http_status = some 202;
  http_body = none;
  latency_ms = none;
  canonical = none;
  signature = none;
  raw_body = none;
  signed_timestamp = none;
  retry_deadline = none;
  retry_tier = none;
}

abbrev retried : Token
retried =
    ball
      (seen (api received) none
        ∷ seen (api signature_verified) none
        ∷ seen (api published) none
        ∷ seen (worker TelemetryStage.consuming) (some 1)
        ∷ seen (worker TelemetryStage.processing_decision) (some 1)
        ∷ seen (worker TelemetryStage.retry) (some 1)
        ∷ seen (worker TelemetryStage.processed) (some 2)
        ∷ [])
      (worker TelemetryStage.processed)

-- The boxes of an order that is processed at its second attempt.
retried_walks_the_ladder :
    map (λ s. node_text s.node) (path_of digits retried)
    ≡ "post" ∷ "guard" ∷ "validate" ∷ "exchange" ∷ "work" ∷ "worker" ∷ "retry5s" ∷ "worker"
      ∷ "postgres" ∷ []
unfolding path_of node_for retry_node retry_tier
retried_walks_the_ladder = refl

path_of-connected_example :
    (connected (path_of digits retried) ≡ true)
    × (last (path_of digits retried) ≡ some (step_for digits retried (latest retried.stages)))
path_of-connected_example = path_of-connected digits retried

-- Callbacks 200 ms apart.
abbrev every_tick : ℕ → ℕ → List ℕ
every_tick zero now = []
every_tick (suc n) now = (now + 200) ∷ every_tick n (now + 200)

every_tick-OnTime : (n now : ℕ) → OnTime now (every_tick n now)
every_tick-OnTime zero now = tt
every_tick-OnTime (suc n) now = (omega arith, (omega arith, every_tick-OnTime n (now + 200)))

every_tick-last : (n now : ℕ) → last_time now (every_tick n now) ≡ now + n * 200
every_tick-last zero now = omega arith
every_tick-last (suc n) now = omega (arith, every_tick-last n (now + 200))

retried-target : target_of (path_of digits retried) ≡ 8
unfolding path_of node_for retry_node retry_tier
retried-target = refl

ticks-arrive_example :
    visual_of digits true (ticks digits (0 ∷ every_tick 4808 0) (retried ∷ []) []) retried
    ≡ visual_of digits false (ticks digits (0 ∷ every_tick 4808 0) (retried ∷ []) []) retried
ticks-arrive_example =
    ticks-arrive digits retried (retried ∷ []) [] 0 (every_tick 4808 0) refl refl
      (every_tick-OnTime 4808 0) (omega (arith, retried-target, every_tick-last 4808 0))

abbrev drawing : ℕ → Drawing digits
drawing now = (now, (false, ([], retried ∷ [])))

settled_now-once_example :
    member "corr_1" (
      reported digits
        (drawing 11)
        (drawn_all digits (drawing 10 ∷ []) (drawn digits (drawing 9) [])))
    ≡ false
unfolding settled_now visual_of path_of node_for retry_node retry_tier
settled_now-once_example =
    settled_now-once digits (drawing 9) (drawing 10 ∷ []) (drawing 11) [] "corr_1" refl
