-- ===== src/Board/Path.antt =====
-- `pathOf` of web/src/components/Pipeline.tsx, and the captions of its steps.
pub mod Laws
use Prim.Native.String
use text.Mathlib.Text.{find?}
use async_webhook_ingestion.Prelude.{
  ℕ, suc, zero, ◌+◌, ◌-◌, String, Bool, true, false, Option, none, some, List, [], ◌∷◌, ◌++◌,
  get_or, is_some, ltb, eqb, ◌==◌, if◌then◌else◌,
}
use async_webhook_ingestion.Json.{Json, property, as_string}
use async_webhook_ingestion.Telemetry.{TelemetryStage}
use async_webhook_ingestion.Board.Stages.{
  ApiStage, received, signature_verified, published, injected, rejected, malformed, unavailable,
  Stage, api, worker,
}
use async_webhook_ingestion.Board.Tokens.{StageEvent, Token, ScenarioId}
use async_webhook_ingestion.Board.Reducer.{retry_tier}
use async_webhook_ingestion.Board.Graph.{
  NodeKey, post, guard, validate, exchange, work, worker_box, postgres, retry5s, retry30s,
  retry2min, dlq, node_number, stage_meta,
}

unfoldable pub retry_node : Option String → NodeKey
retry_node none = retry5s
retry_node (some tier) =
    if tier == "30s" then retry30s else if tier == "2min" then retry2min else retry5s

-- `MAIN_ROW.indexOf`; `none` is -1.
abbrev pub main_index : NodeKey → Option ℕ
main_index post = some 0
main_index guard = some 1
main_index validate = some 2
main_index exchange = some 3
main_index work = some 4
main_index worker_box = some 5
main_index postgres = some 6
main_index retry5s = none
main_index retry30s = none
main_index retry2min = none
main_index dlq = none

-- `MAIN_ROW[k]`, for the k from 0 to 6 that the loop reads.
abbrev pub main_row : ℕ → NodeKey
main_row k =
    if eqb k 0
    then post
    else if eqb k 1
    then guard
    else if eqb k 2
    then validate
    else if eqb k 3
    then exchange
    else if eqb k 4
    then work
    else if eqb k 5
    then worker_box
    else postgres

pub record PathStep : Type 0 where
  pub node : NodeKey
  pub color : String
  pub caption : String

abbrev infra_text : NodeKey → String
infra_text guard = "HMAC-SHA256 signature accepted"
infra_text validate = "schema valid → forwarded"
infra_text work = "queued for the worker"
infra_text post = ""
infra_text exchange = ""
infra_text worker_box = ""
infra_text postgres = ""
infra_text retry5s = ""
infra_text retry30s = ""
infra_text retry2min = ""
infra_text dlq = ""

abbrev is_zero : Option ℕ → Bool
is_zero none = false
is_zero (some n) = eqb n 0

unfoldable pub infra_caption : Token → NodeKey → String
infra_caption token node = if is_zero token.http_status then "" else infra_text node

abbrev message_of : Option Json → String
message_of none = ""
message_of (some body) = get_or (as_string (property "message" body)) ""

-- `text.includes(part)`
abbrev pub includes : String → String → Bool
includes text part = is_some (find? text part)

unfoldable pub rejection_caption : Token → String
rejection_caption token =
    let message = message_of token.http_body in
    if includes message "timestamp"
    then "timestamp outside accepted window → 401"
    else if includes message "signature"
    then "HMAC-SHA256 signature mismatch → 401"
    else "rejected by the HMAC guard → 401"

abbrev is_poison : ScenarioId → Bool
is_poison s = elim s [ ScenarioId.poison ↦ true | _ ↦ false ]

abbrev attempt_of : StageEvent → ℕ
attempt_of event = get_or event.attempts 1

module _ (text_of : ℕ → String) where
  abbrev retry_caption : ℕ → String
  retry_caption n =
      String.◌++◌ "attempt "
        (String.◌++◌ (text_of n) (String.◌++◌ " failed → retry in " (retry_tier n)))

  abbrev stage_caption : Token → StageEvent → Stage → String
  stage_caption token event (api received) = "signed POST /orders sent"
  stage_caption token event (api signature_verified) = "HMAC-SHA256 signature accepted"
  stage_caption token event (api rejected) = rejection_caption token
  stage_caption token event (api malformed) = "schema rejected: missing event_id → 400"
  stage_caption token event (api published) = "published to the webhooks exchange"
  stage_caption token event (api injected) =
      "injected straight into the exchange, no API, no signature"
  stage_caption token event (api unavailable) = "broker unreachable → 503"
  stage_caption token event (worker TelemetryStage.consuming) = "worker consumed the message"
  stage_caption token event (worker TelemetryStage.processing_decision) =
      "checking event_id in PostgreSQL"
  stage_caption token event (worker TelemetryStage.processed) =
      "event_id is new → inserted in PostgreSQL"
  stage_caption token event (worker TelemetryStage.duplicate) =
      "event_id already in PostgreSQL → discarded"
  stage_caption token event (worker TelemetryStage.retry) = retry_caption (attempt_of event)
  stage_caption token event (worker TelemetryStage.dead) =
      if is_poison token.scenario
      then "unparseable, no event_id to retry → dead on arrival"
      else "permanent failure → dead-lettered"

  unfoldable pub caption_for : Token → StageEvent → String
  caption_for token event = stage_caption token event event.stage

abbrev stage_node : StageEvent → Stage → NodeKey
stage_node event (worker TelemetryStage.retry) = retry_node (some (retry_tier (attempt_of event)))
stage_node event stage = (stage_meta stage).node

-- The box of a stage.
unfoldable pub node_for : StageEvent → NodeKey
node_for event = stage_node event event.stage

abbrev pub same_node : NodeKey → NodeKey → Bool
same_node a b = eqb (node_number a) (node_number b)

abbrev pub is_retry_node : NodeKey → Bool
is_retry_node retry5s = true
is_retry_node retry30s = true
is_retry_node retry2min = true
is_retry_node node = false

-- `for (k = from + 1; k < to; k++)`, by the number of rounds.
abbrev pub fill : Token → String → ℕ → ℕ → List PathStep
fill token color k zero = []
fill token color k (suc n) =
    record { node = main_row k; color = color; caption = infra_caption token (main_row k) }
    ∷ fill token color (k + 1) n

-- Passing back through the worker.
abbrev back_through : String → NodeKey → NodeKey → List PathStep
back_through color prev node =
    if is_retry_node prev
    then (if same_node node postgres
        then record { node = worker_box; color = color; caption = "redelivered → reprocessing" }
          ∷ []
        else [])
    else []

abbrev fill_gap : Token → String → NodeKey → NodeKey → Option ℕ → Option ℕ → List PathStep
fill_gap token color prev node (some from) (some to) =
    if ltb (from + 1) to
    then fill token color (from + 1) (to - (from + 1))
    else back_through color prev node
fill_gap token color prev node none to = back_through color prev node
fill_gap token color prev node (some from) none = back_through color prev node

-- What is pushed between the tail and a new box, in the tail's colour.
abbrev pub between : Token → String → NodeKey → NodeKey → List PathStep
between token color prev node = fill_gap token color prev node (main_index prev) (main_index node)

module _ (text_of : ℕ → String) where
  abbrev pub step_for : Token → StageEvent → PathStep
  step_for token event = record {
    node = node_for event;
    color = (stage_meta event.stage).color;
    caption = caption_for text_of token event;
  }

  -- The rest of the path from its tail, which a later stage of the same box may still repaint.
  abbrev pub path_from : Token → PathStep → List StageEvent → List PathStep
  path_from token tail [] = tail ∷ []
  path_from token tail (event ∷ events) =
      let new = step_for token event in
      let repainted = path_from token new events in
      if same_node tail.node new.node
      then repainted
      else tail ∷ (between token tail.color tail.node new.node ++ repainted)

  abbrev first_step : Token → PathStep
  first_step token =
      step_for token (record { stage = api received; ts = ""; status = none; attempts = none })

  abbrev pub path_of_stages : Token → List StageEvent → List PathStep
  path_of_stages token [] = first_step token ∷ []
  path_of_stages token (event ∷ events) = path_from token (step_for token event) events

  unfoldable pub path_of : Token → List PathStep
  path_of token = path_of_stages token token.stages
