-- ===== src/Board/Scenarios.antt =====
-- web/src/lib/scenarios.ts: what the buttons of the board send, and the story that each one tells.
pub mod Stories
pub mod Definitions
use async_webhook_ingestion.Prelude.{ℕ, String, Bool, Option, none, some, List, [], ◌∷◌}
use async_webhook_ingestion.Json.{Json, Fields, str, num, nat, obj, field, end}
use async_webhook_ingestion.Board.Tokens.{ScenarioId}

-- `body` is a JSON object.
pub record TriggerSpec : Type 0 where
  pub correlation_id : String
  pub event_id : Option String
  pub event_type : String
  pub body : Json
  pub secret_override : Option String
  pub timestamp_override : Option ℕ
  pub label : String

pub data StoryTone : Type 0 where
  info good again bad : StoryTone

pub record StoryStep : Type 0 where
  pub tone : StoryTone
  pub text : String

-- Fresh ids in the order in which `build` asks for them, and `Date.now()`.
pub record Fresh : Type 0 where
  pub event_id : String
  pub correlation_id : String
  pub second_correlation_id : String
  pub now_ms : ℕ

pub record ScenarioDef : Type 0 where
  pub id : ScenarioId
  pub label : String
  pub description : String
  pub story : List StoryStep
  pub expected : String
  pub sequential : Bool
  pub inject : Bool
  pub build : Fresh → List TriggerSpec

abbrev pub event_type : String
event_type = "order.created"

abbrev pub outage_window_ms : ℕ
outage_window_ms = 240000

-- `{ amount: 4200, currency: 'BRL', ...extra }`; no key of `extra` is one of the two.
abbrev pub payload_with : Fields → Json
payload_with extra = obj (field "amount" (num (nat 4200)) (field "currency" (str "BRL") extra))

unfoldable pub order_body : (event_id : String) → (extra : Fields) → Json
order_body event_id extra = obj (
    field "event_id" (str event_id)
      (field "event_type" (str event_type) (field "payload" (payload_with extra) end)))
