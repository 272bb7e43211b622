-- ===== src/Consumer/Handler.antt =====
-- src/consumer/order-handler.ts: the handler's interface, and the decision of the processor.
use async_webhook_ingestion.Prelude.{⊤, ℕ, String, Result, ok}
use async_webhook_ingestion.Json.{Json}
use async_webhook_ingestion.Errors.{Thrown}

pub record HandledEvent : Type 0 where
  pub event_id : String
  pub event_type : String
  pub correlation_id : String
  pub payload : Json

-- `OrderHandler.handle(event, attempt)`: it returns or throws.
abbrev pub OrderHandler : Type 0
OrderHandler = HandledEvent → ℕ → Result Thrown ⊤

abbrev pub noop_order_handler : OrderHandler
noop_order_handler event attempt = ok tt

pub data ProcessDecision : Type 0 where
  processed : (attempts : ℕ) → ProcessDecision
  duplicate : (attempts : ℕ) → ProcessDecision
  retry : (attempts : ℕ) → ProcessDecision
  dead : (attempts : ℕ) → (reason : String) → ProcessDecision
