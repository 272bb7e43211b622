-- ===== src/Consumer/Demo.antt =====
-- `DemoOrderHandler` of src/consumer/demo-order-handler.ts. The time, `Number` of a value (`none` for
-- NaN and the infinities) and the text of a number are arguments.
pub mod Laws
use Prim.Native.String
use Prim.Native.Nat.{◌^◌}
use async_webhook_ingestion.Prelude.{
  ℕ, ◌*◌, String, Bool, true, false, Option, none, some, ok, err, ltb, ◌==◌, if◌then◌else◌,
}
use async_webhook_ingestion.Json.{Json, property, as_string}
use async_webhook_ingestion.Errors.{transient_processing_error, permanent_processing_error}
use async_webhook_ingestion.Boundary.Signature.{Finite}
use async_webhook_ingestion.Consumer.Handler.{HandledEvent, OrderHandler}

pub data DemoScenario : Type 0 where
  transient permanent exhaust : DemoScenario

abbrev pub transient_success_attempt : ℕ
transient_success_attempt = 3

abbrev scenario_named : Option String → Option DemoScenario
scenario_named none = none
scenario_named (some s) =
    if s == "transient"
    then some transient
    else if s == "permanent"
    then some permanent
    else if s == "exhaust"
    then some exhaust
    else none

unfoldable pub scenario_of : HandledEvent → Option DemoScenario
scenario_of event = scenario_named (as_string (property "__scenario" event.payload))

-- `now < t`
abbrev pub is_before : ℕ → Finite → Bool
is_before now t = if t.is_negative then false else ltb (now * 2 ^ t.scale) t.magnitude

-- Whether the outage goes on: until a time that is no finite number, or is ahead.
abbrev pub outage : ℕ → Option Finite → Bool
outage now none = true
outage now (some t) = is_before now t

abbrev pub failing_text : (ℕ → String) → String → HandledEvent → ℕ → String
failing_text text_of name event attempt = String.◌++◌ "demo scenario \"" (
    String.◌++◌ name (
      String.◌++◌ "\" failing attempt "
        (String.◌++◌ (text_of attempt) (String.◌++◌ " for " event.event_id))))

abbrev pub act_out :
    ℕ → (Option Json → Option Finite) → (ℕ → String) → Option DemoScenario → OrderHandler
act_out now number text_of none event attempt = ok tt
act_out now number text_of (some permanent) event attempt =
    err (permanent_processing_error (String.◌++◌ "demo scenario \"permanent\" for " event.event_id))
act_out now number text_of (some exhaust) event attempt =
    if outage now (number (property "__outage_until" event.payload))
    then err (transient_processing_error (failing_text text_of "exhaust" event attempt))
    else ok tt
act_out now number text_of (some transient) event attempt =
    if ltb attempt transient_success_attempt
    then err (transient_processing_error (failing_text text_of "transient" event attempt))
    else ok tt

unfoldable pub demo_handler :
    (now : ℕ) → (Option Json → Option Finite) → (ℕ → String) → OrderHandler
demo_handler now number text_of event attempt =
    act_out now number text_of (scenario_of event) event attempt
