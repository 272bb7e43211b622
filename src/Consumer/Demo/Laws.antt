-- ===== src/Consumer/Demo/Laws.antt =====
-- What the worker decides on the events of the demo.
use async_webhook_ingestion.Prelude.{
  leb, ℕ, suc, String, Bool, true, false, ◌≡◌, refl, Option, none, some, List, [], ◌∷◌, ok, err,
  if◌then◌else◌,
}
use async_webhook_ingestion.Json.{Json, property}
use async_webhook_ingestion.Errors.{transient_processing_error}
use async_webhook_ingestion.Boundary.Signature.{Finite}
use async_webhook_ingestion.Consumer.Handler.{
  HandledEvent, OrderHandler, ProcessDecision, processed, duplicate, retry, dead,
}
use async_webhook_ingestion.Consumer.Claim.Machine.{step}
use async_webhook_ingestion.Consumer.Claim.Machine.Series.{Visit, decisions}
use async_webhook_ingestion.Consumer.Demo.{
  DemoScenario, failing_text, transient, permanent, exhaust, scenario_of, act_out, demo_handler,
  outage,
}

-- How an attempt of a scenario ends, without the handler's texts.
pub data Outcome : Type 0 where
  done failed_once : ℕ → Outcome
  buried : ℕ → Outcome
  repeated : ℕ → Outcome

abbrev pub outcome : ProcessDecision → Outcome
outcome (processed n) = done n
outcome (duplicate n) = repeated n
outcome (retry n) = failed_once n
outcome (dead n reason) = buried n

abbrev pub outcomes : List ProcessDecision → List Outcome
outcomes [] = []
outcomes (d ∷ ds) = outcome d ∷ outcomes ds

abbrev delivered : OrderHandler → HandledEvent → Bool → Visit
delivered handler event continuation = record {
  handler = handler;
  event = event;
  continuation = continuation;
}

-- The first delivery of an event and three continuations, each with the handler as it is then.
abbrev pub four_deliveries : (first second third fourth : OrderHandler) → HandledEvent → List Visit
four_deliveries first second third fourth event =
    delivered first event false
    ∷ delivered second event true
    ∷ delivered third event true
    ∷ delivered fourth event true
    ∷ []

abbrev again : Outcome → List Bool → List Outcome
again o [] = []
again o (out ∷ outs) = o ∷ again o outs

-- The exhausting scenario from its attempt n on, by whether its outage goes on at each delivery.
abbrev pub exhaust_story : ℕ → List Bool → List Outcome
exhaust_story n [] = []
exhaust_story n (true ∷ outs) =
    let rest = exhaust_story (suc n) outs in (if leb 4 n then buried n else failed_once n) ∷ rest
exhaust_story n (false ∷ outs) = done n ∷ again (repeated n) outs

-- What becomes of an event at its four deliveries, by its scenario.
abbrev pub story : Option DemoScenario → (outs : List Bool) → List Outcome
story none outs = done 1 ∷ repeated 1 ∷ repeated 1 ∷ repeated 1 ∷ []
story (some transient) outs = failed_once 1 ∷ failed_once 2 ∷ done 3 ∷ repeated 3 ∷ []
story (some permanent) outs = buried 1 ∷ buried 1 ∷ buried 1 ∷ buried 1 ∷ []
story (some exhaust) outs = exhaust_story 1 outs

module _ (number : Option Json → Option Finite) (text_of : ℕ → String) (event : HandledEvent) where
  -- The handler of the exhausting scenario, by whether its outage goes on.
  abbrev exhausting_at : Bool → OrderHandler
  exhausting_at out e attempt =
      if out
      then err (transient_processing_error (failing_text text_of "exhaust" e attempt))
      else ok tt

  exhausting :
      (a b c d : Bool)
      → outcomes (
          decisions 4
            (four_deliveries
              (exhausting_at a)
              (exhausting_at b)
              (exhausting_at c)
              (exhausting_at d)
              event)
            none)
        ≡ exhaust_story 1 (a ∷ b ∷ c ∷ d ∷ [])
  unfolding step
  exhausting false b c d = refl
  exhausting true false c d = refl
  exhausting true true false d = refl
  exhausting true true true false = refl
  exhausting true true true true = refl

  abbrev pub is_out : ℕ → Bool
  is_out now = outage now (number (property "__outage_until" event.payload))

  acted :
      (s : Option DemoScenario) (t u v w : ℕ)
      → outcomes (
          decisions 4
            (four_deliveries
              (act_out t number text_of s)
              (act_out u number text_of s)
              (act_out v number text_of s)
              (act_out w number text_of s)
              event)
            none)
        ≡ story s (is_out t ∷ is_out u ∷ is_out v ∷ is_out w ∷ [])
  unfolding step
  acted none t u v w = refl
  acted (some transient) t u v w = refl
  acted (some permanent) t u v w = refl
  acted (some exhaust) t u v w = exhausting (is_out t) (is_out u) (is_out v) (is_out w)

  -- With a budget of 4 attempts, an event of the demo goes the way its scenario names, over its first
  -- delivery and three continuations, each at a time of its own: without a scenario it is processed
  -- at once and then discarded as a duplicate; a transient one fails twice and is processed at the
  -- third attempt; a permanent one is dead at the first; an exhausting one fails as long as its
  -- outage goes on, is processed at the first attempt after it, and is dead if that would be a fifth.
  pub demo_handler-story :
      (t u v w : ℕ)
      → outcomes (
          decisions 4
            (four_deliveries
              (demo_handler t number text_of)
              (demo_handler u number text_of)
              (demo_handler v number text_of)
              (demo_handler w number text_of)
              event)
            none)
        ≡ story (scenario_of event) (is_out t ∷ is_out u ∷ is_out v ∷ is_out w ∷ [])
  unfolding demo_handler step
  demo_handler-story t u v w = acted (scenario_of event) t u v w
