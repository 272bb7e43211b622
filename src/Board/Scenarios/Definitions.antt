-- ===== src/Board/Scenarios/Definitions.antt =====
-- `SCENARIOS` of web/src/lib/scenarios.ts.
use async_webhook_ingestion.Prelude.{
  ℕ, ◌+◌, ◌-◌, ◌/◌, String, true, false, Option, none, some, List, [], ◌∷◌,
}
use async_webhook_ingestion.Json.{Fields, str, num, nat, obj, field, end}
use async_webhook_ingestion.Board.Tokens.{ScenarioId}
use async_webhook_ingestion.Board.Scenarios.{
  TriggerSpec, Fresh, ScenarioDef, event_type, outage_window_ms, payload_with, order_body,
}
use async_webhook_ingestion.Board.Scenarios.Stories.{
  happy_story, invalid_signature_story, stale_timestamp_story, duplicated_story, transient_story,
  exhaust_story, permanent_story, poison_story, malformed_body_story,
}

abbrev pub scenario_field : String → Fields
scenario_field name = field "__scenario" (str name) end

abbrev pub outage_fields : ℕ → Fields
outage_fields now_ms =
    field "__scenario" (str "exhaust")
      (field "__outage_until" (num (nat (now_ms + outage_window_ms))) end)

abbrev pub spec_of :
    Fresh → (correlation_id label : String) → Option String → Option ℕ → Fields → TriggerSpec
spec_of fresh correlation_id label secret timestamp extra = record {
  correlation_id = correlation_id;
  event_id = some fresh.event_id;
  event_type = event_type;
  body = order_body fresh.event_id extra;
  secret_override = secret;
  timestamp_override = timestamp;
  label = label;
}

abbrev one_of : Fresh → (label : String) → Option String → Option ℕ → Fields → List TriggerSpec
one_of fresh label secret timestamp extra =
    spec_of fresh fresh.correlation_id label secret timestamp extra ∷ []

abbrev pub poison_spec : Fresh → TriggerSpec
poison_spec fresh = record {
  correlation_id = fresh.correlation_id;
  event_id = none;
  event_type = "unknown";
  body = obj end;
  secret_override = none;
  timestamp_override = none;
  label = "Poison message";
}

abbrev pub malformed_body_spec : Fresh → TriggerSpec
malformed_body_spec fresh = record {
  correlation_id = fresh.correlation_id;
  event_id = none;
  event_type = event_type;
  body = obj (field "event_type" (str event_type) (field "payload" (payload_with end) end));
  secret_override = none;
  timestamp_override = none;
  label = "Malformed";
}

-- `Math.floor(Date.now() / 1000) - 600` stops at 0 here, which is in 1970.

abbrev pub happy_def : ScenarioDef
happy_def = record {
  id = ScenarioId.happy;
  label = "Happy path";
  description = "Valid signature → 202 → processed";
  story = happy_story;
  expected = "202";
  sequential = false;
  inject = false;
  build = λ fresh. one_of fresh "Happy path" none none end;
}

abbrev pub invalid_signature_def : ScenarioDef
invalid_signature_def = record {
  id = ScenarioId.invalid_signature;
  label = "Invalid signature";
  description = "Wrong secret → 401, nothing published";
  story = invalid_signature_story;
  expected = "401";
  sequential = false;
  inject = false;
  build = λ fresh. one_of fresh "Invalid signature" (some "wrong-secret") none end;
}

abbrev pub stale_timestamp_def : ScenarioDef
stale_timestamp_def = record {
  id = ScenarioId.stale_timestamp;
  label = "Stale timestamp";
  description = "Timestamp outside the window → 401";
  story = stale_timestamp_story;
  expected = "401";
  sequential = false;
  inject = false;
  build = λ fresh. one_of fresh "Stale timestamp" none (some (fresh.now_ms / 1000 - 600)) end;
}

abbrev pub duplicated_def : ScenarioDef
duplicated_def = record {
  id = ScenarioId.duplicated;
  label = "Duplicate";
  description = "Same event_id twice: second fires after the first lands → processed + discarded";
  story = duplicated_story;
  expected = "202 / 202";
  sequential = true;
  inject = false;
  build = λ fresh.
      spec_of fresh fresh.correlation_id "Duplicate (first)" none none end
      ∷ spec_of fresh fresh.second_correlation_id "Duplicate (second)" none none end
      ∷ [];
}

abbrev pub transient_def : ScenarioDef
transient_def = record {
  id = ScenarioId.transient;
  label = "Transient failure";
  description = "Fails attempts 1–2, succeeds on 3 → retry ladder 5s→30s";
  story = transient_story;
  expected = "202";
  sequential = false;
  inject = false;
  build = λ fresh. one_of fresh "Transient failure" none none (scenario_field "transient");
}

abbrev pub exhaust_def : ScenarioDef
exhaust_def = record {
  id = ScenarioId.exhaust;
  label = "Retries exhausted";
  description = "Fails every attempt → full ladder 5s→30s→2min → DLQ";
  story = exhaust_story;
  expected = "202";
  sequential = false;
  inject = false;
  build = λ fresh. one_of fresh "Retries exhausted" none none (outage_fields fresh.now_ms);
}

abbrev pub permanent_def : ScenarioDef
permanent_def = record {
  id = ScenarioId.permanent;
  label = "Permanent failure";
  description = "Permanent error → straight to the DLQ";
  story = permanent_story;
  expected = "202";
  sequential = false;
  inject = false;
  build = λ fresh. one_of fresh "Permanent failure" none none (scenario_field "permanent");
}

abbrev pub poison_def : ScenarioDef
poison_def = record {
  id = ScenarioId.poison;
  label = "Poison message";
  description = "Garbage injected into the queue past the API → dead on arrival";
  story = poison_story;
  expected = "202";
  sequential = false;
  inject = true;
  build = λ fresh. poison_spec fresh ∷ [];
}

abbrev pub malformed_body_def : ScenarioDef
malformed_body_def = record {
  id = ScenarioId.malformed_body;
  label = "Malformed";
  description = "Missing event_id, validly signed → 400 at the validation pipe";
  story = malformed_body_story;
  expected = "400";
  sequential = false;
  inject = false;
  build = λ fresh. malformed_body_spec fresh ∷ [];
}

abbrev pub scenarios : List ScenarioDef
scenarios =
    happy_def ∷ invalid_signature_def ∷ stale_timestamp_def ∷ duplicated_def ∷ transient_def
    ∷ exhaust_def ∷ permanent_def ∷ poison_def ∷ malformed_body_def ∷ []
