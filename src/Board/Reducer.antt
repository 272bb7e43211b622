-- ===== src/Board/Reducer.antt =====
-- `reducer` of web/src/state/reducer.ts, and the results of web/src/lib/api.ts that it reads.
pub mod Laws
use async_webhook_ingestion.Prelude.{
  ℕ, suc, ◌+◌, String, Bool, true, false, not, ◌&&◌, Option, none, some, List, [], ◌∷◌, ◌++◌,
  lookup, insert, member, get_or, leb, eqb, if◌then◌else◌,
}
use async_webhook_ingestion.Json.{Json}
use async_webhook_ingestion.Telemetry.{TelemetryStage}
use async_webhook_ingestion.Board.Stages.{
  ApiStage, received, signature_verified, published, injected, rejected, malformed, unavailable,
  Stage, api, worker, same_stage,
}
use async_webhook_ingestion.Board.Tokens.{
  Browser, StageEvent, ScenarioId, Token, hue_for, with_stage,
}
use async_webhook_ingestion.Board.Signing.{SignedRequest}

pub record TriggerResult : Type 0 where
  pub correlation_id : String
  pub event_id : Option String
  pub event_type : String
  pub status : ℕ
  pub is_ok : Bool
  pub body_text : String
  pub body : Json
  pub latency_ms : ℕ
  pub signed : SignedRequest
  pub api_stage : ApiStage
  pub responded_correlation_id : Option String

pub record TelemetryEnvelope : Type 0 where
  pub version : ℕ
  pub stage : TelemetryStage
  pub correlation_id : String
  pub event_id : Option String
  pub event_type : String
  pub status : String
  pub attempts : ℕ
  pub ts : String

pub record Counters : Type 0 where
  pub processed : ℕ
  pub duplicate : ℕ
  pub retry : ℕ
  pub dead : ℕ
  pub rejected : ℕ

pub record DemoState : Type 0 where
  pub tokens : List (String × Token)
  pub order : List String
  pub counters : Counters
  pub latencies : List ℕ

abbrev pub initial_state : DemoState
initial_state = record {
  tokens = [];
  order = [];
  counters = record { processed = 0; duplicate = 0; retry = 0; dead = 0; rejected = 0 };
  latencies = [];
}

pub record TriggerStarted : Type 0 where
  pub correlation_id : String
  pub event_id : Option String
  pub event_type : String
  pub scenario : ScenarioId
  pub label : String
  pub ts : String
  pub initial_stage : Option ApiStage

-- `ts` of an HTTP result is the time at which the reducer runs.
pub data Action : Type 0 where
  trigger_started : TriggerStarted → Action
  http_result : TriggerResult → (ts : String) → Action
  envelope : TelemetryEnvelope → (now : ℕ) → Action
  reset : Action

unfoldable pub retry_tier : ℕ → String
retry_tier attempts = if leb attempts 1 then "5s" else if eqb attempts 2 then "30s" else "2min"

abbrev pub retry_ttl : List (String × ℕ)
retry_ttl = ("5s", 5000) ∷ ("30s", 30000) ∷ ("2min", 120000) ∷ []

abbrev pub started_token : Browser → TriggerStarted → Token
started_token browser a =
    let stage = api (get_or a.initial_stage received) in
    record {
      correlation_id = a.correlation_id;
      event_id = a.event_id;
      event_type = a.event_type;
      scenario = a.scenario;
      label = a.label;
      color = hue_for browser a.correlation_id;
      stages = record { stage = stage; ts = a.ts; status = none; attempts = none } ∷ [];
      current_stage = stage;
      terminal = false;
      attempts = 0;
      http_status = none;
      http_body = none;
      latency_ms = none;
      canonical = none;
      signature = none;
      raw_body = none;
      signed_timestamp = none;
      retry_deadline = none;
      retry_tier = none;
    }

abbrev bare : ApiStage → String → StageEvent
bare stage ts = record { stage = api stage; ts = ts; status = none; attempts = none }

abbrev and_then : Option Token → (Token → Option Token) → Option Token
and_then none f = none
and_then (some token) f = f token

-- The stages that a result records; `String(status)` is an argument.
abbrev pub http_stages : Browser → (ℕ → String) → Token → TriggerResult → String → Option Token
http_stages browser text_of token r ts =
    if same_stage (api r.api_stage) (api published)
    then and_then (with_stage browser token (bare signature_verified ts))
        (λ verified. with_stage browser verified (bare published ts))
    else with_stage browser token (record {
      stage = api r.api_stage;
      ts = ts;
      status = some (text_of r.status);
      attempts = none;
    })

abbrev pub answered : TriggerResult → Token → Token
answered r token = record token {
  http_status = some r.status;
  http_body = some r.body;
  latency_ms = some r.latency_ms;
  canonical = some r.signed.canonical;
  signature = some r.signed.signature;
  raw_body = some r.signed.raw_body;
  signed_timestamp = some r.signed.timestamp;
}

abbrev pub count_rejected : TriggerResult → Counters → Counters
count_rejected r c = if leb 400 r.status then record c { rejected = suc c.rejected } else c

abbrev pub add_latency : TriggerResult → List ℕ → List ℕ
add_latency r ls =
    if eqb r.status 202 && not (same_stage (api r.api_stage) (api injected))
    then ls ++ r.latency_ms ∷ []
    else ls

abbrev pub put_token : Token → DemoState → DemoState
put_token token s = record s { tokens = insert token.correlation_id token s.tokens }

abbrev pub after_result : TriggerResult → DemoState → Option Token → Option DemoState
after_result r s none = none
after_result r s (some token) = some (
    put_token (answered r token)
      (record s { latencies = add_latency r s.latencies; counters = count_rejected r s.counters }))

abbrev pub count_stage : TelemetryStage → Counters → Counters
count_stage TelemetryStage.processed c = record c { processed = suc c.processed }
count_stage TelemetryStage.duplicate c = record c { duplicate = suc c.duplicate }
count_stage TelemetryStage.retry c = record c { retry = suc c.retry }
count_stage TelemetryStage.dead c = record c { dead = suc c.dead }
count_stage TelemetryStage.consuming c = c
count_stage TelemetryStage.processing_decision c = c

-- `now + RETRY_TTL[tier]`; on a tier without an entry it would be NaN, which `none` stands for.
abbrev pub deadline : ℕ → Option ℕ → Option ℕ
deadline now none = none
deadline now (some ttl) = some (now + ttl)

abbrev pub countdown : TelemetryEnvelope → ℕ → Token → Token
countdown e now token =
    if same_stage (worker e.stage) (worker TelemetryStage.retry)
    then record token {
      retry_tier = some (retry_tier e.attempts);
      retry_deadline = deadline now (lookup (retry_tier e.attempts) retry_ttl);
    }
    else if same_stage token.current_stage (worker TelemetryStage.retry)
    then token
    else record token { retry_deadline = none; retry_tier = none }

abbrev pub after_envelope : TelemetryEnvelope → ℕ → DemoState → Option Token → Option DemoState
after_envelope e now s none = none
after_envelope e now s (some token) = some (put_token (countdown e now token) s)

abbrev pub envelope_event : TelemetryEnvelope → StageEvent
envelope_event e = record {
  stage = worker e.stage;
  ts = e.ts;
  status = some e.status;
  attempts = some e.attempts;
}

-- The properties of `Object.prototype`, none of which is falsy.
abbrev pub inherited_keys : List String
inherited_keys =
    "constructor" ∷ "toString" ∷ "toLocaleString" ∷ "valueOf" ∷ "hasOwnProperty" ∷ "isPrototypeOf"
    ∷ "propertyIsEnumerable" ∷ "__proto__" ∷ "__defineGetter__" ∷ "__defineSetter__"
    ∷ "__lookupGetter__" ∷ "__lookupSetter__" ∷ []

-- `state.tokens[id]`: `tokens` is a plain object, so a key that it has not itself may be inherited.
pub data Existing : Type 0 where
  own : Token → Existing
  inherited : Existing
  absent : Existing

abbrev pub existing_from : Bool → Option Token → Existing
existing_from is_inherited (some token) = own token
existing_from true none = inherited
existing_from false none = absent

abbrev pub existing_token : String → DemoState → Existing
existing_token id s = existing_from (member id inherited_keys) (lookup id s.tokens)

-- What is inherited has no `stages`, and `withStage` throws on it.
abbrev pub result_into :
    Browser → (ℕ → String) → TriggerResult → String → DemoState → Existing → Option DemoState
result_into browser text_of r ts s absent = some s
result_into browser text_of r ts s inherited = none
result_into browser text_of r ts s (own token) =
    after_result r s (http_stages browser text_of token r ts)

abbrev pub envelope_into : Browser → TelemetryEnvelope → ℕ → DemoState → Existing → Option DemoState
envelope_into browser e now s absent = some s
envelope_into browser e now s inherited = none
envelope_into browser e now s (own token) =
    after_envelope e now s (with_stage browser token (envelope_event e))

-- One action; `none` is a thrown error.
unfoldable pub reducer : Browser → (ℕ → String) → DemoState → Action → Option DemoState
reducer browser text_of s (trigger_started a) = some (record s {
  tokens = insert a.correlation_id (started_token browser a) s.tokens;
  order = s.order ++ a.correlation_id ∷ [];
})
reducer browser text_of s (http_result r ts) =
    result_into browser text_of r ts s (existing_token r.correlation_id s)
reducer browser text_of s (envelope e now) =
    envelope_into browser e now (record s { counters = count_stage e.stage s.counters })
      (existing_token e.correlation_id s)
reducer browser text_of s reset = some initial_state
