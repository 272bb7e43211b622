-- ===== src/Board/Tokens.antt =====
-- The tokens of web/src/state/reducer.ts, their stages, and `hueFor` of web/src/lib/correlation.ts.
pub mod Laws
use async_webhook_ingestion.Prelude.{
  ℕ, ◌+◌, ◌*◌, ◌%◌, ◌-◌, max, min, String, Bool, true, false, not, ◌&&◌, ◌||◌, Option, none, some,
  List, [], ◌∷◌, ◌++◌, keep, any, find_first, get_or, ltb, leb, eqb, if◌then◌else◌,
}
use async_webhook_ingestion.Json.{Json}
use async_webhook_ingestion.Telemetry.{TelemetryStage}
use async_webhook_ingestion.Board.Stages.{Stage, api, worker, stage_rank, same_stage, is_terminal}

-- What the browser provides: the UTF-16 units of a text, `a.localeCompare(b) < 0`, and `Date.parse`
-- of a time after 1970, `none` for NaN.
pub record Browser : Type 0 where
  pub char_codes : String → List ℕ
  pub locale_before : String → String → Bool
  pub date_parse : String → Option ℕ

pub record StageEvent : Type 0 where
  pub stage : Stage
  pub ts : String
  pub status : Option String
  pub attempts : Option ℕ

pub data ScenarioId : Type 0 where
  happy invalid_signature stale_timestamp duplicated transient exhaust permanent poison
        malformed_body :
      ScenarioId

-- `color` is the text `hsl(<hue> 70% 62%)`, of which only the hue is kept.
pub record Token : Type 0 where
  pub correlation_id : String
  pub event_id : Option String
  pub event_type : String
  pub scenario : ScenarioId
  pub label : String
  pub color : ℕ
  pub stages : List StageEvent
  pub current_stage : Stage
  pub terminal : Bool
  pub attempts : ℕ
  pub http_status : Option ℕ
  pub http_body : Option Json
  pub latency_ms : Option ℕ
  pub canonical : Option String
  pub signature : Option String
  pub raw_body : Option String
  pub signed_timestamp : Option String
  pub retry_deadline : Option ℕ
  pub retry_tier : Option String

abbrev hash_from : ℕ → List ℕ → ℕ
hash_from hash [] = hash
hash_from hash (c ∷ cs) = hash_from ((hash * 31 + c) % 360) cs

unfoldable pub hue_for : Browser → String → ℕ
hue_for browser id = hash_from 0 (browser.char_codes id)

abbrev same_attempts : Option ℕ → Option ℕ → Bool
same_attempts none none = true
same_attempts none (some n) = false
same_attempts (some m) none = false
same_attempts (some m) (some n) = eqb m n

-- `next.sort(…)` compares ranks, then times: whether `a` goes before `b`.
abbrev goes_before : Browser → StageEvent → StageEvent → Bool
goes_before browser a b =
    if ltb (stage_rank a.stage) (stage_rank b.stage)
    then true
    else if ltb (stage_rank b.stage) (stage_rank a.stage)
    then false
    else browser.locale_before a.ts b.ts

-- `Array.prototype.sort` is stable: an event goes in front of those that are not before it.
abbrev pub sort_in : Browser → StageEvent → List StageEvent → List StageEvent
sort_in browser a [] = a ∷ []
sort_in browser a (b ∷ bs) =
    if goes_before browser b a then b ∷ sort_in browser a bs else a ∷ b ∷ bs

abbrev pub sort : Browser → List StageEvent → List StageEvent
sort browser [] = []
sort browser (a ∷ as_) = sort_in browser a (sort browser as_)

abbrev pub without_same : List StageEvent → StageEvent → List StageEvent
without_same stages event =
    keep
      (λ existing.
        not
          (same_stage existing.stage event.stage && same_attempts existing.attempts event.attempts))
      stages

unfoldable pub insert_stage : Browser → List StageEvent → StageEvent → List StageEvent
insert_stage browser stages event = sort browser (without_same stages event ++ event ∷ [])

abbrev pub higher : Stage → Stage → Stage
higher top stage = if leb (stage_rank top) (stage_rank stage) then stage else top

abbrev pub highest_from : Stage → List StageEvent → Stage
highest_from top [] = top
highest_from top (event ∷ events) = highest_from (higher top event.stage) events

-- `stages.reduce(…)` without a first value throws on an empty array, which is `none`.
abbrev pub highest_stage : List StageEvent → Option Stage
highest_stage [] = none
highest_stage (event ∷ events) = some (highest_from event.stage events)

abbrev pub set_stages : Token → StageEvent → List StageEvent → Option Stage → Option Token
set_stages token event stages none = none
set_stages token event stages (some current) = some (record token {
  stages = stages;
  current_stage = current;
  terminal = is_terminal current;
  attempts = max token.attempts (get_or event.attempts token.attempts);
})

unfoldable pub with_stage : Browser → Token → StageEvent → Option Token
with_stage browser token event =
    let stages = insert_stage browser token.stages event in
    set_stages token event stages (highest_stage stages)

abbrev times_of : Browser → Stage → List StageEvent → List ℕ
times_of browser stage [] = []
times_of browser stage (event ∷ events) =
    if same_stage event.stage stage
    then elim (browser.date_parse event.ts) [
      | none ↦ times_of browser stage events
      | some t ↦ t ∷ times_of browser stage events
    ]
    else times_of browser stage events

abbrev least_from : ℕ → List ℕ → ℕ
least_from m [] = m
least_from m (t ∷ ts) = least_from (min m t) ts

abbrev greatest_from : ℕ → List ℕ → ℕ
greatest_from m [] = m
greatest_from m (t ∷ ts) = greatest_from (max m t) ts

abbrev least : List ℕ → Option ℕ
least [] = none
least (t ∷ ts) = some (least_from t ts)

abbrev greatest : List ℕ → Option ℕ
greatest [] = none
greatest (t ∷ ts) = some (greatest_from t ts)

abbrev or_else : Option ℕ → Option ℕ → Option ℕ
or_else none o = o
or_else (some n) o = some n

abbrev has_stage : List StageEvent → TelemetryStage → Bool
has_stage stages stage = any (λ event. same_stage event.stage (worker stage)) stages

abbrev duration : Option ℕ → Option ℕ → Option ℕ
duration none end = none
duration (some start) none = none
duration (some start) (some end) = some (max 0 (end - start))

abbrev until : Browser → Token → Option ℕ → Option TelemetryStage → Option ℕ
until browser token start none = none
until browser token start (some terminal) =
    duration start (greatest (times_of browser (worker terminal) token.stages))

-- `end - start` stops at 0, as the `Math.max` around it does.
unfoldable pub processing_ms : Browser → Token → Option ℕ
processing_ms browser token =
    let start =
      or_else (least (times_of browser (worker TelemetryStage.consuming) token.stages))
        (least (times_of browser (worker TelemetryStage.processing_decision) token.stages)) in
    until browser token start (
      find_first (has_stage token.stages)
        (TelemetryStage.processed ∷ TelemetryStage.duplicate ∷ TelemetryStage.dead ∷ []))
