-- ===== src/Board/Store.antt =====
-- `useDemoStore` of web/src/state/useDemoStore.ts: what a scenario dispatches, and the run of a sequential
-- one around its waits. One run is followed; what the browser's calls answer, and when, comes as events.
pub mod Laws
use async_webhook_ingestion.Prelude.{
  ℕ, suc, ◌+◌, String, Bool, true, false, not, Option, none, some, List, [], ◌∷◌, ◌++◌, map, keep,
  member, eqb, ◌==◌, if◌then◌else◌,
}
use async_webhook_ingestion.Json.{Json, obj, field, str, end}
use async_webhook_ingestion.Board.Stages.{injected, received, unavailable}
use async_webhook_ingestion.Board.Reducer.{
  Action, trigger_started, http_result, reset, TriggerStarted, TriggerResult,
}
use async_webhook_ingestion.Board.Api.{unsigned}
use async_webhook_ingestion.Board.Scenarios.{TriggerSpec, ScenarioDef}

-- The time as a text is an argument, and `none` is a call that throws.
unfoldable pub started_action : ScenarioDef → (ts : String) → TriggerSpec → Action
started_action scenario ts spec = trigger_started (record {
  correlation_id = spec.correlation_id;
  event_id = spec.event_id;
  event_type = spec.event_type;
  scenario = scenario.id;
  label = spec.label;
  ts = ts;
  initial_stage = some (if scenario.inject then injected else received);
})

unfoldable pub network_error : TriggerSpec → TriggerResult
network_error spec = record {
  correlation_id = spec.correlation_id;
  event_id = spec.event_id;
  event_type = spec.event_type;
  status = 0;
  is_ok = false;
  body_text = "";
  body = obj (field "error" (str "network error. Is the backend up?") end);
  latency_ms = 0;
  signed = unsigned;
  api_stage = unavailable;
  responded_correlation_id = none;
}

abbrev pub result_action : (ts : String) → TriggerSpec → Option TriggerResult → Action
result_action ts spec none = http_result (network_error spec) ts
result_action ts spec (some result) = http_result result ts

-- A sequential run: a request is out (and whether the wait that it registered is already over), or it
-- waits for a token to settle, or it has returned. Each holds the generation of its start.
pub data Run : Type 0 where
  posting : TriggerSpec → (rest : List TriggerSpec) → (settled : Bool) → Run
  waiting : (correlation_id : String) → (rest : List TriggerSpec) → Run
  over : Run

pub record Store : Type 0 where
  pub run : Run
  pub started_in : ℕ
  pub generation : ℕ
  pub waiters : List String
  pub dispatched : List Action

pub data StoreEvent : Type 0 where
  answered : (ts : String) → Option TriggerResult → StoreEvent
  settled_now : (ts correlation_id : String) → StoreEvent
  timed_out : (ts correlation_id : String) → StoreEvent
  reset_pressed : StoreEvent

abbrev without : String → List String → List String
without id ids = keep (λ other. not (other == id)) ids

abbrev waits_for : TriggerSpec → List TriggerSpec → List String → List String
waits_for spec [] ids = ids
waits_for spec (next ∷ rest) ids = without spec.correlation_id ids ++ spec.correlation_id ∷ []

module _ (scenario : ScenarioDef) where
  -- One round of the loop up to the request.
  abbrev pub fire_next : (ts : String) → List TriggerSpec → Store → Store
  fire_next ts [] store = record store { run = over }
  fire_next ts (spec ∷ rest) store = record store {
    run = posting spec rest false;
    waiters = waits_for spec rest store.waiters;
    dispatched = store.dispatched ++ started_action scenario ts spec ∷ [];
  }

  -- `if (runGeneration.current !== generation) return;`
  abbrev pub go_on : (ts : String) → List TriggerSpec → Store → Store
  go_on ts rest store =
      if eqb store.generation store.started_in
      then fire_next ts rest store
      else record store { run = over }

  abbrev pub after_answer :
      (ts : String) → List TriggerSpec → (correlation_id : String) → Bool → Store → Store
  after_answer ts [] id settled store = record store { run = over }
  after_answer ts (next ∷ rest) id true store = go_on ts (next ∷ rest) store
  after_answer ts (next ∷ rest) id false store = record store { run = waiting id (next ∷ rest) }

  abbrev pub answer_run : (ts : String) → Option TriggerResult → Run → Store → Store
  answer_run ts result (posting spec rest settled) store =
      after_answer ts rest spec.correlation_id settled
        (record store { dispatched = store.dispatched ++ result_action ts spec result ∷ [] })
  answer_run ts result (waiting id rest) store = store
  answer_run ts result over store = store

  -- The waiter of an id is called: the promise of the run resolves if it is that one.
  abbrev pub resolve_run : (ts correlation_id : String) → Run → Store → Store
  resolve_run ts id (posting spec rest settled) store =
      if spec.correlation_id == id then record store { run = posting spec rest true } else store
  resolve_run ts id (waiting other rest) store = if other == id then go_on ts rest store else store
  resolve_run ts id over store = store

  -- `notifySettled`, and the timer of the wait, which is cleared with the waiter.
  abbrev pub settle_waiter : (ts correlation_id : String) → Store → Store
  settle_waiter ts id store =
      if member id store.waiters
      then resolve_run ts id store.run (record store { waiters = without id store.waiters })
      else store

  abbrev cancel_run : Run → Run
  cancel_run (posting spec rest settled) = posting spec rest true
  cancel_run (waiting id rest) = over
  cancel_run over = over

  -- `reset`: a run that waits goes on, finds another generation and returns.
  abbrev pub reset_store : Store → Store
  reset_store store = record store {
    run = cancel_run store.run;
    generation = store.generation + 1;
    waiters = [];
    dispatched = store.dispatched ++ reset ∷ [];
  }

  unfoldable pub on_event : StoreEvent → Store → Store
  on_event (answered ts result) store = answer_run ts result store.run store
  on_event (settled_now ts id) store = settle_waiter ts id store
  on_event (timed_out ts id) store = settle_waiter ts id store
  on_event reset_pressed store = reset_store store

  abbrev pub on_events : List StoreEvent → Store → Store
  on_events [] store = store
  on_events (event ∷ events) store = on_events events (on_event event store)

  -- The start of a sequential run.
  unfoldable pub run_sequential : (ts : String) → List TriggerSpec → (generation : ℕ) → Store
  run_sequential ts specs generation = fire_next ts specs (record {
    run = over;
    started_in = generation;
    generation = generation;
    waiters = [];
    dispatched = [];
  })

  -- `Promise.all(specs.map(fire))`: every request is out before any answer.
  abbrev pub run_all : (ts : String) → List TriggerSpec → List Action
  run_all ts specs = map (started_action scenario ts) specs
