-- ===== src/Examples/Buttons.antt =====
-- The buttons of the board against a service with a runtime of tables.
use async_webhook_ingestion.Prelude.{
  ℕ, String, false, ◌≤◌, [], ◌∷◌, ◌≡◌, ◌≢◌, refl, Option, none, some, map, ok, get_or, eqb, ◌==◌,
  eq_iff, arith, if◌then◌else◌, Bool-cases, inl, inr,
}
use async_webhook_ingestion.Json.{Json, end, as_string, property}
use async_webhook_ingestion.Boundary.{Crypto}
use async_webhook_ingestion.Boundary.Signature.{Finite}
use async_webhook_ingestion.Board.Scenarios.{Fresh, order_body}
use async_webhook_ingestion.Board.Scenarios.Definitions.{
  scenarios, scenario_field, outage_fields, malformed_body_spec,
}
use async_webhook_ingestion.Board.Store.{
  Store, answered, settled_now, reset_pressed, on_event, on_events, run_sequential, started_action,
}
use async_webhook_ingestion.Board.Scenarios.Definitions.{duplicated_def}
use async_webhook_ingestion.Board.Store.Laws.{starts, reset-silent}
use async_webhook_ingestion.Board.Answers.{Deployment, IsSound, Sent, statuses, joined}
use async_webhook_ingestion.Board.Answers.Laws.{scenarios-expected}

abbrev table_hmac : String → String
table_hmac key = if key == "wrong-secret" then "bad" else "good"

abbrev table_crypto : Crypto
table_crypto = record {
  Digest = String;
  sha256 = λ s. s;
  timing_safe_equal = λ a b. a == b;
  hmac_sha256_hex = λ key message. table_hmac key;
  timing_safe_equal_iff = eq_iff;
}

abbrev fresh_ids : Fresh
fresh_ids = record {
  event_id = "evt_1";
  correlation_id = "corr_1";
  second_correlation_id = "corr_2";
  now_ms = 2000000;
}

abbrev time_text : ℕ → String
time_text n =
    if eqb n 202
    then "202"
    else if eqb n 400
    then "400"
    else if eqb n 401
    then "401"
    else if eqb n 2000
    then "2000"
    else "1400"

abbrev time_read : String → Option Finite
time_read t =
    if t == "2000"
    then some (record { is_negative = false; magnitude = 2000; scale = 0 })
    else if t == "1400"
    then some (record { is_negative = false; magnitude = 1400; scale = 0 })
    else none

abbrev scenario_in : Option Json → String
scenario_in none = "plain"
scenario_in (some payload) = get_or (as_string (property "__scenario" payload)) "plain"

abbrev table_stringify : Json → String
table_stringify v = elim (property "event_id" v) [
  | none ↦ "malformed"
  | some id ↦ scenario_in (property "payload" v)
]

abbrev table_parse : Option String → Option Json
table_parse none = none
table_parse (some t) =
    if t == "malformed"
    then some (malformed_body_spec fresh_ids).body
    else if t == "transient"
    then some (order_body "evt_1" (scenario_field "transient"))
    else if t == "permanent"
    then some (order_body "evt_1" (scenario_field "permanent"))
    else if t == "exhaust"
    then some (order_body "evt_1" (outage_fields 2000000))
    else some (order_body "evt_1" end)

abbrev deployment : Deployment
deployment = record {
  crypto = table_crypto;
  number = time_read;
  text_of = time_text;
  stringify = table_stringify;
  parse_body = table_parse;
  length_of = λ t. 10;
  guard = record { secret = "key"; tolerance_seconds = 300 };
  publish = λ order id. ok tt;
  broker = λ p. ok tt;
  uuid = "uuid";
  fresh = fresh_ids;
}

table_parse-table_stringify :
    (v : Json) → Sent deployment v → table_parse (some (table_stringify v)) ≡ some v
unfolding order_body
table_parse-table_stringify v Sent.plain = refl
table_parse-table_stringify v Sent.transient = refl
table_parse-table_stringify v Sent.exhaust = refl
table_parse-table_stringify v Sent.permanent = refl
table_parse-table_stringify v Sent.malformed = refl

table_hmac_nonempty : (key : String) → table_hmac key ≢ ""
table_hmac_nonempty key = elim (Bool-cases (key == "wrong-secret")) [
  | inl wrong ↦ rw wrong (λ e. cc ((eq_iff "bad" "").1 e))
  | inr right ↦ rw right (λ e. cc ((eq_iff "good" "").1 e))
]

deployment-IsSound : IsSound deployment
deployment-IsSound = record {
  now_read = (refl, λ e. cc ((eq_iff "2000" "").1 e));
  late_read = (refl, λ e. cc ((eq_iff "1400" "").1 e));
  shows_202 = refl;
  shows_400 = refl;
  shows_401 = refl;
  signs = λ key message. table_hmac_nonempty key;
  wrong_secret = λ message e. cc ((eq_iff "bad" "good").1 e);
  parses = table_parse-table_stringify;
  window = omega arith;
  late = omega arith;
  type_length = omega arith;
  id_length = omega arith;
  id_there = λ e. cc ((eq_iff "evt_1" "").1 e);
  publishes = λ order id. refl;
  injects = λ p. refl;
}

scenarios-expected_example :
    map (λ scenario. joined time_text (statuses deployment scenario)) scenarios
    ≡ map (λ scenario. scenario.expected) scenarios
scenarios-expected_example = scenarios-expected deployment deployment-IsSound

-- The button for duplicates, its first request out.
abbrev first_run : Store
first_run = run_sequential duplicated_def "t0" (duplicated_def.build fresh_ids) 3

first_run_is_current : first_run.started_in ≤ first_run.generation
unfolding run_sequential
first_run_is_current = omega arith

reset-silent_example :
    starts
      (on_events duplicated_def
        (reset_pressed ∷ answered "t1" none ∷ settled_now "t2" "corr_1" ∷ [])
        first_run).dispatched
    ≡ starts first_run.dispatched
reset-silent_example =
    reset-silent duplicated_def (answered "t1" none ∷ settled_now "t2" "corr_1" ∷ []) first_run
      first_run_is_current

-- Without a reset the second request goes out once the first has settled.
the_second_follows :
    starts
      (on_events duplicated_def
        (answered "t1" none ∷ settled_now "t2" "corr_1" ∷ [])
        first_run).dispatched
    ≡ 2
unfolding run_sequential on_event started_action
the_second_follows = refl
