-- ===== src/Service/Health.antt =====
-- `HealthController` of src/health/health.controller.ts. The answer of the database to the ping, and
-- whether the connection to the broker is up, are arguments.
pub mod Laws
use async_webhook_ingestion.Prelude.{
  ⊤, ℕ, String, Bool, true, false, ◌&&◌, Option, none, some, Result, ok, err, ltb, if◌then◌else◌,
}
use async_webhook_ingestion.Timeout.{Pending}

abbrev pub db_ping_timeout_ms : ℕ
db_ping_timeout_ms = 2000

pub data CheckState : Type 0 where
  up down : CheckState

pub record Checks : Type 0 where
  pub postgres : CheckState
  pub rabbitmq : CheckState

abbrev pub is_up : CheckState → Bool
is_up up = true
is_up down = false

abbrev answer_state : {E : Type 0} → Result E ⊤ → CheckState
answer_state (ok u) = up
answer_state (err e) = down

-- The race of the ping against its timer; an answer in the very millisecond of the timer counts as late.
unfoldable pub postgres_state : Pending ⊤ → CheckState
postgres_state none = down
postgres_state (some (t, answer)) = if ltb t db_ping_timeout_ms then answer_state answer else down

-- The body of the 200, or of the 503 whose status is `degraded`.
pub data Report : Type 0 where
  healthy degraded : Checks → Report

abbrev pub report_on : Checks → Report
report_on checks =
    if is_up checks.postgres && is_up checks.rabbitmq then healthy checks else degraded checks

unfoldable pub check : (ping : Pending ⊤) (connected : Bool) → Report
check ping connected =
    report_on (record { postgres = postgres_state ping; rabbitmq = if connected then up else down })
