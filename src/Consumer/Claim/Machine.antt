-- ===== src/Consumer/Claim/Machine.antt =====
-- The life of an event's row as a state machine, without the database: what `claimAndHandle` decides
-- and makes of the row, by the row's state.
pub mod Budget
pub mod Series
pub mod Retries
use async_webhook_ingestion.Prelude.{
  ⊤, ℕ, ◌+◌, Bool, true, false, ◌||◌, Option, none, some, Result, ok, err, leb, get_or,
}
use async_webhook_ingestion.Errors.{Thrown, reason_of, is_permanent}
use async_webhook_ingestion.Events.{Event, EventStatus, received, processing, failed}
use async_webhook_ingestion.Events.Database.{new_row}
use async_webhook_ingestion.Consumer.Handler.{
  HandledEvent, OrderHandler, ProcessDecision, processed, duplicate, retry, dead,
}
use async_webhook_ingestion.Consumer.Claim.{claim_values}

-- How an attempt ends: the decision and the new status.
pub data Ending : Type 0 where
  succeeded : Ending
  gave_up : Thrown → Ending
  will_retry : Thrown → Ending

abbrev ending_of_error : Bool → Thrown → Ending
ending_of_error true e = gave_up e
ending_of_error false e = will_retry e

abbrev pub ending : ℕ → ℕ → Result Thrown ⊤ → Ending
ending max_attempts attempts (ok u) = succeeded
ending max_attempts attempts (err e) =
    ending_of_error (is_permanent e || leb max_attempts attempts) e

abbrev pub end_attempt : ℕ → Event → Ending → ProcessDecision × Event
end_attempt n row succeeded = (
  processed n,
  record row { status = EventStatus.processed; attempts = n; failure_reason = none },
)
end_attempt n row (gave_up e) = (
  dead n (reason_of e),
  record row { status = failed; attempts = n; failure_reason = some (reason_of e) },
)
end_attempt n row (will_retry e) =
    (retry n, record row { status = processing; attempts = n; failure_reason = some (reason_of e) })

module _ (handler : OrderHandler) (max_attempts : ℕ) (event : HandledEvent) where
  abbrev pub attempt : Event → ProcessDecision × Event
  attempt row =
      end_attempt (row.attempts + 1) row
        (ending max_attempts (row.attempts + 1) (handler event (row.attempts + 1)))

  abbrev pub repeat : Event → ProcessDecision × Event
  repeat row = (duplicate row.attempts, record row { duplicate_count = row.duplicate_count + 1 })

  -- A row that was there before the claim; `true` is a continuation.
  abbrev pub step_row : EventStatus → Bool → Event → ProcessDecision × Event
  step_row EventStatus.processed c row = repeat row
  step_row EventStatus.dead c row = repeat row
  step_row failed c row = (dead row.attempts (get_or row.failure_reason "previously failed"), row)
  step_row received false row = repeat row
  step_row received true row = attempt row
  step_row processing false row = repeat row
  step_row processing true row = attempt row

  unfoldable pub step : Bool → Option Event → ProcessDecision × Event
  step c none = attempt (new_row (claim_values event))
  step c (some row) = step_row row.status c row
