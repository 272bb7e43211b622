-- ===== src/Consumer/Claim.antt =====
-- `IdempotentEventProcessor.claimAndHandle` of src/consumer/idempotent-event-processor.ts: the body
-- of its transaction, over any database that meets the interface.
pub mod Machine
pub mod Refinement
use Prim.Native.String
use async_webhook_ingestion.Prelude.{
  ⊤, ℕ, ◌+◌, String, Bool, not, ◌&&◌, ◌||◌, Option, none, some, Result, ok, err, leb, get_or,
  if◌then◌else◌,
}
use async_webhook_ingestion.Errors.{Thrown, other_error, reason_of, is_permanent}
use async_webhook_ingestion.Events.{
  Event, EventStatus, NewEvent, received, processing, is_settled, is_failed,
}
use async_webhook_ingestion.Events.Database.{Database, Tx, ◌>>=◌, ◌>>◌, return, throw}
use async_webhook_ingestion.Consumer.Handler.{
  HandledEvent, OrderHandler, ProcessDecision, processed, duplicate, retry, dead,
}

abbrev pub claim_values : HandledEvent → NewEvent
claim_values event = record {
  event_id = event.event_id;
  event_type = event.event_type;
  correlation_id = event.correlation_id;
  payload = event.payload;
  status = received;
}

-- The changes of the updates.
abbrev pub count_duplicate : Event → Event
count_duplicate row = record row { duplicate_count = row.duplicate_count + 1 }

abbrev pub start_attempt : ℕ → Event → Event
start_attempt attempts row = record row { status = processing; attempts = attempts }

abbrev pub fail : String → Event → Event
fail reason row = record row { status = EventStatus.failed; failure_reason = some reason }

abbrev pub note_failure : String → Event → Event
note_failure reason row = record row { failure_reason = some reason }

abbrev pub finish : Event → Event
finish row = record row { status = EventStatus.processed; failure_reason = none }

-- `Number(config.get('MAX_PROCESSING_ATTEMPTS') ?? 4)`
abbrev pub max_attempts_of : Option ℕ → ℕ
max_attempts_of configured = get_or configured 4

module _ (db : Database) (handler : OrderHandler) (max_attempts : ℕ) (event : HandledEvent) where
  open db use {Db, insert_event, lock_event, update_event}

  -- The `try` around the handler: what follows its return, and the `catch`.
  unfoldable pub after_handler : ℕ → Result Thrown ⊤ → Tx Db ProcessDecision
  after_handler attempts (ok u) = do update_event event.event_id finish; return (processed attempts)
  after_handler attempts (err e) =
      if is_permanent e || leb max_attempts attempts
      then (update_event event.event_id (fail (reason_of e))
          >> return (dead attempts (reason_of e)))
      else (update_event event.event_id (note_failure (reason_of e)) >> return (retry attempts))

  unfoldable pub attempt_event : Event → Tx Db ProcessDecision
  unfolding after_handler
  attempt_event row = do
    let attempts = row.attempts + 1
    update_event event.event_id (start_attempt attempts)
    after_handler attempts (handler event attempts)

  unfoldable pub drop_duplicate : Event → Tx Db ProcessDecision
  drop_duplicate row = do
    update_event event.event_id count_duplicate
    return (duplicate row.attempts)

  -- The decisions on the locked row.
  unfoldable pub judge_row : (claimed is_continuation : Bool) → Event → Tx Db ProcessDecision
  unfolding drop_duplicate attempt_event
  judge_row claimed is_continuation row =
      if is_settled row.status
      then drop_duplicate row
      else if is_failed row.status
      then return (dead row.attempts (get_or row.failure_reason "previously failed"))
      else if not claimed && not is_continuation
      then drop_duplicate row
      else attempt_event row

  unfoldable pub judge : (claimed is_continuation : Bool) → Option Event → Tx Db ProcessDecision
  unfolding judge_row
  judge claimed is_continuation none =
      throw (other_error (String.◌++◌ "event row missing after claim: " event.event_id))
  judge claimed is_continuation (some row) = judge_row claimed is_continuation row

  unfoldable pub claim_and_handle : (is_continuation : Bool) → Tx Db ProcessDecision
  unfolding judge
  claim_and_handle is_continuation = do
    claimed ← insert_event (claim_values event)
    row ← lock_event event.event_id
    judge claimed is_continuation row
