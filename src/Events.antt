-- ===== src/Events.antt =====
-- src/events: the rows of the two tables, and the status of an event.
pub mod Database
use async_webhook_ingestion.Prelude.{ℕ, String, Bool, true, false, Option}
use async_webhook_ingestion.Json.{Json, Number}

pub data EventStatus : Type 0 where
  received processing processed failed dead : EventStatus

-- The text that the enum stands for.
abbrev pub status_text : EventStatus → String
status_text received = "received"
status_text processing = "processing"
status_text processed = "processed"
status_text failed = "failed"
status_text dead = "dead"

-- A row of `events`, by the columns that code reads or sets. Its id, `created_at` and `updated_at` are
-- set by the database, the last of them at each update, and read by no code: they are left out, so that
-- an equation of rows is one of the other columns.
pub record Event : Type 0 where
  pub event_id : String
  pub event_type : String
  pub status : EventStatus
  pub attempts : ℕ
  pub duplicate_count : ℕ
  pub correlation_id : String
  pub payload : Json
  pub failure_reason : Option String

-- A row of `dlq_messages`. The count of attempts is whatever number the dead letter carries.
pub record DlqMessage : Type 0 where
  pub id : String
  pub message_id : Option String
  pub correlation_id : String
  pub event_id : Option String
  pub reason : String
  pub attempts : Number
  pub payload : Option String
  pub created_at : ℕ
  pub replayed_at : Option ℕ

-- The `values` of the two inserts.
pub record NewEvent : Type 0 where
  pub event_id : String
  pub event_type : String
  pub correlation_id : String
  pub payload : Json
  pub status : EventStatus

pub record NewDeadLetter : Type 0 where
  pub message_id : Option String
  pub correlation_id : String
  pub event_id : Option String
  pub reason : String
  pub attempts : Number
  pub payload : String

abbrev pub is_settled : EventStatus → Bool
is_settled received = false
is_settled processing = false
is_settled processed = true
is_settled failed = false
is_settled dead = true

abbrev pub is_failed : EventStatus → Bool
is_failed received = false
is_failed processing = false
is_failed processed = false
is_failed failed = true
is_failed dead = false
