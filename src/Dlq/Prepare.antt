-- ===== src/Dlq/Prepare.antt =====
-- `prepare` of `DlqReplayService` in src/dlq/dlq-replay.service.ts: the transaction that resets an
-- event before its message is published again. The time of the stamp and `JSON.parse` are arguments.
pub mod Laws
use async_webhook_ingestion.Prelude.{
  ⊤, ℕ, String, Bool, true, false, not, ◌&&◌, Option, none, some, List, [], ◌∷◌, Result, ok, err,
  ◌==◌, get_or, if◌then◌else◌,
}
use async_webhook_ingestion.Json.{Json, num, nat, str, truthy, is_object_type, is_array}
use async_webhook_ingestion.Errors.{Thrown, http_exception}
use async_webhook_ingestion.Events.{
  Event, EventStatus, received, processing, processed, failed, dead, status_text, DlqMessage,
}
use async_webhook_ingestion.Events.Database
use async_webhook_ingestion.Events.Database.{Database, Tx, ◌>>=◌, ◌>>◌, return, throw}
use Prim.Native.String

abbrev pub is_replayable : EventStatus → Bool
is_replayable received = true
is_replayable processing = false
is_replayable processed = false
is_replayable failed = true
is_replayable dead = true

pub record PreparedReplay : Type 0 where
  pub event_id : String
  pub correlation_id : String
  pub body : Json

-- A column that is NULL or empty is falsy.
abbrev pub nonempty_text : Option String → Option String
nonempty_text none = none
nonempty_text (some s) = if s == "" then none else some s

-- `parsed && typeof parsed === 'object' && !Array.isArray(parsed)`
abbrev accept_body : Option Json → Option Json
accept_body none = none
accept_body (some p) = if truthy p && is_object_type p && not (is_array p) then some p else none

abbrev parse_text : (String → Option Json) → Option String → Option Json
parse_text parse_json none = none
parse_text parse_json (some s) = accept_body (parse_json s)

unfoldable pub stored_message : (String → Option Json) → DlqMessage → Option Json
stored_message parse_json letter = parse_text parse_json (nonempty_text letter.payload)

-- The full budget of attempts on a redrive.
abbrev pub reset : Event → Event
reset row = record row { status = received; attempts = 0; failure_reason = none }

abbrev pub not_found_error : Thrown
not_found_error = http_exception 404 "dead letter not found"

abbrev pub no_event_id_error : Thrown
no_event_id_error = http_exception 409 "dead letter has no event id and cannot be replayed"

abbrev pub not_original_error : Thrown
not_original_error =
    http_exception 409 "stored payload is not the original message and cannot be replayed"

abbrev pub status_error : EventStatus → Thrown
status_error s =
    http_exception 409
      (String.◌++◌ "event is " (String.◌++◌ (status_text s) " and cannot be replayed"))

module _ (db : Database) (parse_json : String → Option Json) (now : ℕ) (id : String) where
  open db use {Db, lock_letter, lock_event, update_event, stamp_letter}

  -- The tail of `prepare`, when the event may be replayed.
  abbrev stamped : PreparedReplay → Tx Db PreparedReplay
  stamped prepared = do stamp_letter id now; return prepared

  -- The event's row, if there is one, must be in a state that a replay may start from.
  unfoldable pub admit : PreparedReplay → Option Event → Tx Db PreparedReplay
  admit prepared none = stamped prepared
  admit prepared (some row) =
      if is_replayable row.status
      then (update_event prepared.event_id reset >> stamped prepared)
      else throw (status_error row.status)

  unfoldable pub restart : PreparedReplay → Tx Db PreparedReplay
  unfolding admit
  restart prepared = do row ← lock_event prepared.event_id; admit prepared row

  unfoldable pub with_body : DlqMessage → String → Option Json → Tx Db PreparedReplay
  unfolding restart
  with_body letter event_id none = throw not_original_error
  with_body letter event_id (some body) =
      restart (record { event_id = event_id; correlation_id = letter.correlation_id; body = body })

  unfoldable pub with_event_id : DlqMessage → Option String → Tx Db PreparedReplay
  unfolding with_body
  with_event_id letter none = throw no_event_id_error
  with_event_id letter (some event_id) =
      with_body letter event_id (stored_message parse_json letter)

  unfoldable pub with_letter : Option DlqMessage → Tx Db PreparedReplay
  unfolding with_event_id
  with_letter none = throw not_found_error
  with_letter (some letter) = with_event_id letter (nonempty_text letter.event_id)

  unfoldable pub prepare : Tx Db PreparedReplay
  unfolding with_letter
  prepare = do letter ← lock_letter id; with_letter letter
