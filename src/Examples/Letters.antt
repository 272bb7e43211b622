-- ===== src/Examples/Letters.antt =====
-- Dead letters, replays and the life of an event, on concrete rows.
use async_webhook_ingestion.Prelude.{
  ◌≤◌, String, true, false, ◌≡◌, refl, Option, none, some, List, [], ◌∷◌, arith, ok, ◌==◌,
  if◌then◌else◌,
}
use async_webhook_ingestion.Json.{Json, nat}
use async_webhook_ingestion.Messaging.{Publication, delivery_of}
use async_webhook_ingestion.Messaging.Tiers.{rung}
use async_webhook_ingestion.Events.{EventStatus}
use async_webhook_ingestion.Events.Database.{Rows, in_memory, stamp_rows, update_event_rows}
use async_webhook_ingestion.Consumer.Handler.{noop_order_handler}
use async_webhook_ingestion.Consumer.Messages.{
  dead_letter_unparseable, dead_letter_publication, dead_letter_for, retry_publication, event_of,
  event_id_of, is_continuation, parse, correlation_of,
}
use async_webhook_ingestion.Consumer.Claim.Machine.Budget.{RowWithin}
use async_webhook_ingestion.Consumer.Claim.Machine.{step}
use async_webhook_ingestion.Consumer.Claim.Machine.Series.{Visit}
use async_webhook_ingestion.Consumer.Orders
use async_webhook_ingestion.Worker.{Effect, publish}
use async_webhook_ingestion.Consumer.DeadLetters.{parse_dead, letter_values, handle}
use async_webhook_ingestion.Consumer.DeadLetters.Laws.{Ends, handle-Ends}
use async_webhook_ingestion.Dlq.Prepare.{
  PreparedReplay, prepare, with_letter, with_event_id, with_body, restart, admit, stored_message,
  reset,
}
use async_webhook_ingestion.Dlq.Prepare.Laws.{Prepared, prepare-Prepared}
use async_webhook_ingestion.Dlq.Replay.{replay}
use async_webhook_ingestion.Dlq.Replay.Laws
use async_webhook_ingestion.Dlq.Replay.Laws.{CanReplay, replay-Ends, replay_retryable}
use async_webhook_ingestion.Pipeline.{Act, deliver, bury, act, run, times_processed}
use async_webhook_ingestion.Pipeline
use async_webhook_ingestion.Pipeline.Laws.{
  run-within, times_processed-le-one, late_dead_letter_reprocesses,
}
use async_webhook_ingestion.RoundTrips.{
  body, retry_round_trip, dead_letter_round_trip, unparseable_kept,
}
use async_webhook_ingestion.Examples.{
  order_json, parse_two, delivery, accepts, confirms, no_rows, world, order_event, failing,
  one_letter,
}

abbrev prepared : PreparedReplay
prepared = record { event_id = "evt_1"; correlation_id = "corr_1"; body = order_json }

abbrev replayed_rows : Rows
replayed_rows =
    stamp_rows "letter-1" 7 (update_event_rows "evt_1" reset (one_letter EventStatus.failed))

is_prepared : Prepared parse_two 7 "letter-1" (one_letter EventStatus.failed) replayed_rows prepared
unfolding prepare with_letter with_event_id with_body restart admit stored_message
is_prepared = prepare-Prepared in_memory parse_two 7 "letter-1" (one_letter EventStatus.failed) refl

prepare-Prepared_example :
    Prepared parse_two 7 "letter-1" (one_letter EventStatus.failed) replayed_rows prepared
unfolding prepare with_letter with_event_id with_body restart admit stored_message
prepare-Prepared_example =
    prepare-Prepared in_memory parse_two 7 "letter-1" (one_letter EventStatus.failed) refl

replay-Ends_example :
    Laws.Ends in_memory confirms 5000 parse_two 7 "letter-1"
      (world (one_letter EventStatus.failed))
      (replay in_memory confirms 5000 parse_two 7 "letter-1"
        (world (one_letter EventStatus.failed)))
replay-Ends_example =
    replay-Ends in_memory confirms 5000 parse_two 7 "letter-1"
      (world (one_letter EventStatus.failed))

replay_retryable_example : CanReplay parse_two "letter-1" replayed_rows prepared
replay_retryable_example =
    replay_retryable parse_two 7 "letter-1" (one_letter EventStatus.failed) replayed_rows prepared
      is_prepared

handle-Ends_example :
    Ends in_memory
      (parse_dead parse_two "order")
      (delivery "order")
      (world no_rows)
      (handle in_memory parse_two (delivery "order") (world no_rows))
handle-Ends_example = handle-Ends in_memory parse_two (delivery "order") (world no_rows)

abbrev first_visit : Visit
first_visit = record { handler = noop_order_handler; event = order_event; continuation = false }

abbrev failed_visit : Visit
failed_visit = record { handler = failing; event = order_event; continuation = false }

abbrev later_visit : Visit
later_visit = record { handler = noop_order_handler; event = order_event; continuation = true }

-- A failure for good with a limit of one attempt, its dead letter, a replay, and the replayed message.
abbrev life : List Act
life = deliver failed_visit ∷ bury ∷ Pipeline.replay ∷ deliver later_visit ∷ []

run-within_example : RowWithin 1 (run 1 life none)
run-within_example = run-within 1 life none (omega arith) tt

times_processed-le-one_example : times_processed 1 life none ≤ 1
unfolding step
times_processed-le-one_example = times_processed-le-one 1 life none (λ e. cc e, tt)

late_dead_letter_reprocesses_example :
    times_processed 4 (deliver first_visit ∷ bury ∷ Pipeline.replay ∷ deliver later_visit ∷ []) none
    ≡ 2
late_dead_letter_reprocesses_example =
    late_dead_letter_reprocesses 4 first_visit later_visit refl refl refl

abbrev text : Json → String
text j = "text"

abbrev retried : Publication
retried = retry_publication (event_of "evt_1" "corr_1" order_json) (rung 1) 1

abbrev parse_retried : String → Option Json
parse_retried raw = some (body retried)

retry_round_trip_example :
    (event_id_of (parse parse_retried "text") ≡ some "evt_1")
    × (event_of "evt_1"
          (correlation_of parse_retried "uuid" (delivery_of text true retried))
          (parse parse_retried "text")
        ≡ event_of "evt_1" "corr_1" order_json)
    × (is_continuation (delivery_of text true retried) ≡ true)
unfolding retry_publication
retry_round_trip_example =
    retry_round_trip parse_retried text "evt_1" "corr_1" "uuid" order_json (rung 1) 1 true refl refl
      refl

abbrev buried : Publication
buried = dead_letter_publication (dead_letter_for "order" order_event 4 "down")

abbrev parse_buried : String → Option Json
parse_buried raw = some (body buried)

dead_letter_round_trip_example :
    letter_values (parse_dead parse_buried "text") (delivery_of text false buried) ≡ record {
      message_id = some "evt_1";
      correlation_id = "corr_1";
      event_id = some "evt_1";
      reason = "down";
      attempts = nat 4;
      payload = "order";
    }
unfolding dead_letter_publication
dead_letter_round_trip_example =
    dead_letter_round_trip parse_buried text "order" "down" order_event 4 false refl refl refl

-- The letter of a message that is no JSON.
abbrev garbage : Publication
garbage = dead_letter_publication (dead_letter_unparseable "garbage" "corr_1")

abbrev parse_garbage : String → Option Json
parse_garbage raw = if raw == "garbage" then none else some (body garbage)

unparseable_kept_example :
    (accepts garbage ≡ ok tt)
    × ((reports : List Effect) × ((Orders.handle in_memory accepts failing 4 parse_garbage "uuid"
            (delivery "garbage")
            (world no_rows)).1.log
          ≡ publish garbage ∷ reports))
    × ((Orders.handle in_memory accepts failing 4 parse_garbage "uuid"
          (delivery "garbage")
          (world no_rows)).1.db
        ≡ no_rows)
    × (letter_values (parse_dead parse_garbage "text") (delivery_of text false garbage) ≡ record {
      message_id = none;
      correlation_id = "corr_1";
      event_id = none;
      reason = "unparseable payload or missing event_id";
      attempts = nat 0;
      payload = "garbage";
    })
unfolding dead_letter_publication Orders.handle correlation_of
unparseable_kept_example =
    unparseable_kept parse_garbage text in_memory accepts failing 4 "uuid" (delivery "garbage")
      (world no_rows) false refl refl refl refl
