-- ===== src/Examples/Worker.antt =====
-- The worker on concrete messages.
use async_webhook_ingestion.Prelude.{
  String, true, false, ◌≡◌, refl, none, some, [], ◌∷◌, arith, ◌==◌, if◌then◌else◌,
}
use async_webhook_ingestion.Errors.{query_failed, is_non_recoverable_db_error}
use async_webhook_ingestion.Json.{str}
use async_webhook_ingestion.Events.{EventStatus}
use async_webhook_ingestion.Events.Database.{Rows, in_memory}
use async_webhook_ingestion.Worker.{World, transaction}
use async_webhook_ingestion.Consumer.Handler.{processed, noop_order_handler}
use async_webhook_ingestion.Consumer.Messages.{is_continuation}
use async_webhook_ingestion.Consumer.Claim.{
  claim_and_handle, judge, judge_row, attempt_event, after_handler,
}
use async_webhook_ingestion.Consumer.Claim.Machine.{step}
use async_webhook_ingestion.Consumer.Claim.Machine.Budget.{DecisionWithin, RowWithin, step-within}
use async_webhook_ingestion.Consumer.Claim.Machine.Series.{Visit}
use async_webhook_ingestion.Consumer.Claim.Machine.Retries.{IsOver, after_retries, retries_end}
use async_webhook_ingestion.Consumer.Claim.Refinement.{Settles, claim_and_handle-Settles}
use async_webhook_ingestion.Consumer.Processor.{process}
use async_webhook_ingestion.Consumer.Orders.{handle, consume, consume_event, conclude, rescue}
use async_webhook_ingestion.Consumer.Orders.Laws.Handle.{Requeued, event_in, handle-Requeued}
use async_webhook_ingestion.Errors.Laws.{IsFinal, is_non_recoverable_db_error_iff}
use async_webhook_ingestion.Prelude.{◌↔◌}
use async_webhook_ingestion.Examples.{
  parse_two, delivery, accepts, no_rows, world, order_event, failing, order_row,
}

handled : String → Rows → World Rows
handled raw r =
    (handle in_memory accepts noop_order_handler 4 parse_two "uuid" (delivery raw) (world r)).1

handle-Requeued_example :
    Requeued in_memory accepts noop_order_handler 4
      (event_in in_memory accepts noop_order_handler 4 parse_two "uuid"
        (delivery "unlucky")
        "evt_1")
      (is_continuation (delivery "unlucky"))
      (world no_rows)
      (handle in_memory accepts noop_order_handler 4 parse_two "uuid"
        (delivery "unlucky")
        (world no_rows)).1
unfolding handle consume consume_event conclude rescue process claim_and_handle transaction
    is_continuation is_non_recoverable_db_error
handle-Requeued_example =
    handle-Requeued in_memory accepts noop_order_handler 4 parse_two "uuid" (delivery "unlucky")
      "evt_1" (world no_rows) refl refl

claim_and_handle-Settles_example :
    Settles "evt_1" no_rows
      (record {
        events = λ k.
            if k == "evt_1"
            then some (order_row EventStatus.processed 1)
            else (if k == "evt_1"
                then some (order_row EventStatus.processing 1)
                else (if k == "evt_1" then some (order_row EventStatus.received 0) else none));
        letters = [];
      })
      (processed 1)
      (step noop_order_handler 4 order_event false none)
unfolding claim_and_handle judge judge_row attempt_event after_handler
claim_and_handle-Settles_example =
    claim_and_handle-Settles in_memory noop_order_handler 4 order_event false no_rows refl

step-within_example :
    DecisionWithin 4 (step failing 4 order_event true (some (order_row EventStatus.processing 2))).0
    × RowWithin 4
        (some (step failing 4 order_event true (some (order_row EventStatus.processing 2))).1)
step-within_example =
    step-within failing 4 order_event true (some (order_row EventStatus.processing 2)) (omega arith)
      (omega arith, omega arith)

abbrev first_visit : Visit
first_visit = record { handler = noop_order_handler; event = order_event; continuation = false }

retries_end_example :
    IsOver
      (after_retries 4
        ((failing, order_event) ∷ (failing, order_event) ∷ [])
        (order_row EventStatus.processing 2)).status
retries_end_example =
    retries_end 4 ((failing, order_event) ∷ (failing, order_event) ∷ [])
      (order_row EventStatus.processing 2) (omega arith) (omega arith, omega arith) (omega arith)

is_non_recoverable_db_error_iff_example :
    (is_non_recoverable_db_error (query_failed (some (str "22001")) "value too long") ≡ true)
    ↔ IsFinal (query_failed (some (str "22001")) "value too long")
is_non_recoverable_db_error_iff_example =
    is_non_recoverable_db_error_iff (query_failed (some (str "22001")) "value too long")
