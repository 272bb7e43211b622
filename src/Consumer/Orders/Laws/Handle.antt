-- ===== src/Consumer/Orders/Laws/Handle.antt =====
-- What a delivery to the work queue leaves behind, by how it ends.
use async_webhook_ingestion.Prelude.{
  ◌≢◌, ⊤, ℕ, String, Bool, false, ◌≡◌, refl, inl, inr, Option, none, some, [], ◌∷◌, ◌++◌, Result,
  ok, err, Result-cases, Bool-cases,
}
use async_webhook_ingestion.Json.{Json}
use async_webhook_ingestion.Errors.{Thrown, reason_of, is_non_recoverable_db_error}
use async_webhook_ingestion.Messaging.{Publication}
use async_webhook_ingestion.Events.{EventStatus}
use async_webhook_ingestion.Telemetry.{TelemetryStage}
use async_webhook_ingestion.Events.Database.{Database}
use async_webhook_ingestion.Worker.{
  World, publish, emit, count_event, and_then, pure, perform, ◌>>◌,
}
use async_webhook_ingestion.Worker.Logs.{and_then-ok, and_then-err}
use async_webhook_ingestion.Consumer.Handler.{HandledEvent, OrderHandler}
use async_webhook_ingestion.Consumer.Processor.{process, stage_of}
use async_webhook_ingestion.Consumer.Processor.Laws.{process-cases}
use async_webhook_ingestion.Consumer.Messages.{DeadLetter, dead_letter_for, dead_letter_publication}
use async_webhook_ingestion.Consumer.Orders.{
  Verdict, ack, requeue, bury, reject, rescue, conclude, consume_event,
}
use async_webhook_ingestion.Consumer.Orders.Laws.Follow.{bury-cases}
use async_webhook_ingestion.Consumer.Orders.Laws.Follow.{follow-ne-requeue}
use async_webhook_ingestion.Consumer.Orders.Laws.Delivery.{consuming}
use async_webhook_ingestion.Consumer.Messages.{
  parse, event_id_of, event_of, correlation_of, is_continuation, dead_letter_unparseable,
}
use async_webhook_ingestion.Consumer.Orders.{
  consume, consume_unparseable, handle, reject, dead_stage,
}
use async_webhook_ingestion.Messaging.{Delivery}

module _ (db : Database) (broker : Publication → Result Thrown ⊤) (handler : OrderHandler)
    (max_attempts : ℕ) where
  open db use {Db, rows}

  reject-ne-requeue :
      (raw : String) (event : HandledEvent) (e : Thrown) (w : World Db)
      → (reject db broker raw event e w).0 ≢ ok requeue
  unfolding reject
  reject-ne-requeue raw event e w h =
      let letter = dead_letter_for raw event 0 (reason_of e) in
      elim (bury-cases db broker letter event.event_type w) [
        | inl (done, sent, same) ↦ cc (
            rw
              (and_then-ok (bury db broker letter event.event_type w)
                (λ (u : ⊤). perform (count_event "db_error") >> pure ack) done)
              at h)
        | inr (x, failed, refused, same, log) ↦ cc (
            rw
              (and_then-err (bury db broker letter event.event_type w)
                (λ (u : ⊤). perform {Db = Db} (count_event "db_error") >> pure ack) failed)
              at h)
      ]

  rescue-requeued :
      (raw : String) (event : HandledEvent) (e : Thrown) (w : World Db)
      → (rescue db broker raw event e w).0 ≡ ok requeue
      → (is_non_recoverable_db_error e ≡ false)
        × (rescue db broker raw event e w
            ≡ (ok requeue, record w { log = w.log ++ count_event "requeued" ∷ [] }))
  unfolding rescue
  rescue-requeued raw event e w h = elim (Bool-cases (is_non_recoverable_db_error e)) [
    | inl final ↦ absurd (reject-ne-requeue raw event e w (rw final at h))
    | inr again ↦ rw again (refl, refl)
  ]

  -- What a delivery that is put back has left behind.
  abbrev pub Requeued : HandledEvent → Bool → (w w' : World Db) → Type 0
  Requeued event c w w' =
      ((e : Thrown) × ((process db handler max_attempts event c (record w {
        log = w.log ++ emit (stage_of event TelemetryStage.consuming EventStatus.received 0) ∷ [];
      })).0
          ≡ err e)
        × (is_non_recoverable_db_error e ≡ false))
      × (rows w'.db ≡ rows w.db)
      × (w'.log
          ≡ (w.log ++ emit (stage_of event TelemetryStage.consuming EventStatus.received 0) ∷ [])
            ++ count_event "requeued" ∷ [])

  consume_event-Requeued :
      (raw : String) (event : HandledEvent) (c : Bool) (w : World Db)
      → (consume_event db broker handler max_attempts raw event c w).0 ≡ ok requeue
      → Requeued event c w (consume_event db broker handler max_attempts raw event c w).1
  unfolding consume_event conclude
  consume_event-Requeued raw event c w h =
      let w₁ = consuming db broker handler max_attempts raw event c w in
      elim (process-cases db handler max_attempts event c w₁) [
        | inl (d, p) ↦ absurd (follow-ne-requeue db broker raw event d _ (rw p.result at h))
        | inr (e, q) ↦
            let (again, same) =
              rescue-requeued raw event e (process db handler max_attempts event c w₁).1
                (rw q.result at h) in
            ((e, q.result, again), rw (q.result, same) q.same, rw (q.result, same, q.log) refl)
      ]

  module _ (parse_json : String → Option Json) (uuid : String) (m : Delivery) where
    -- The event that the message stands for, if it has this id.
    abbrev pub event_in : String → HandledEvent
    event_in id = event_of id (correlation_of parse_json uuid m) (parse parse_json m.raw)

    -- A message with an event id is put back only after an error that is not final, and then no row
    -- has changed and nothing was published: its log is the first stage and the counter.
    pub handle-Requeued :
        (id : String) (w : World Db)
        → event_id_of (parse parse_json m.raw) ≡ some id
        → (handle db broker handler max_attempts parse_json uuid m w).0 ≡ ok requeue
        → Requeued
            (event_in id)
            (is_continuation m)
            w
            (handle db broker handler max_attempts parse_json uuid m w).1
    unfolding handle
    handle-Requeued id w e h =
        rw (e, consume)
          (consume_event-Requeued m.raw (event_in id) (is_continuation m) w (rw (e, consume) at h))

    abbrev pub unparseable_letter : DeadLetter
    unparseable_letter = dead_letter_unparseable m.raw (correlation_of parse_json uuid m)

    -- The end of such a delivery, by the broker's answer.
    abbrev pub buried : Result Thrown ⊤ → World Db → Result Thrown Verdict × World Db
    buried (ok u) w = (
      ok ack,
      record w {
        log =
            ((w.log ++ publish (dead_letter_publication unparseable_letter) ∷ [])
              ++ emit (dead_stage unparseable_letter "unknown") ∷ [])
            ++ count_event "unparseable" ∷ [];
      },
    )
    buried (err e) w = (
      err e,
      record w { log = w.log ++ publish (dead_letter_publication unparseable_letter) ∷ [] },
    )

    -- A message without an event id never reaches the processor: its dead letter is published, and if
    -- the broker confirms it the message is acknowledged, reported and counted; if the broker refuses
    -- it, the error comes through and nothing is reported or counted.
    pub handle-unparseable :
        (w : World Db)
        → event_id_of (parse parse_json m.raw) ≡ none
        → handle db broker handler max_attempts parse_json uuid m w
          ≡ buried (broker (dead_letter_publication unparseable_letter)) w
    unfolding handle consume_unparseable
    handle-unparseable w e =
        elim (Result-cases (broker (dead_letter_publication unparseable_letter))) [
          | inl (u, sent) ↦ rw (e, consume, sent, and_then) refl
          | inr (x, refused) ↦ rw (e, consume, refused, and_then) refl
        ]
