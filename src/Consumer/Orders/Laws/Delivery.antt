-- ===== src/Consumer/Orders/Laws/Delivery.antt =====
-- A delivery with an event id: what is left behind, by how it ends.
use async_webhook_ingestion.Prelude.{
  ⊤, ℕ, String, Bool, true, ◌≡◌, refl, inl, inr, List, [], ◌∷◌, ◌++◌, Result, ok, Bool-cases,
}
use async_webhook_ingestion.Errors.{Thrown, reason_of, is_non_recoverable_db_error}
use async_webhook_ingestion.Messaging.{Publication}
use async_webhook_ingestion.Events.{EventStatus}
use async_webhook_ingestion.Telemetry.{TelemetryStage}
use async_webhook_ingestion.Events.Database.{Database}
use async_webhook_ingestion.Worker.{World, Action, Effect, emit, count_event, pure, perform, ◌>>◌}
use async_webhook_ingestion.Worker.Logs.{
  Extends, Extends-trans, Sent, Sent-after, Sent-before, Extends-three, and_then-ok, and_then-err,
}
use async_webhook_ingestion.Consumer.Handler.{
  HandledEvent, OrderHandler, ProcessDecision, processed, duplicate, retry, dead,
}
use async_webhook_ingestion.Consumer.Claim.Machine.{step}
use async_webhook_ingestion.Consumer.Claim.Refinement.{Settles}
use async_webhook_ingestion.Consumer.Processor.{process, stage_of}
use async_webhook_ingestion.Consumer.Processor.Laws.{process-cases}
use async_webhook_ingestion.Consumer.Messages.{DeadLetter, dead_letter_for, dead_letter_publication}
use async_webhook_ingestion.Consumer.Orders.{
  Verdict, ack, bury, reject, rescue, conclude, consume_event,
}
use async_webhook_ingestion.Consumer.Orders.Laws.Follow.{
  Followed, follow-db, follow-acked, bury-cases,
}

Followed-after :
    (broker : Publication → Result Thrown ⊤) (raw : String) (event : HandledEvent)
    (d : ProcessDecision) (l l₁ l₂ : List Effect)
    → Extends l l₁
    → Followed broker raw event d l₁ l₂
    → Followed broker raw event d l l₂
Followed-after broker raw event (processed n) l l₁ l₂ x f = tt
Followed-after broker raw event (duplicate n) l l₁ l₂ x f = tt
Followed-after broker raw event (retry n) l l₁ l₂ x (t, e, s) =
    (t, e, Sent-after broker _ l l₁ l₂ x s)
Followed-after broker raw event (dead n r) l l₁ l₂ x s = Sent-after broker _ l l₁ l₂ x s

module _ (db : Database) (broker : Publication → Result Thrown ⊤) (handler : OrderHandler)
    (max_attempts : ℕ) (raw : String) (event : HandledEvent) (c : Bool) where
  open db use {Db, rows}

  -- Why a delivery may be acknowledged.
  pub data Accounted (w w' : World Db) : Type 0 where
    settled :
        (d : ProcessDecision)
        → Settles event.event_id
            (rows w.db)
            (rows w'.db)
            d
            (step handler max_attempts event c ((rows w.db).events event.event_id))
        → Followed broker raw event d w.log w'.log
        → Accounted w w'
    rejected :
        (e : Thrown)
        → is_non_recoverable_db_error e ≡ true
        → rows w'.db ≡ rows w.db
        → Sent broker
            (dead_letter_publication (dead_letter_for raw event 0 (reason_of e)))
            w.log
            w'.log
        → Accounted w w'

  abbrev pub consuming : World Db → World Db
  consuming w = record w {
    log = w.log ++ emit (stage_of event TelemetryStage.consuming EventStatus.received 0) ∷ [];
  }

  abbrev processing : World Db → World Db
  processing w = (process db handler max_attempts event c (consuming w)).1

  abbrev letter : Thrown → DeadLetter
  letter e = dead_letter_for raw event 0 (reason_of e)

  abbrev buried : Thrown → World Db → Result Thrown ⊤ × World Db
  buried e w = bury db broker (letter e) event.event_type w

  abbrev count_and_ack : ⊤ → Action Db Verdict
  count_and_ack u = perform (count_event "db_error") >> pure ack

  reject-acked :
      (e : Thrown) (w : World Db)
      → (reject db broker raw event e w).0 ≡ ok ack
      → ((reject db broker raw event e w).1.db ≡ w.db)
        × Sent broker
            (dead_letter_publication (letter e))
            w.log
            (reject db broker raw event e w).1.log
  unfolding reject
  reject-acked e w h = elim (bury-cases db broker (letter e) event.event_type w) [
    | inl (done, sent, same) ↦ rw (and_then-ok (buried e w) count_and_ack done) (
      same,
      Sent-before broker (dead_letter_publication (letter e)) w.log _ (count_event "db_error") sent,
    )
    | inr (x, failed, refused, same, log) ↦
        cc (rw (and_then-err (buried e w) count_and_ack failed) at h)
  ]

  rescue-acked :
      (e : Thrown) (w : World Db)
      → (rescue db broker raw event e w).0 ≡ ok ack
      → (is_non_recoverable_db_error e ≡ true)
        × ((rescue db broker raw event e w).1.db ≡ w.db)
        × Sent broker
            (dead_letter_publication (letter e))
            w.log
            (rescue db broker raw event e w).1.log
  unfolding rescue
  rescue-acked e w h = elim (Bool-cases (is_non_recoverable_db_error e)) [
    | inl final ↦
        rw final (let (same, sent) = reject-acked e w (rw final at h) in (refl, same, sent))
    | inr again ↦ cc (rw again at h)
  ]

  conclude-acked :
      (d : ProcessDecision) (w : World Db)
      → (conclude db broker raw event (ok d) w).0 ≡ ok ack
      → ((conclude db broker raw event (ok d) w).1.db ≡ w.db)
        × Followed broker raw event d w.log (conclude db broker raw event (ok d) w).1.log
  unfolding conclude
  conclude-acked d w h = (
    follow-db db broker raw event d _,
    Followed-after broker raw event d w.log _ _ (Extends-three w.log _ _ _)
        (follow-acked db broker raw event d _ h),
  )

  -- Acknowledged: either the processor decided, as the state machine says, and the decision's message
  -- is confirmed, or the database refused the event for good and its dead letter is confirmed.
  pub consume_event-acked :
      (w : World Db)
      → (consume_event db broker handler max_attempts raw event c w).0 ≡ ok ack
      → Accounted w (consume_event db broker handler max_attempts raw event c w).1
  unfolding consume_event
  consume_event-acked w h = elim (process-cases db handler max_attempts event c (consuming w)) [
    | inl (d, p) ↦
        let (same, followed) = conclude-acked d (processing w) (rw p.result at h) in
        rw p.result (
          settled d (rw same p.settled) (
            Followed-after broker raw event d w.log _ _ (Extends-trans w.log _ _ (_, refl) p.log)
              followed))
    | inr (e, q) ↦
        let (final, same, sent) = rescue-acked e (processing w) (rw q.result at h) in
        rw q.result
          (rejected e final (rw same q.same) (Sent-after broker _ w.log _ _ (_, q.log) sent))
  ]
