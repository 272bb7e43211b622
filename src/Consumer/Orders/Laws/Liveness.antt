-- ===== src/Consumer/Orders/Laws/Liveness.antt =====
-- A delivery is acknowledged whenever the database and the broker do their part.
use async_webhook_ingestion.Prelude.{
  ⊤, ℕ, ◌+◌, String, Bool, not, ◌&&◌, ◌||◌, ◌≡◌, refl, ap, ◌∙◌, inl, inr, Option, none, some,
  Result, ok, err, leb, Bool-cases, Option-cases, eq_refl,
}
use async_webhook_ingestion.Json.{Json}
use async_webhook_ingestion.Errors.{Thrown, is_permanent, reason_of}
use async_webhook_ingestion.Messaging.{Publication, Delivery}
use async_webhook_ingestion.Messaging.Tiers.{rung, retry_tier_for_attempt-rung}
use async_webhook_ingestion.Events.{Event, NewEvent, is_settled, is_failed}
use async_webhook_ingestion.Events.Database.{
  Database, Rows, Tx, insert_event_rows, new_row, and_then-eq-ok,
}
use async_webhook_ingestion.Events.Database
use async_webhook_ingestion.Worker.{World, transaction, pure, ◌>>◌}
use async_webhook_ingestion.Worker.Logs.{and_then-ok}
use async_webhook_ingestion.Consumer.Handler.{
  HandledEvent, OrderHandler, ProcessDecision, processed, duplicate, retry, dead,
}
use async_webhook_ingestion.Consumer.Claim.{
  claim_values, claim_and_handle, judge, judge_row, attempt_event, after_handler, drop_duplicate,
  start_attempt, finish, fail, note_failure, count_duplicate,
}
use async_webhook_ingestion.Consumer.Processor.{process, emit_decision}
use async_webhook_ingestion.Consumer.Messages.{
  dead_letter_for, dead_letter_publication, retry_publication, parse, event_id_of, event_of,
  correlation_of, is_continuation,
}
use async_webhook_ingestion.Consumer.Orders.Laws.Delivery.{consuming}
use async_webhook_ingestion.Consumer.Orders.{
  ack, bury, to_dead_letter, publish_retry, follow, conclude, consume_event, consume_unparseable,
  consume, handle,
}

-- A call that goes through.
abbrev pub GoesThrough : {Db A : Type 0} → Result Thrown (A × Db) → Type 0
GoesThrough {Db} {A} r = (a : A) × (d : Db) × (r ≡ ok (a, d))

-- A database whose statements on the events, and whose commits, succeed.
pub record Healthy (db : Database) : Type 0 where
  pub inserts : (e : NewEvent) (d : db.Db) → GoesThrough (db.insert_event e d)
  pub locks : (id : String) (d : db.Db) → GoesThrough (db.lock_event id d)
  pub updates : (id : String) (f : Event → Event) (d : db.Db) → GoesThrough (db.update_event id f d)
  pub commits : (d : db.Db) → GoesThrough (db.commit d)

there_after_insert :
    (e : NewEvent) (r : Rows)
    → (row : Event) × ((insert_event_rows e r).events e.event_id ≡ some row)
there_after_insert e r = elim (Option-cases (r.events e.event_id)) [
  | inl missing ↦ (new_row e, rw (missing, insert_event_rows) (rw (eq_refl e.event_id) refl))
  | inr (row, there) ↦ (row, rw (there, insert_event_rows) there)
]

module _ (db : Database) (healthy : Healthy db) where
  open db use {Db, rows}

  then-GoesThrough :
      {A B : Type 0} (r : Result Thrown (A × Db)) (f : A → Tx Db B)
      → GoesThrough r
      → ((a : A) (d : Db) → GoesThrough (f a d))
      → GoesThrough (Database.and_then r f)
  then-GoesThrough r f (a, d, went) k = let (b, d', ran) = k a d in (b, d', rw went ran)

  update_then :
      {B : Type 0} (id : String) (f : Event → Event) (b : B) (d : Db)
      → GoesThrough (Database.and_then (db.update_event id f d) (λ u d'. ok (b, d')))
  update_then id f b d =
      then-GoesThrough (db.update_event id f d) (λ u d'. ok (b, d')) (healthy.updates id f d)
        (λ u d'. (b, d', refl))

  module _ (handler : OrderHandler) (max_attempts : ℕ) (event : HandledEvent) where
    after_handler-GoesThrough :
        (attempts : ℕ) (r : Result Thrown ⊤) (d : Db)
        → GoesThrough (after_handler db handler max_attempts event attempts r d)
    unfolding after_handler
    after_handler-GoesThrough attempts (ok u) d =
        update_then event.event_id finish (processed attempts) d
    after_handler-GoesThrough attempts (err e) d =
        elim (Bool-cases (is_permanent e || leb max_attempts attempts)) [
          | inl final ↦
              rw final
                (update_then event.event_id (fail (reason_of e)) (dead attempts (reason_of e)) d)
          | inr again ↦
              rw again (update_then event.event_id (note_failure (reason_of e)) (retry attempts) d)
        ]

    judge_row-GoesThrough :
        (claimed c : Bool) (row : Event) (d : Db)
        → GoesThrough (judge_row db handler max_attempts event claimed c row d)
    unfolding judge_row drop_duplicate attempt_event
    judge_row-GoesThrough claimed c row d = elim (Bool-cases (is_settled row.status)) [
      | inl settled ↦
          rw settled (update_then event.event_id count_duplicate (duplicate row.attempts) d)
      | inr open_ ↦ elim (Bool-cases (is_failed row.status)) [
        | inl failed ↦ rw (open_, failed) (_, d, refl)
        | inr live ↦ elim (Bool-cases (not claimed && not c)) [
          | inl other ↦
              rw (open_, live, other)
                (update_then event.event_id count_duplicate (duplicate row.attempts) d)
          | inr own ↦
              rw (open_, live, own)
                (then-GoesThrough
                  (db.update_event event.event_id (start_attempt (row.attempts + 1)) d)
                  (λ u.
                    after_handler db handler max_attempts event (row.attempts + 1)
                      (handler event (row.attempts + 1)))
                  (healthy.updates event.event_id (start_attempt (row.attempts + 1)) d)
                  (λ u.
                    after_handler-GoesThrough (row.attempts + 1)
                      (handler event (row.attempts + 1))))
        ]
      ]
    ]

    claim_and_handle-GoesThrough :
        (c : Bool) (d : Db) → GoesThrough (claim_and_handle db handler max_attempts event c d)
    unfolding claim_and_handle judge
    claim_and_handle-GoesThrough c d =
        let values = claim_values event in
        let (claimed, d₁, inserted) = healthy.inserts values d in
        let (row, d₂, locked) = healthy.locks event.event_id d₁ in
        let (seen, kept) = db.lock_event_lem event.event_id d₁ locked in
        let (was, now) = db.insert_event_lem values d inserted in
        let (found, there) = there_after_insert values (rows d) in
        let is_there : row ≡ some found = seen ∙ ap (λ r. r.events event.event_id) now ∙ there in
        rw (inserted, locked, is_there) (judge_row-GoesThrough claimed c found d₂)

  transaction-ok :
      {A : Type 0} (m : Tx Db A) (w : World Db)
      → GoesThrough (m w.db)
      → (a : A) × ((transaction db m w).0 ≡ ok a)
  unfolding transaction
  transaction-ok m w (a, d, ran) = let (u, d', done) = healthy.commits d in (a, rw (ran, done) refl)

  process-ok :
      (handler : OrderHandler) (max_attempts : ℕ) (event : HandledEvent) (c : Bool) (w : World Db)
      → (d : ProcessDecision) × ((process db handler max_attempts event c w).0 ≡ ok d)
  unfolding process
  process-ok handler max_attempts event c w =
      let m = claim_and_handle db handler max_attempts event c in
      let (d, went) =
        transaction-ok m w (claim_and_handle-GoesThrough handler max_attempts event c w.db) in
      (
        d,
        rw (and_then-ok (transaction db m w) (λ d'. emit_decision event d' >> pure d') went)
            (emitted d (transaction db m w).1),
      )
    where
      emitted :
          (d : ProcessDecision) (w : World Db)
          → ((emit_decision {Db = Db} event d >> pure d) w).0 ≡ ok d
      emitted (processed n) w = refl
      emitted (duplicate n) w = refl
      emitted (retry n) w = refl
      emitted (dead n reason) w = refl

  module _ (broker : Publication → Result Thrown ⊤)
      (confirms : (p : Publication) → broker p ≡ ok tt) where
    follow-acks :
        (raw : String) (event : HandledEvent) (d : ProcessDecision) (w : World Db)
        → (follow db broker raw event d w).0 ≡ ok ack
    unfolding follow bury to_dead_letter publish_retry
    follow-acks raw event (processed n) w = refl
    follow-acks raw event (duplicate n) w = refl
    follow-acks raw event (retry n) w =
        rw (retry_tier_for_attempt-rung n, confirms (retry_publication event (rung n) n)) refl
    follow-acks raw event (dead n reason) w =
        rw (confirms (dead_letter_publication (dead_letter_for raw event n reason))) refl

    module _ (handler : OrderHandler) (max_attempts : ℕ) where
      consume-acks :
          (correlation_id : String) (parsed : Json) (m : Delivery) (id : Option String)
          (w : World Db)
          → (consume db broker handler max_attempts correlation_id parsed m id w).0 ≡ ok ack
      unfolding consume consume_unparseable consume_event conclude bury to_dead_letter
      consume-acks correlation_id parsed m none w = rw (confirms _) refl
      consume-acks correlation_id parsed m (some id) w =
          let event = event_of id correlation_id parsed in
          let (d, done) =
            process-ok handler max_attempts event (is_continuation m)
              (consuming db broker handler max_attempts m.raw event (is_continuation m) w) in
          rw done (follow-acks m.raw event d _)

      -- If the statements and the commits of the database succeed and the broker confirms what is
      -- published, every message is acknowledged, whatever it holds and however the handler ends.
      pub handle-acks :
          (parse_json : String → Option Json) (uuid : String) (m : Delivery) (w : World Db)
          → (handle db broker handler max_attempts parse_json uuid m w).0 ≡ ok ack
      unfolding handle
      handle-acks parse_json uuid m w =
          consume-acks (correlation_of parse_json uuid m) (parse parse_json m.raw) m
            (event_id_of (parse parse_json m.raw)) w
