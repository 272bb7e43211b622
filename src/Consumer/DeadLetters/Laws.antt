-- ===== src/Consumer/DeadLetters/Laws.antt =====
-- A dead letter is recorded together with its event's status, or not at all.
use async_webhook_ingestion.Prelude.{
  ok-pair, ⊤, String, ◌≡◌, ◌≢◌, refl, ◌∙◌, ap, Option, none, some, Result, ok, err, [], ◌∷◌, ◌++◌,
  inl, inr,
}
use async_webhook_ingestion.Json.{Json, null, bool, num, str, arr, obj}
use async_webhook_ingestion.Errors.{Thrown}
use async_webhook_ingestion.Messaging.{Delivery}
use async_webhook_ingestion.Events.{NewDeadLetter, DlqMessage}
use async_webhook_ingestion.Events.Database
use async_webhook_ingestion.Events.Database.{
  Database, Rows, Tx, insert_dead_letter_rows, update_event_rows, dead_letter_row, has_message_id,
  set_event,
}
use async_webhook_ingestion.Worker.{World, count_dead_letter}
use async_webhook_ingestion.Worker.Transactions.{transaction-cases}
use async_webhook_ingestion.Consumer.Orders.{Verdict, ack, requeue}
use async_webhook_ingestion.Consumer.DeadLetters.{
  parse_dead, letter_values, mark_dead, mark_event, record_letter, persist, persist_body, handle,
  conclude_letter,
}

-- The event of a letter, if it names one, becomes dead.
abbrev pub mark_rows : Option String → Rows → Rows
mark_rows none r = r
mark_rows (some id) r = update_event_rows id mark_dead r

-- Recording a letter: the row is inserted unless its message id is there, and the event is marked in
-- either case.
abbrev pub letter_rows : DlqMessage → Rows → Rows
letter_rows l r = mark_rows l.event_id (insert_dead_letter_rows l r)

module _ (db : Database) where
  open db use {Db, rows}

  -- The row that the database makes of the values.
  abbrev pub row_of : Db → NewDeadLetter → DlqMessage
  row_of d values = dead_letter_row (db.new_letter_id d) (db.new_letter_at d) values

  mark_event-rows :
      (o : Option String) (d : Db) {u : ⊤} {d' : Db}
      → mark_event db o d ≡ ok (u, d')
      → rows d' ≡ mark_rows o (rows d)
  mark_event-rows none d h = let (a, b) = ok-pair h in ap rows b
  mark_event-rows (some id) d h = db.update_event_lem id mark_dead d h

  record_letter-rows :
      (values : NewDeadLetter) (d : Db) {u : ⊤} {d' : Db}
      → record_letter db values d ≡ ok (u, d')
      → rows d' ≡ letter_rows (row_of d values) (rows d)
  unfolding record_letter
  record_letter-rows values d h =
      let (a, d₁, inserted, marked) =
        Database.and_then-eq-ok (db.insert_dead_letter values d)
          (λ _. mark_event db values.event_id) h in
      mark_event-rows values.event_id d₁ marked
      ∙ ap (mark_rows values.event_id) (db.insert_dead_letter_lem values d inserted)

  -- How the handling of a dead letter ends.
  pub data Ends (letter : Json) (m : Delivery) (w : World Db)
      (out : Result Thrown Verdict × World Db) : Type 0 where
    recorded :
        letter ≢ null
        → out.0 ≡ ok ack
        → rows out.1.db ≡ letter_rows (row_of w.db (letter_values letter m)) (rows w.db)
        → out.1.log ≡ w.log ++ count_dead_letter ∷ []
        → Ends letter m w out
    put_back :
        letter ≢ null
        → out.0 ≡ ok requeue
        → rows out.1.db ≡ rows w.db
        → out.1.log ≡ w.log
        → Ends letter m w out
    crashed : letter ≡ null → (e : Thrown) → out ≡ (err e, w) → Ends letter m w out

  persist-Ends :
      (letter : Json) (m : Delivery) (w : World Db)
      → letter ≢ null
      → Ends letter m w (persist db (letter_values letter m) w)
  unfolding persist
  persist-Ends letter m w here =
      let values = letter_values letter m in
      elim (transaction-cases db (record_letter db values) w) [
        | inl (u, went, done) ↦
            recorded here (rw (went, conclude_letter) refl)
              (rw (went, conclude_letter) (done.stored ∙ record_letter-rows values w.db done.ran))
              (rw (went, conclude_letter, done.log) refl)
        | inr (e, failed, undone) ↦
            put_back here (rw (failed, conclude_letter) refl)
              (rw (failed, conclude_letter) undone.same) (rw (failed, conclude_letter) undone.log)
      ]

  persist_body-Ends :
      (letter : Json) (m : Delivery) (w : World Db) → Ends letter m w (persist_body db letter m w)
  unfolding persist_body
  persist_body-Ends null m w = crashed refl _ refl
  persist_body-Ends (bool b) m w = persist-Ends (bool b) m w (cc)
  persist_body-Ends (num b) m w = persist-Ends (num b) m w (cc)
  persist_body-Ends (str b) m w = persist-Ends (str b) m w (cc)
  persist_body-Ends (arr b) m w = persist-Ends (arr b) m w (cc)
  persist_body-Ends (obj b) m w = persist-Ends (obj b) m w (cc)

  -- Handling a dead letter ends in one of three ways. It is acknowledged, and then its row is in the
  -- table, inserted unless its message id was, its event is dead, and it is counted; or it is put
  -- back, and then no row has changed; or its body is the JSON text `null`, and then an error leaves
  -- the handler, and nothing has happened.
  pub handle-Ends :
      (parse_json : String → Option Json) (m : Delivery) (w : World Db)
      → Ends (parse_dead parse_json m.raw) m w (handle db parse_json m w)
  unfolding handle
  handle-Ends parse_json m w = persist_body-Ends (parse_dead parse_json m.raw) m w
