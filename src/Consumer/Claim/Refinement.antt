-- ===== src/Consumer/Claim/Refinement.antt =====
-- The transaction implements the state machine.
use async_webhook_ingestion.Prelude.{
  ⊤, ℕ, ◌+◌, String, ◌≡◌, refl, sym, ◌∙◌, ap, Bool, true, false, Option, none, some, Result, ok,
  err, ◌==◌, eq_refl, Option-cases, Bool-cases, inl, inr, leb, get_or, ◌||◌, is_none, ok-pair,
}
use async_webhook_ingestion.Errors.{Thrown, reason_of, is_permanent}
use async_webhook_ingestion.Events.{Event, EventStatus, NewEvent}
use async_webhook_ingestion.Events.Database.{
  Database, Rows, set_event, update_event_rows, insert_event_rows, and_then-eq-ok, and_then,
  new_row, return,
}
use async_webhook_ingestion.Consumer.Handler.{
  HandledEvent, OrderHandler, ProcessDecision, processed, duplicate, retry, dead,
}
use async_webhook_ingestion.Consumer.Claim.{
  claim_values, count_duplicate, start_attempt, fail, note_failure, finish, after_handler,
  attempt_event, drop_duplicate, judge_row, judge, claim_and_handle,
}
use async_webhook_ingestion.Consumer.Claim.Machine.{
  attempt, repeat, step_row, step, ending, end_attempt,
}

-- The row of the event is the one given, and no other row has changed.
pub record Stores (id : String) (r r' : Rows) (row : Event) : Type 0 where
  pub stored : r'.events id ≡ some row
  pub others : (k : String) → (k == id) ≡ false → r'.events k ≡ r.events k
  pub letters : r'.letters ≡ r.letters

set_event-Stores :
    (id : String) (r : Rows) (row : Event) → Stores id r (set_event id (some row) r) row
set_event-Stores id r row = record {
  stored = rw (eq_refl id) refl;
  others = λ k h. rw h refl;
  letters = refl;
}

Stores-trans :
    {id : String} {r r₁ r₂ : Rows} {a b : Event}
    → Stores id r r₁ a
    → Stores id r₁ r₂ b
    → Stores id r r₂ b
Stores-trans s t = record {
  stored = t.stored;
  others = λ k h. t.others k h ∙ s.others k h;
  letters = t.letters ∙ s.letters;
}

update_event_rows-Stores :
    (id : String) (f : Event → Event) (r : Rows) {row : Event}
    → r.events id ≡ some row
    → Stores id r (update_event_rows id f r) (f row)
update_event_rows-Stores id f r {row} there =
    rw (there, update_event_rows) (set_event-Stores id r (f row))

insert_event_rows-Stores :
    (e : NewEvent) (r : Rows)
    → Stores e.event_id r (insert_event_rows e r) (get_or (r.events e.event_id) (new_row e))
insert_event_rows-Stores e r = elim (Option-cases (r.events e.event_id)) [
  | inl fresh ↦ rw (fresh, insert_event_rows) (set_event-Stores e.event_id r (new_row e))
  | inr (row, there) ↦
      rw (there, insert_event_rows)
        (record { stored = there; others = λ k h. refl; letters = refl })
]

-- A decision and a row, both as given.
abbrev pub Settles : String → (r r' : Rows) → ProcessDecision → ProcessDecision × Event → Type 0
Settles id r r' d out = (d ≡ out.0) × Stores id r r' out.1

Settles-after :
    {id : String} {r r₁ r₂ : Rows} {a : Event} {d : ProcessDecision} {out : ProcessDecision × Event}
    → Stores id r r₁ a
    → Settles id r₁ r₂ d out
    → Settles id r r₂ d out
Settles-after s (same, t) = (same, Stores-trans s t)

module _ (db : Database) (handler : OrderHandler) (max_attempts : ℕ) (event : HandledEvent) where
  open db use {Db, rows, insert_event, lock_event, update_event}

  update-Stores :
      (f : Event → Event) (d : Db) {row : Event} {u : ⊤} {d' : Db}
      → (rows d).events event.event_id ≡ some row
      → update_event event.event_id f d ≡ ok (u, d')
      → Stores event.event_id (rows d) (rows d') (f row)
  update-Stores f d there h =
      rw (db.update_event_lem event.event_id f d h)
        (update_event_rows-Stores event.event_id f (rows d) there)

  -- One update, and then the decision.
  update_return-Settles :
      (f : Event → Event) (e : ProcessDecision) (d : Db) {row : Event} {x : ProcessDecision}
      {d' : Db}
      → (rows d).events event.event_id ≡ some row
      → and_then (update_event event.event_id f d) (λ _. return e) ≡ ok (x, d')
      → Settles event.event_id (rows d) (rows d') x (e, f row)
  update_return-Settles f e d there h =
      let (u, d₁, updated, returned) =
        and_then-eq-ok (update_event event.event_id f d) (λ _. return e) h in
      let (same, at) = ok-pair returned in (same, rw at (update-Stores f d there updated))

  after_handler-Settles :
      (n : ℕ) (r : Result Thrown ⊤) (row : Event) (d : Db) {x : ProcessDecision} {d' : Db}
      → (rows d).events event.event_id ≡ some (start_attempt n row)
      → after_handler db handler max_attempts event n r d ≡ ok (x, d')
      → Settles event.event_id (rows d) (rows d') x (end_attempt n row (ending max_attempts n r))
  unfolding after_handler
  after_handler-Settles n (ok u) row d there h =
      update_return-Settles finish (processed n) d there h
  after_handler-Settles n (err e) row d there h =
      elim (Bool-cases (is_permanent e || leb max_attempts n)) [
        | inl final ↦ rw final (
            update_return-Settles (fail (reason_of e)) (dead n (reason_of e)) d there
              (rw final at h))
        | inr again ↦
            rw again
              (update_return-Settles (note_failure (reason_of e)) (retry n) d there (rw again at h))
      ]

  attempt_event-Settles :
      (row : Event) (d : Db) {x : ProcessDecision} {d' : Db}
      → (rows d).events event.event_id ≡ some row
      → attempt_event db handler max_attempts event row d ≡ ok (x, d')
      → Settles event.event_id (rows d) (rows d') x (attempt handler max_attempts event row)
  unfolding attempt_event
  attempt_event-Settles row d there h =
      let n : ℕ = row.attempts + 1 in
      let (u, d₁, started, rest) =
        and_then-eq-ok (update_event event.event_id (start_attempt n) d)
          (λ _. after_handler db handler max_attempts event n (handler event n)) h in
      let s = update-Stores (start_attempt n) d there started in
      Settles-after s (after_handler-Settles n (handler event n) row d₁ s.stored rest)

  drop_duplicate-Settles :
      (row : Event) (d : Db) {x : ProcessDecision} {d' : Db}
      → (rows d).events event.event_id ≡ some row
      → drop_duplicate db handler max_attempts event row d ≡ ok (x, d')
      → Settles event.event_id (rows d) (rows d') x (repeat handler max_attempts event row)
  unfolding drop_duplicate
  drop_duplicate-Settles row d there h =
      update_return-Settles count_duplicate (duplicate row.attempts) d there h

  return-Settles :
      (e : ProcessDecision) (row : Event) (d : Db) {x : ProcessDecision} {d' : Db}
      → (rows d).events event.event_id ≡ some row
      → return {Db = Db} e d ≡ ok (x, d')
      → Settles event.event_id (rows d) (rows d') x (e, row)
  return-Settles e row d there h =
      let (same, at) = ok-pair h in
      (same, rw at (record { stored = there; others = λ k p. refl; letters = refl }))

  -- A row that the claim found, by its status.
  judge_row-Settles :
      (s : EventStatus) (c : Bool) (row : Event) (d : Db) {x : ProcessDecision} {d' : Db}
      → row.status ≡ s
      → (rows d).events event.event_id ≡ some row
      → judge_row db handler max_attempts event false c row d ≡ ok (x, d')
      → Settles event.event_id (rows d) (rows d') x (step_row handler max_attempts event s c row)
  unfolding judge_row
  judge_row-Settles EventStatus.processed c row d e there h =
      drop_duplicate-Settles row d there (rw e at h)
  judge_row-Settles EventStatus.dead c row d e there h =
      drop_duplicate-Settles row d there (rw e at h)
  judge_row-Settles EventStatus.failed c row d e there h =
      return-Settles (dead row.attempts (get_or row.failure_reason "previously failed")) row d there
        (rw e at h)
  judge_row-Settles EventStatus.received false row d e there h =
      drop_duplicate-Settles row d there (rw e at h)
  judge_row-Settles EventStatus.received true row d e there h =
      attempt_event-Settles row d there (rw e at h)
  judge_row-Settles EventStatus.processing false row d e there h =
      drop_duplicate-Settles row d there (rw e at h)
  judge_row-Settles EventStatus.processing true row d e there h =
      attempt_event-Settles row d there (rw e at h)

  -- The row as the claim left it.
  judge-Settles :
      (old : Option Event) (c : Bool) (d : Db) {x : ProcessDecision} {d' : Db}
      → (rows d).events event.event_id ≡ some (get_or old (new_row (claim_values event)))
      → judge db handler max_attempts event
          (is_none old)
          c
          (some (get_or old (new_row (claim_values event))))
          d
        ≡ ok (x, d')
      → Settles event.event_id (rows d) (rows d') x (step handler max_attempts event c old)
  unfolding judge step
  judge-Settles none c d there h = unfold judge_row in attempt_event-Settles _ d there h
  judge-Settles (some row) c d there h = judge_row-Settles row.status c row d refl there h

  -- If the transaction goes through, it has decided and stored what the state machine says of the
  -- row that it found, and has changed no other event and no dead letter.
  pub claim_and_handle-Settles :
      (c : Bool) (d : Db) {x : ProcessDecision} {d' : Db}
      → claim_and_handle db handler max_attempts event c d ≡ ok (x, d')
      → Settles event.event_id
          (rows d)
          (rows d')
          x
          (step handler max_attempts event c ((rows d).events event.event_id))
  unfolding claim_and_handle
  claim_and_handle-Settles c d {x} {d'} h =
      let e : NewEvent = claim_values event in
      let (claimed, d₁, inserted, h₁) = and_then-eq-ok (insert_event e d) _ h in
      let (row, d₂, locked, h₂) = and_then-eq-ok (lock_event event.event_id d₁) _ h₁ in
      let (was_new, rows₁) = db.insert_event_lem e d inserted in
      let (found, rows₂) = db.lock_event_lem event.event_id d₁ locked in
      let s : Stores event.event_id (rows d) (rows d₂)
          (get_or ((rows d).events event.event_id) (new_row e)) =
        rw (rows₂, rows₁) (insert_event_rows-Stores e (rows d)) in
      let same : row ≡ some (get_or ((rows d).events event.event_id) (new_row e)) =
        found ∙ ap (λ r. r.events event.event_id) (sym rows₂) ∙ s.stored in
      Settles-after s
        (judge-Settles ((rows d).events event.event_id) c d₂ s.stored (rw (was_new, same) at h₂))
