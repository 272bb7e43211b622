-- ===== src/Consumer/Processor/Laws.antt =====
-- What `process` leaves behind: the state machine's step, or every row as it was.
use mathlib.Core.List.{append-nil}
use async_webhook_ingestion.Prelude.{ℕ, Bool, ◌≡◌, subst, refl, sym, ◌⊎◌, inl, inr, [], ok, err}
use async_webhook_ingestion.Errors.{Thrown}
use async_webhook_ingestion.Events.Database.{Database, Tx}
use async_webhook_ingestion.Worker.{World, Action, transaction, ◌>>◌, pure}
use async_webhook_ingestion.Worker.Logs.{Extends, and_then-ok, and_then-err}
use async_webhook_ingestion.Worker.Transactions.{transaction-cases}
use async_webhook_ingestion.Consumer.Handler.{
  HandledEvent, OrderHandler, ProcessDecision, processed, duplicate, retry, dead,
}
use async_webhook_ingestion.Consumer.Claim.{claim_and_handle}
use async_webhook_ingestion.Consumer.Claim.Machine.{step}
use async_webhook_ingestion.Consumer.Claim.Refinement.{Settles, claim_and_handle-Settles}
use async_webhook_ingestion.Consumer.Processor.{process, emit_decision}

module _ (db : Database) (handler : OrderHandler) (max_attempts : ℕ) (event : HandledEvent)
    (c : Bool) where
  open db use {Db, rows}

  abbrev run : World Db → World Db
  run w = (process db handler max_attempts event c w).1

  pub record Processed (w : World Db) (decision : ProcessDecision) : Type 0 where
    pub result : (process db handler max_attempts event c w).0 ≡ ok decision
    pub settled :
        Settles event.event_id
          (rows w.db)
          (rows (process db handler max_attempts event c w).1.db)
          decision
          (step handler max_attempts event c ((rows w.db).events event.event_id))
    pub log : Extends w.log (process db handler max_attempts event c w).1.log

  pub record NotProcessed (w : World Db) (e : Thrown) : Type 0 where
    pub result : (process db handler max_attempts event c w).0 ≡ err e
    pub same : rows (process db handler max_attempts event c w).1.db ≡ rows w.db
    pub log : (process db handler max_attempts event c w).1.log ≡ w.log

  emit_then :
      (d : ProcessDecision) (w : World Db)
      → let out = (emit_decision {Db = Db} event d >> pure d) w in
        (out.0 ≡ ok d) × (out.1.db ≡ w.db) × Extends w.log out.1.log
  emit_then (processed n) w = (refl, refl, (_, refl))
  emit_then (duplicate n) w = (refl, refl, (_, refl))
  emit_then (retry n) w = (refl, refl, (_, refl))
  emit_then (dead n r) w = (refl, refl, ([], sym (append-nil _)))

  abbrev claim : Tx Db ProcessDecision
  claim = claim_and_handle db handler max_attempts event c

  abbrev finish : ProcessDecision → Action Db ProcessDecision
  finish d = emit_decision event d >> pure d

  pub process-cases :
      (w : World Db) → ((d : ProcessDecision) × Processed w d) ⊎ ((e : Thrown) × NotProcessed w e)
  unfolding process
  process-cases w = elim (transaction-cases db claim w) [
    | inl (d, went, done) ↦
        let e = and_then-ok (transaction db claim w) finish went in
        let (result, stored, log) = emit_then d (transaction db claim w).1 in
        inl (
          d,
          record {
            result = rw e result;
            settled =
                rw (e, stored, done.stored)
                  (claim_and_handle-Settles db handler max_attempts event c w.db done.ran);
            log =
                rw e
                  (subst (λ l. Extends l (finish d (transaction db claim w).1).1.log) done.log log);
          },
        )
    | inr (x, failed, undone) ↦
        let e = and_then-err (transaction db claim w) finish failed in
        inr (x, record { result = rw e refl; same = rw e undone.same; log = rw e undone.log })
  ]
