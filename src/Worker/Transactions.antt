-- ===== src/Worker/Transactions.antt =====
-- A transaction commits what its calls did, or leaves every row as it was.
use async_webhook_ingestion.Prelude.{◌≡◌, refl, ◌⊎◌, inl, inr, ok, err, Result-cases}
use async_webhook_ingestion.Errors.{Thrown}
use async_webhook_ingestion.Events.Database.{Database, Tx}
use async_webhook_ingestion.Worker.{World, transaction}

module _ (db : Database) where
  open db use {Db, rows}

  pub record RolledBack (w w' : World Db) : Type 0 where
    pub same : rows w'.db ≡ rows w.db
    pub log : w'.log ≡ w.log

  module _ {A : Type 0} where
    -- A transaction that went through: its result and what its calls left behind.
    pub record Committed (m : Tx Db A) (w w' : World Db) (a : A) : Type 0 where
      pub after : Db
      pub ran : m w.db ≡ ok (a, after)
      pub stored : rows w'.db ≡ rows after
      pub log : w'.log ≡ w.log

    pub transaction-cases :
        (m : Tx Db A) (w : World Db)
        → ((a : A) × ((transaction db m w).0 ≡ ok a) × Committed m w (transaction db m w).1 a)
          ⊎ ((e : Thrown) × ((transaction db m w).0 ≡ err e) × RolledBack w (transaction db m w).1)
    unfolding transaction
    transaction-cases m w = elim (Result-cases (m w.db)) [
      | inl ((a, after), ran) ↦ elim (Result-cases (db.commit after)) [
        | inl ((u, d'), done) ↦ inl (
          a,
          rw (ran, done) refl,
          record {
            after = after;
            ran = ran;
            stored = rw (ran, done) (db.commit_lem after done);
            log = refl;
          },
        )
        | inr (e, failed) ↦ inr (
          e,
          rw (ran, failed) refl,
          record { same = rw (ran, failed) (db.rollback_lem w.db); log = refl },
        )
      ]
      | inr (e, failed) ↦
          inr (e, rw failed refl, record { same = rw failed (db.rollback_lem w.db); log = refl })
    ]
