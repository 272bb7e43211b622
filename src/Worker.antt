-- ===== src/Worker.antt =====
-- What the worker's code runs in: a database and the log of its effects on the broker, the telemetry
-- feed and the metrics, with thrown errors. Log lines are not modelled.
pub mod Logs
pub mod Transactions
use async_webhook_ingestion.Prelude.{⊤, ℕ, String, ◌≡◌, refl, List, [], ◌∷◌, ◌++◌, Result, ok, err}
use async_webhook_ingestion.Errors.{Thrown}
use async_webhook_ingestion.Events.Database.{Database, Tx, Rows}
use async_webhook_ingestion.Messaging.{Publication}
use async_webhook_ingestion.Telemetry.{TelemetryStageInput}

pub data Effect : Type 0 where
  publish : Publication → Effect  -- handed to the broker, which may yet refuse it
  emit : TelemetryStageInput → Effect
  count_event : (outcome : String) → Effect
  observe_duration : Effect
  count_dead_letter : Effect

pub record World (Db : Type 0) : Type 0 where
  pub db : Db
  pub log : List Effect

abbrev pub Action : Type 0 → Type 0 → Type 0
Action Db A = World Db → Result Thrown A × World Db

module _ {Db A : Type 0} where
  abbrev pub pure : A → Action Db A
  pure a w = (ok a, w)

  abbrev pub raise : Thrown → Action Db A
  raise e w = (err e, w)

  -- `try { m } catch (e) { … }`: the body's outcome as a value.
  abbrev pub attempt : Action Db A → Action Db (Result Thrown A)
  attempt m w = (ok (m w).0, (m w).1)

module _ {Db : Type 0} where
  abbrev pub perform : Effect → Action Db ⊤
  perform e w = (ok tt, record w { log = w.log ++ e ∷ [] })

  -- `await amqp.publish(…)` with publisher confirms: it resolves or rejects as the broker says.
  abbrev pub publish_confirmed : (Publication → Result Thrown ⊤) → Publication → Action Db ⊤
  publish_confirmed broker p w = (broker p, record w { log = w.log ++ publish p ∷ [] })

abbrev pub and_then :
    {Db A B : Type 0} → Result Thrown A × World Db → (A → Action Db B) → Result Thrown B × World Db
and_then (ok a, w) f = f a w
and_then (err e, w) f = (err e, w)

infixl 5 ◌>>=◌ ◌>>◌
abbrev pub ◌>>=◌ : {Db A B : Type 0} → Action Db A → (A → Action Db B) → Action Db B
◌>>=◌ m f w = and_then (m w) f

abbrev pub ◌>>◌ : {Db B : Type 0} → Action Db ⊤ → Action Db B → Action Db B
m >> k = m >>= λ _. k

-- `dataSource.transaction(m)`: a call that throws, or a commit that fails, rolls back and rethrows.
module _ (db : Database) where
  abbrev pub commit_result :
      {A : Type 0} → db.Db → A → Result Thrown (⊤ × db.Db) → Result Thrown A × db.Db
  commit_result before a (ok (u, after)) = (ok a, after)
  commit_result before a (err e) = (err e, db.rollback before)

  abbrev pub transaction_result :
      {A : Type 0} → db.Db → Result Thrown (A × db.Db) → Result Thrown A × db.Db
  transaction_result before (ok (a, after)) = commit_result before a (db.commit after)
  transaction_result before (err e) = (err e, db.rollback before)

  unfoldable pub transaction : {A : Type 0} → Tx db.Db A → Action db.Db A
  transaction m w =
      let (r, after) = transaction_result w.db (m w.db) in (r, record w { db = after })
