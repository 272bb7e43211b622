-- ===== src/Dlq/Discard.antt =====
-- `discard` of src/dlq/dlq.controller.ts. The statement is a transaction of its own.
pub mod Laws
use async_webhook_ingestion.Prelude.{⊤, ℕ, zero, suc, String}
use async_webhook_ingestion.Errors.{Thrown, http_exception}
use async_webhook_ingestion.Events.Database.{Database}
use async_webhook_ingestion.Worker.{Action, pure, raise, transaction, ◌>>=◌}

abbrev pub unknown_error : Thrown
unknown_error = http_exception 404 "unknown dead letter"

module _ (db : Database) where
  -- By the number of rows affected.
  abbrev pub discarded : ℕ → Action db.Db ⊤
  discarded zero = raise unknown_error
  discarded (suc n) = pure tt

  unfoldable pub discard : (id : String) → Action db.Db ⊤
  discard id = do affected ← transaction db (db.delete_letter id); discarded affected
