-- ===== src/Dlq/Discard/Laws.antt =====
-- How discarding a dead letter ends.
use async_webhook_ingestion.Prelude.{
  ⊤, String, Bool, true, false, ◌≡◌, ◌≢◌, none, List, keep, ◌==◌, Result, ok, err, if◌then◌else◌,
}
use async_webhook_ingestion.Errors.{Thrown}
use async_webhook_ingestion.Events.{DlqMessage}
use async_webhook_ingestion.Events.Database.{Database, find_letter, delete_rows}
use async_webhook_ingestion.Worker.{World}
use async_webhook_ingestion.Dlq.Discard.{unknown_error}

abbrev same_id : String → DlqMessage → Bool
same_id id l = l.id == id

abbrev spared : String → List DlqMessage → List DlqMessage
spared id ls = keep (λ l. if l.id == id then false else true) ls

module _ (db : Database) (id : String) where
  open db use {Db, rows}

  pub data Ends (w : World Db) (out : Result Thrown ⊤ × World Db) : Type 0 where
    failed : (e : Thrown) → out.0 ≡ err e → rows out.1.db ≡ rows w.db → Ends w out
    unknown :
        out.0 ≡ err unknown_error
        → find_letter id (rows w.db).letters ≡ none
        → rows out.1.db ≡ rows w.db
        → Ends w out
    gone :
        out.0 ≡ ok tt
        → find_letter id (rows w.db).letters ≢ none
        → find_letter id (rows out.1.db).letters ≡ none
        → rows out.1.db ≡ delete_rows id (rows w.db)
        → Ends w out
