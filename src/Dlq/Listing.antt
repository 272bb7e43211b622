-- ===== src/Dlq/Listing.antt =====
-- `list` of src/dlq/dlq.controller.ts, and the query of src/dlq/dlq-query.dto.ts.
mod Paging
pub mod Laws
use async_webhook_ingestion.Prelude.{
  ⊤, ℕ, ◌-◌, ◌*◌, String, Bool, true, false, ◌&&◌, Option, none, some, List, Result, ok, err, leb,
  if◌then◌else◌,
}
use async_webhook_ingestion.Errors.{Thrown}
use async_webhook_ingestion.Events.{DlqMessage}
use async_webhook_ingestion.Events.Database.{Database, Order, desc}
use async_webhook_ingestion.Worker.{Action, pure, transaction, ◌>>=◌}

pub record DlqQuery : Type 0 where
  pub page : ℕ
  pub limit : ℕ

pub record DlqPage : Type 0 where
  pub letters : List DlqMessage  -- `data`
  pub page : ℕ
  pub limit : ℕ
  pub total : ℕ

-- What the framework does with the class: `natural` is `Number` of a text that reads as an integer from
-- 0, `none` for every other text, and `invalid` what the validation throws.
module _ (natural : String → Option ℕ) (invalid : Thrown) where
  abbrev pub bounded : ℕ → Option ℕ → Result Thrown ℕ
  bounded most none = err invalid
  bounded most (some n) = if leb 1 n && leb n most then ok n else err invalid

  abbrev pub at_least_one : Option ℕ → Result Thrown ℕ
  at_least_one none = err invalid
  at_least_one (some n) = if leb 1 n then ok n else err invalid

  abbrev pub page_of : Option String → Result Thrown ℕ
  page_of none = ok 1
  page_of (some text) = at_least_one (natural text)

  abbrev pub limit_of : Option String → Result Thrown ℕ
  limit_of none = ok 20
  limit_of (some text) = bounded 100 (natural text)

  abbrev query_of : Result Thrown ℕ → Result Thrown ℕ → Result Thrown DlqQuery
  query_of (ok page) (ok limit) = ok (record { page = page; limit = limit })
  query_of (ok page) (err e) = err e
  query_of (err e) limit = err e

  unfoldable pub dlq_query : (page limit : Option String) → Result Thrown DlqQuery
  dlq_query page limit = query_of (page_of page) (limit_of limit)

-- `{ createdAt: 'DESC' }`
abbrev pub newest_first : Order
newest_first = record { column = λ l. l.created_at; direction = desc }

module _ (db : Database) where
  abbrev pub page_of_letters : DlqQuery → List DlqMessage → ℕ → DlqPage
  page_of_letters query letters total = record {
    letters = letters;
    page = query.page;
    limit = query.limit;
    total = total;
  }

  -- `findAndCount` is two statements.
  unfoldable pub list : DlqQuery → Action db.Db DlqPage
  list query = do
    letters ←
        transaction db (db.page_letters newest_first ((query.page - 1) * query.limit) query.limit)
    total ← transaction db db.count_letters
    pure (page_of_letters query letters total)
