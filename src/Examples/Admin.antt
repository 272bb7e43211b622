-- ===== src/Examples/Admin.antt =====
-- Listing and discarding dead letters, on concrete rows.
use async_webhook_ingestion.Prelude.{
  ℕ, ◌*◌, String, ◌≡◌, refl, Option, none, some, [], ◌∷◌, arith, ok, take, drop,
}
use async_webhook_ingestion.Errors.{http_exception}
use async_webhook_ingestion.Events.{DlqMessage, EventStatus}
use async_webhook_ingestion.Events.Database.{Rows, in_memory}
use async_webhook_ingestion.Dlq.Listing.{dlq_query}
use async_webhook_ingestion.Dlq.Listing.Laws.{Reads, list_pages, list_pages-Reads}
use async_webhook_ingestion.Examples.{world, one_letter, letter}

abbrev named : String → ℕ → DlqMessage
named id at = record letter { id = id; created_at = at }

abbrev three_letters : Rows
three_letters = record (one_letter EventStatus.failed) {
  letters = named "letter-3" 9 ∷ named "letter-2" 5 ∷ letter ∷ [];
}

list_pages-Reads_example :
    Reads in_memory
      (world three_letters)
      (take (2 * 2) (drop (0 * 2) three_letters.letters))
      (list_pages in_memory 2 1 2 (world three_letters))
list_pages-Reads_example =
    list_pages-Reads in_memory 2 0 2 (world three_letters)
      ((omega arith, (omega arith, tt)), ((omega arith, tt), (tt, tt)))

abbrev natural : String → Option ℕ
natural text = some 7

page_seven :
    dlq_query natural (http_exception 400 "bad") (some "7") none
    ≡ ok (record { page = 7; limit = 20 })
unfolding dlq_query
page_seven = refl
