-- ===== src/Events/Database/Instance.antt =====
-- A database that meets the interface: the rows in memory. It refuses events of the type "unsavable"
-- as a final error and of the type "unlucky" as one worth a retry.
use async_webhook_ingestion.Prelude.{
  String, ◌≡◌, refl, Bool, some, List, [], ok, err, ◌==◌, if◌then◌else◌, is_none, keep, length,
  take, drop, ok-pair, Bool-cases, inl, inr, ◌∷◌,
}
use async_webhook_ingestion.Json.{str}
use async_webhook_ingestion.Errors.{query_failed, other_error}
use async_webhook_ingestion.Events.{DlqMessage, NewEvent}
use async_webhook_ingestion.Events.Database.Ordering.{arranged, arranged-Answers}
use async_webhook_ingestion.Events.Database.Defs.{
  Rows, Tx, Database, insert_event_rows, update_event_rows, insert_dead_letter_rows,
  dead_letter_row, find_letter, stamp_rows, delete_rows,
}

abbrev insert_in_memory : NewEvent → Tx Rows Bool
insert_in_memory e r =
    if e.event_type == "unsavable"
    then err (query_failed (some (str "22001")) "value too long")
    else if e.event_type == "unlucky"
    then err (other_error "connection terminated")
    else ok (is_none (r.events e.event_id), insert_event_rows e r)

pub insert_in_memory_lem :
    (e : NewEvent) (r : Rows) {claimed : Bool} {r' : Rows}
    → insert_in_memory e r ≡ ok (claimed, r')
    → (claimed ≡ is_none (r.events e.event_id)) × (r' ≡ insert_event_rows e r)
insert_in_memory_lem e r h = elim (Bool-cases (e.event_type == "unsavable")) [
  | inl final ↦ cc (rw final at h)
  | inr savable ↦ elim (Bool-cases (e.event_type == "unlucky")) [
    | inl unlucky ↦ cc (rw (savable, unlucky) at h)
    | inr lucky ↦ ok-pair (rw (savable, lucky) at h)
  ]
]

abbrev next_id : List DlqMessage → String
next_id [] = "letter-1"
next_id (l ∷ []) = "letter-2"
next_id (l ∷ k ∷ ls) = "letter-3"

abbrev pub in_memory : Database
in_memory = record {
  Db = Rows;
  rows = λ r. r;
  insert_event = insert_in_memory;
  lock_event = λ id r. ok (r.events id, r);
  update_event = λ id f r. ok (tt, update_event_rows id f r);
  new_letter_id = λ r. next_id r.letters;
  new_letter_at = λ r. length r.letters;
  insert_dead_letter = λ l r.
      ok (tt, insert_dead_letter_rows (dead_letter_row (next_id r.letters) (length r.letters) l) r);
  lock_letter = λ id r. ok (find_letter id r.letters, r);
  stamp_letter = λ id at r. ok (tt, stamp_rows id at r);
  delete_letter = λ id r. ok (length (keep (λ l. l.id == id) r.letters), delete_rows id r);
  page_letters = λ order skip limit r. ok (take limit (drop skip (arranged order r.letters)), r);
  count_letters = λ r. ok (length r.letters, r);
  commit = λ r. ok (tt, r);
  rollback = λ r. r;
  insert_event_lem = insert_in_memory_lem;
  lock_event_lem = λ id r h. ok-pair h;
  update_event_lem = λ id f r h. (ok-pair h).1;
  insert_dead_letter_lem = λ l r h. (ok-pair h).1;
  lock_letter_lem = λ id r h. ok-pair h;
  stamp_letter_lem = λ id at r h. (ok-pair h).1;
  delete_letter_lem = λ id r h. ok-pair h;
  page_letters_lem =
      λ order skip limit r h. ((_, arranged-Answers order r.letters, (ok-pair h).0), (ok-pair h).1);
  count_letters_lem = λ r h. ok-pair h;
  commit_lem = λ r h. (ok-pair h).1;
  rollback_lem = λ r. refl;
}
