-- ===== src/Consumer/DeadLetters/Redelivery.antt =====
-- A dead letter that is delivered again changes nothing.
use async_webhook_ingestion.Prelude.{
  String, ◌≡◌, refl, sym, ◌∙◌, ap, fun_ext, Option, none, some, inl, inr, true, Bool-cases, ◌==◌,
  Option-cases, eq_refl,
}
use async_webhook_ingestion.Events.{Event, DlqMessage}
use async_webhook_ingestion.Events.Database.{
  Rows, insert_dead_letter_rows, update_event_rows, has_message_id, set_event,
}
use async_webhook_ingestion.Consumer.DeadLetters.{mark_dead}
use async_webhook_ingestion.Consumer.DeadLetters.Laws.{mark_rows, letter_rows}

set_event_twice :
    (id : String) (row : Event) (r : Rows)
    → set_event id (some row) (set_event id (some row) r) ≡ set_event id (some row) r
set_event_twice id row r =
    ap (λ (f : String → Option Event). record r { events = f })
      (fun_ext
        λ k. elim (Bool-cases (k == id)) [ inl same ↦ rw same refl | inr other ↦ rw other refl ])

mark_found :
    (id : String) (row : Event) (r : Rows)
    → r.events id ≡ some row
    → update_event_rows id mark_dead r ≡ set_event id (some (mark_dead row)) r
mark_found id row r there = rw (there, update_event_rows) refl

mark_twice :
    (id : String) (r : Rows)
    → update_event_rows id mark_dead (update_event_rows id mark_dead r)
      ≡ update_event_rows id mark_dead r
mark_twice id r = elim (Option-cases (r.events id)) [
  | inl missing ↦
      let same : update_event_rows id mark_dead r ≡ r = rw (missing, update_event_rows) refl in
      ap (update_event_rows id mark_dead) same
  | inr (row, there) ↦
      let once = mark_found id row r there in
      let again =
        mark_found id (mark_dead row) (set_event id (some (mark_dead row)) r)
          (rw (eq_refl id) refl) in
      ap (update_event_rows id mark_dead) once
      ∙ again
      ∙ set_event_twice id (mark_dead row) r
      ∙ sym once
]

mark_rows_twice : (o : Option String) (r : Rows) → mark_rows o (mark_rows o r) ≡ mark_rows o r
mark_rows_twice none r = refl
mark_rows_twice (some id) r = mark_twice id r

mark_rows-letters : (o : Option String) (r : Rows) → (mark_rows o r).letters ≡ r.letters
mark_rows-letters none r = refl
mark_rows-letters (some id) r = elim (Option-cases (r.events id)) [
  | inl missing ↦ rw (missing, update_event_rows) refl
  | inr (row, there) ↦ rw (there, update_event_rows) refl
]

-- After the insert the message id is there.
insert_dead_letter_rows-has :
    (l : DlqMessage) (m : String) (r : Rows)
    → l.message_id ≡ some m
    → has_message_id (some m) (insert_dead_letter_rows l r).letters ≡ true
insert_dead_letter_rows-has l m r e = elim (Bool-cases (has_message_id (some m) r.letters)) [
  | inl old ↦ rw (e, old) old
  | inr new ↦ rw (e, new) (rw (eq_refl m) refl)
]

-- Recording a dead letter again, as a redelivery does, leaves the modelled columns as they are, where
-- the two deliveries carry the same message id and the same event id; the id and the time that the
-- database would give the second row do not matter.
pub letter_rows_idempotent :
    (l l' : DlqMessage) (m : String) (r : Rows)
    → l.message_id ≡ some m
    → l'.message_id ≡ some m
    → l'.event_id ≡ l.event_id
    → letter_rows l' (letter_rows l r) ≡ letter_rows l r
letter_rows_idempotent l l' m r e e' same =
    let r₁ : Rows = insert_dead_letter_rows l r in
    let has : has_message_id (some m) (mark_rows l.event_id r₁).letters ≡ true =
      rw (mark_rows-letters l.event_id r₁) (insert_dead_letter_rows-has l m r e) in
    let ignored : insert_dead_letter_rows l' (mark_rows l.event_id r₁) ≡ mark_rows l.event_id r₁ =
      rw (e', has) refl in
    ap (mark_rows l'.event_id) ignored
    ∙ ap (λ o. mark_rows o (mark_rows l.event_id r₁)) same
    ∙ mark_rows_twice l.event_id r₁
