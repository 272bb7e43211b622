-- ===== src/Pipeline/Refinement.antt =====
-- The acts of `Pipeline` are what the code's transactions do to the row of an event.
use async_webhook_ingestion.Prelude.{
  ℕ, String, ◌≡◌, refl, ◌∙◌, ap, Option, none, some, inl, inr, Option-cases, Bool-cases, eq_refl,
}
use mathlib.Core.Option
use async_webhook_ingestion.Json.{Json}
use async_webhook_ingestion.Events.{Event, DlqMessage}
use async_webhook_ingestion.Events.Database.{
  Rows, update_event_rows, insert_dead_letter_rows, has_message_id,
}
use async_webhook_ingestion.Consumer.Handler.{ProcessDecision}
use async_webhook_ingestion.Consumer.Claim.Machine.{step}
use async_webhook_ingestion.Consumer.Claim.Machine.Series.{Visit}
use async_webhook_ingestion.Consumer.Claim.Refinement.{Settles}
use async_webhook_ingestion.Consumer.DeadLetters.{mark_dead}
use async_webhook_ingestion.Consumer.DeadLetters.Laws.{letter_rows, mark_rows}
use async_webhook_ingestion.Dlq.Prepare.{PreparedReplay, reset}
use async_webhook_ingestion.Dlq.Prepare.Laws.{Prepared, MayReplay}
use async_webhook_ingestion.Pipeline.{act, bury, replay, deliver}

insert_dead_letter_rows-events :
    (l : DlqMessage) (r : Rows) → (insert_dead_letter_rows l r).events ≡ r.events
insert_dead_letter_rows-events l r = elim (Bool-cases (has_message_id l.message_id r.letters)) [
  | inl old ↦ rw old refl
  | inr new ↦ rw new refl
]

update_event_rows_self :
    (id : String) (f : Event → Event) (r : Rows)
    → (update_event_rows id f r).events id ≡ Option.map f (r.events id)
update_event_rows_self id f r = elim (Option-cases (r.events id)) [
  | inl missing ↦ rw (missing, update_event_rows) (rw missing refl)
  | inr (row, there) ↦ rw (there, update_event_rows) (rw (eq_refl id) refl)
]

map-bury : (limit : ℕ) (o : Option Event) → Option.map mark_dead o ≡ act limit bury o
map-bury limit none = refl
map-bury limit (some row) = refl

map-replay : (limit : ℕ) (o : Option Event) → MayReplay o → Option.map reset o ≡ act limit replay o
map-replay limit none h = refl
map-replay limit (some row) h = rw h refl

-- Recording a dead letter that names an event is the act `bury` on the event's row.
pub letter_rows-act :
    (limit : ℕ) (id : String) (l : DlqMessage) (r : Rows)
    → l.event_id ≡ some id
    → (letter_rows l r).events id ≡ act limit bury (r.events id)
letter_rows-act limit id l r e =
    ap (λ o. (mark_rows o (insert_dead_letter_rows l r)).events id) e
    ∙ update_event_rows_self id mark_dead (insert_dead_letter_rows l r)
    ∙ ap (λ (f : String → Option Event). Option.map mark_dead (f id))
        (insert_dead_letter_rows-events l r)
    ∙ map-bury limit (r.events id)

-- A prepared replay is the act `replay` on the event's row.
pub Prepared-act :
    (limit : ℕ) (parse_json : String → Option Json) (now : ℕ) (id : String) (r r' : Rows)
    (p : PreparedReplay)
    → Prepared parse_json now id r r' p
    → r'.events p.event_id ≡ act limit replay (r.events p.event_id)
Prepared-act limit parse_json now id r r' p h =
    ap (λ (x : Rows). x.events p.event_id) h.written
    ∙ update_event_rows_self p.event_id reset r
    ∙ map-replay limit (r.events p.event_id) h.admitted

-- A transaction that settles a delivery is the act `deliver` on the event's row.
pub Settles-act :
    (limit : ℕ) (v : Visit) (r r' : Rows) (d : ProcessDecision)
    → Settles v.event.event_id r r' d
        (step v.handler limit v.event v.continuation (r.events v.event.event_id))
    → r'.events v.event.event_id ≡ act limit (deliver v) (r.events v.event.event_id)
Settles-act limit v r r' d (same, stores) = stores.stored
