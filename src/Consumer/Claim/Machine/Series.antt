-- ===== src/Consumer/Claim/Machine/Series.antt =====
-- Series of deliveries of one event.
use async_webhook_ingestion.Prelude.{
  ℕ, suc, ◌≤◌, ◌≡◌, refl, ap, ◌∙◌, Bool, true, false, inl, inr, Option, none, some, List, [], ◌∷◌,
  arith, Bool-cases, if◌then◌else◌,
}
use async_webhook_ingestion.Events.{Event, EventStatus, received, processing, failed}
use async_webhook_ingestion.Events.Database.{new_row}
use async_webhook_ingestion.Consumer.Handler.{
  HandledEvent, OrderHandler, ProcessDecision, processed, duplicate, retry, dead,
}
use async_webhook_ingestion.Consumer.Claim.{claim_values}
use async_webhook_ingestion.Consumer.Claim.Machine.{
  step, step_row, end_attempt, Ending, succeeded, gave_up, will_retry, repeat,
}

-- One delivery of the event, with the handler as it behaves then.
pub record Visit : Type 0 where
  pub handler : OrderHandler
  pub event : HandledEvent
  pub continuation : Bool

abbrev pub visit : ℕ → Visit → Option Event → ProcessDecision × Event
visit limit v o = step v.handler limit v.event v.continuation o

-- The decisions of a series of deliveries.
abbrev pub decisions : ℕ → List Visit → Option Event → List ProcessDecision
decisions limit [] o = []
decisions limit (v ∷ vs) o = (visit limit v o).0 ∷ decisions limit vs (some (visit limit v o).1)

abbrev pub is_processed : ProcessDecision → Bool
is_processed (processed n) = true
is_processed (duplicate n) = false
is_processed (retry n) = false
is_processed (dead n r) = false

abbrev pub count_processed : List ProcessDecision → ℕ
count_processed [] = 0
count_processed (d ∷ ds) = if is_processed d then suc (count_processed ds) else count_processed ds

-- Once processed, an event stays processed, and the decision is a duplicate.
step_row-processed :
    (handler : OrderHandler) (limit : ℕ) (event : HandledEvent) (c : Bool) (s : EventStatus)
    (row : Event)
    → s ≡ EventStatus.processed
    → step_row handler limit event s c row ≡ repeat handler limit event row
step_row-processed handler limit event c s row e = rw e refl

pub visit-processed :
    (limit : ℕ) (v : Visit) (row : Event)
    → row.status ≡ EventStatus.processed
    → (is_processed (visit limit v (some row)).0 ≡ false)
      × ((visit limit v (some row)).1.status ≡ EventStatus.processed)
unfolding step
visit-processed limit v row e =
    let same = step_row-processed v.handler limit v.event v.continuation row.status row e in
    (
      ap (λ (o : ProcessDecision × Event). is_processed o.0) same,
      ap (λ (o : ProcessDecision × Event). o.1.status) same ∙ e,
    )

processed_after :
    (limit : ℕ) (vs : List Visit) (row : Event)
    → row.status ≡ EventStatus.processed
    → count_processed (decisions limit vs (some row)) ≡ 0
processed_after limit [] row e = refl
processed_after limit (v ∷ vs) row e =
    let (no_more, still) = visit-processed limit v row e in
    rw no_more (processed_after limit vs (visit limit v (some row)).1 still)

end_attempt-processed :
    (n : ℕ) (row : Event) (e : Ending)
    → is_processed (end_attempt n row e).0 ≡ true
    → (end_attempt n row e).1.status ≡ EventStatus.processed
end_attempt-processed n row succeeded h = refl
end_attempt-processed n row (gave_up x) h = cc
end_attempt-processed n row (will_retry x) h = cc

-- A decision that the event was processed comes with that status.
step_row-status :
    (handler : OrderHandler) (limit : ℕ) (event : HandledEvent) (s : EventStatus) (c : Bool)
    (row : Event)
    → is_processed (step_row handler limit event s c row).0 ≡ true
    → (step_row handler limit event s c row).1.status ≡ EventStatus.processed
step_row-status handler limit event received true row h = end_attempt-processed _ row _ h
step_row-status handler limit event processing true row h = end_attempt-processed _ row _ h
step_row-status handler limit event received false row h = cc
step_row-status handler limit event processing false row h = cc
step_row-status handler limit event EventStatus.processed c row h = cc
step_row-status handler limit event EventStatus.dead c row h = cc
step_row-status handler limit event failed c row h = cc

pub visit-status :
    (limit : ℕ) (v : Visit) (o : Option Event)
    → is_processed (visit limit v o).0 ≡ true
    → (visit limit v o).1.status ≡ EventStatus.processed
unfolding step
visit-status limit v none h = end_attempt-processed _ (new_row (claim_values v.event)) _ h
visit-status limit v (some row) h =
    step_row-status v.handler limit v.event row.status v.continuation row h

-- Over any series of deliveries of one event, first or repeated, with a handler that may behave
-- differently each time, at most one decision is that the event was processed.
pub processed_at_most_once :
    (limit : ℕ) (vs : List Visit) (o : Option Event) → count_processed (decisions limit vs o) ≤ 1
processed_at_most_once limit [] o = omega arith
processed_at_most_once limit (v ∷ vs) o = elim (Bool-cases (is_processed (visit limit v o).0)) [
  | inl now ↦
      rw (now, processed_after limit vs (visit limit v o).1 (visit-status limit v o now))
        (omega arith)
  | inr later ↦ rw later (processed_at_most_once limit vs (some (visit limit v o).1))
]
