-- ===== src/Consumer/Claim/Machine/Retries.antt =====
-- How a series of retries ends.
use async_webhook_ingestion.Prelude.{
  ⊤, ℕ, ◌+◌, ◌≤◌, ◌≡◌, refl, true, ◌⊎◌, inl, inr, some, List, [], ◌∷◌, arith, length,
}
use async_webhook_ingestion.Events.{Event, EventStatus, received, processing, failed}
use async_webhook_ingestion.Consumer.Handler.{HandledEvent, OrderHandler}
use async_webhook_ingestion.Consumer.Claim.Machine.{
  step, step_row, end_attempt, Ending, succeeded, gave_up, will_retry,
}
use async_webhook_ingestion.Consumer.Claim.Machine.Budget.{WithinBudget, RowWithin, step-within}

-- Where no delivery is due any more: the outcome is recorded, or the dead letter is on its way.
abbrev pub IsOver : EventStatus → Type 0
IsOver received = ⊥
IsOver processing = ⊥
IsOver EventStatus.processed = ⊤
IsOver failed = ⊤
IsOver EventStatus.dead = ⊤

-- The row after every delivery of a series, each a continuation.
abbrev pub after_retries : ℕ → List (OrderHandler × HandledEvent) → Event → Event
after_retries limit [] row = row
after_retries limit ((h, e) ∷ vs) row = after_retries limit vs (step h limit e true (some row)).1

use_budget :
    (limit : ℕ) (s : EventStatus) (n : ℕ)
    → WithinBudget limit s n
    → 1 ≤ limit
    → limit ≤ n
    → IsOver s
use_budget limit received n h p q = absurd (omega arith)
use_budget limit processing n h p q = absurd (omega arith)
use_budget limit EventStatus.processed n h p q = tt
use_budget limit failed n h p q = tt
use_budget limit EventStatus.dead n h p q = tt

module _ (handler : OrderHandler) (limit : ℕ) (event : HandledEvent) where
  -- An attempt ends the series or spends one attempt.
  end_attempt-spends :
      (n : ℕ) (row : Event) (e : Ending)
      → IsOver (end_attempt n row e).1.status ⊎ ((end_attempt n row e).1.attempts ≡ n)
  end_attempt-spends n row succeeded = inl tt
  end_attempt-spends n row (gave_up x) = inl tt
  end_attempt-spends n row (will_retry x) = inr refl

  step_row-spends :
      (s : EventStatus) (row : Event)
      → row.status ≡ s
      → IsOver (step_row handler limit event s true row).1.status
        ⊎ ((step_row handler limit event s true row).1.attempts ≡ row.attempts + 1)
  step_row-spends received row e = end_attempt-spends (row.attempts + 1) row _
  step_row-spends processing row e = end_attempt-spends (row.attempts + 1) row _
  step_row-spends EventStatus.processed row e = inl (rw e tt)
  step_row-spends failed row e = inl (rw e tt)
  step_row-spends EventStatus.dead row e = inl (rw e tt)

  step_row-IsOver :
      (s : EventStatus) (row : Event)
      → row.status ≡ s
      → IsOver s
      → IsOver (step_row handler limit event s true row).1.status
  step_row-IsOver received row e h = absurd h
  step_row-IsOver processing row e h = absurd h
  step_row-IsOver EventStatus.processed row e h = rw e tt
  step_row-IsOver failed row e h = rw e tt
  step_row-IsOver EventStatus.dead row e h = rw e tt

after_retries-IsOver :
    (limit : ℕ) (vs : List (OrderHandler × HandledEvent)) (row : Event)
    → IsOver row.status
    → IsOver (after_retries limit vs row).status
unfolding step
after_retries-IsOver limit [] row h = h
after_retries-IsOver limit ((f, e) ∷ vs) row h =
    after_retries-IsOver limit vs (step f limit e true (some row)).1
      (step_row-IsOver f limit e row.status row refl h)

-- The retries of an event end: from any row within its budget, as many continuations as there are
-- attempts left bring the event to an end (processed, failed or dead), whatever the handler does.
pub retries_end :
    (limit : ℕ) (vs : List (OrderHandler × HandledEvent)) (row : Event)
    → 1 ≤ limit
    → RowWithin limit (some row)
    → limit ≤ row.attempts + length vs
    → IsOver (after_retries limit vs row).status
unfolding step
retries_end limit [] row p h q = use_budget limit row.status row.attempts h p (omega arith)
retries_end limit ((f, e) ∷ vs) row p h q =
    let (_, h') = step-within f limit e true (some row) p h in
    elim (step_row-spends f limit e row.status row refl) [
      | inl over ↦ after_retries-IsOver limit vs (step f limit e true (some row)).1 over
      | inr spent ↦
          retries_end limit vs (step f limit e true (some row)).1 p h' (omega (arith, spent))
    ]
