-- ===== src/Consumer/Claim/Machine/Budget.antt =====
-- The budget of attempts of an event.
use async_webhook_ingestion.Prelude.{
  ⊤, ℕ, ◌+◌, ◌≤◌, ◌<◌, ◌≡◌, refl, Bool, true, false, ◌||◌, inl, inr, Option, none, some, Result, ok,
  err, leb, arith, Bool-cases,
}
use async_webhook_ingestion.Errors.{Thrown, is_permanent}
use async_webhook_ingestion.Events.{Event, EventStatus, received, processing, failed}
use async_webhook_ingestion.Events.Database.{new_row}
use async_webhook_ingestion.Consumer.Handler.{
  HandledEvent, OrderHandler, ProcessDecision, processed, duplicate, retry, dead,
}
use async_webhook_ingestion.Consumer.Claim.{claim_values}
use async_webhook_ingestion.Consumer.Claim.Machine.{step, step_row, ending, end_attempt}

-- The attempts that a row may have spent, by its status: none before the first attempt or after a
-- replay, fewer than the limit while a retry is due, and the limit at most in the end.
abbrev pub WithinBudget : ℕ → EventStatus → ℕ → Type 0
WithinBudget limit received n = n ≡ 0
WithinBudget limit processing n = (1 ≤ n) × (n < limit)
WithinBudget limit EventStatus.processed n = (1 ≤ n) × (n ≤ limit)
WithinBudget limit failed n = (1 ≤ n) × (n ≤ limit)
WithinBudget limit EventStatus.dead n = n ≤ limit

abbrev pub RowWithin : ℕ → Option Event → Type 0
RowWithin limit none = ⊤
RowWithin limit (some row) = WithinBudget limit row.status row.attempts

-- The attempts of a decision: a retry is due only below the limit.
abbrev pub DecisionWithin : ℕ → ProcessDecision → Type 0
DecisionWithin limit (processed n) = (1 ≤ n) × (n ≤ limit)
DecisionWithin limit (duplicate n) = n ≤ limit
DecisionWithin limit (retry n) = (1 ≤ n) × (n < limit)
DecisionWithin limit (dead n reason) = (1 ≤ n) × (n ≤ limit)

module _ (handler : OrderHandler) (limit : ℕ) (event : HandledEvent) where
  ending-within :
      (n : ℕ) (row : Event) (r : Result Thrown ⊤)
      → 1 ≤ n
      → n ≤ limit
      → DecisionWithin limit (end_attempt n row (ending limit n r)).0
        × WithinBudget limit
            (end_attempt n row (ending limit n r)).1.status
            (end_attempt n row (ending limit n r)).1.attempts
  ending-within n row (ok u) lo hi = ((lo, hi), (lo, hi))
  ending-within n row (err e) lo hi = elim (Bool-cases (is_permanent e || leb limit n)) [
    | inl final ↦ rw final ((lo, hi), (lo, hi))
    | inr again ↦ rw again ((lo, ground arith), (lo, ground arith))
  ]

  step_row-within :
      (s : EventStatus) (c : Bool) (row : Event)
      → row.status ≡ s
      → WithinBudget limit s row.attempts
      → 1 ≤ limit
      → DecisionWithin limit (step_row handler limit event s c row).0
        × WithinBudget limit
            (step_row handler limit event s c row).1.status
            (step_row handler limit event s c row).1.attempts
  step_row-within EventStatus.processed c row e h p = (omega arith, rw e h)
  step_row-within EventStatus.dead c row e h p = (omega arith, rw e h)
  step_row-within failed c row e h p = (h, rw e h)
  step_row-within received false row e h p = (omega arith, rw e h)
  step_row-within processing false row e h p = (omega arith, rw e h)
  step_row-within received true row e h p =
      ending-within (row.attempts + 1) row (handler event (row.attempts + 1)) (omega arith)
        (omega arith)
  step_row-within processing true row e h p =
      ending-within (row.attempts + 1) row (handler event (row.attempts + 1)) (omega arith)
        (omega arith)

  -- With a limit of one attempt at least, every delivery keeps the row's attempts within their budget
  -- and decides within it, whatever the handler does: in particular a retry is decided only below the
  -- limit, and the limit is never passed.
  pub step-within :
      (c : Bool) (o : Option Event)
      → 1 ≤ limit
      → RowWithin limit o
      → DecisionWithin limit (step handler limit event c o).0
        × RowWithin limit (some (step handler limit event c o).1)
  unfolding step
  step-within c none p h =
      ending-within 1 (new_row (claim_values event)) (handler event 1) (omega arith) p
  step-within c (some row) p h = step_row-within row.status c row refl h p
