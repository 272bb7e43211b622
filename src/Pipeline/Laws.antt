-- ===== src/Pipeline/Laws.antt =====
-- Exactly-once processing across retries, dead letters and replays, and the order of steps that
-- breaks it.
use async_webhook_ingestion.Prelude.{
  ⊤, ℕ, ◌≤◌, ◌≡◌, ◌≢◌, refl, ap, ◌∙◌, true, false, Option, none, some, List, [], ◌∷◌, inl, inr,
  Bool-cases, arith, ok,
}
use async_webhook_ingestion.Events.{
  Event, EventStatus, received, processing, processed, failed, dead,
}
use async_webhook_ingestion.Consumer.Claim.Machine.{step}
use async_webhook_ingestion.Consumer.Claim.Machine.Budget.{WithinBudget, RowWithin, step-within}
use async_webhook_ingestion.Consumer.Claim.Machine.Series.{
  Visit, visit, is_processed, visit-processed, visit-status,
}
use async_webhook_ingestion.Dlq.Prepare.{is_replayable}
use async_webhook_ingestion.Pipeline.{
  Act, deliver, bury, replay, act, run, times_processed, reset_if_replayable,
}

bury-within : (limit n : ℕ) (s : EventStatus) → 1 ≤ limit → WithinBudget limit s n → n ≤ limit
bury-within limit n received p h = omega arith
bury-within limit n processing p h = omega arith
bury-within limit n processed p h = omega arith
bury-within limit n failed p h = omega arith
bury-within limit n dead p h = omega arith

act-within :
    (limit : ℕ) (a : Act) (o : Option Event)
    → 1 ≤ limit
    → RowWithin limit o
    → RowWithin limit (act limit a o)
act-within limit (deliver v) o p h = (step-within v.handler limit v.event v.continuation o p h).1
act-within limit bury none p h = tt
act-within limit bury (some row) p h = bury-within limit row.attempts row.status p h
act-within limit replay none p h = tt
act-within limit replay (some row) p h = elim (Bool-cases (is_replayable row.status)) [
  | inl may ↦ rw may refl
  | inr may_not ↦ rw may_not h
]

-- With a limit of one attempt at least, no order of deliveries, dead letters and replays takes an
-- event beyond its budget of attempts.
pub run-within :
    (limit : ℕ) (acts : List Act) (o : Option Event)
    → 1 ≤ limit
    → RowWithin limit o
    → RowWithin limit (run limit acts o)
run-within limit [] o p h = h
run-within limit (a ∷ acts) o p h =
    run-within limit acts (act limit a o) p (act-within limit a o p h)

abbrev pub NotProcessed : Option Event → Type 0
NotProcessed none = ⊤
NotProcessed (some row) = row.status ≢ processed

-- No dead letter of the event is recorded while the event is processed.
abbrev pub IsTimely : ℕ → List Act → Option Event → Type 0
IsTimely limit [] o = ⊤
IsTimely limit (deliver v ∷ acts) o = IsTimely limit acts (act limit (deliver v) o)
IsTimely limit (replay ∷ acts) o = IsTimely limit acts (act limit replay o)
IsTimely limit (bury ∷ acts) o = NotProcessed o × IsTimely limit acts (act limit bury o)

reset_if_replayable-processed :
    (row : Event) → row.status ≡ processed → reset_if_replayable row ≡ row
reset_if_replayable-processed row e =
    let kept : is_replayable row.status ≡ false = rw e refl in rw kept refl

never_again :
    (limit : ℕ) (acts : List Act) (row : Event)
    → row.status ≡ processed
    → IsTimely limit acts (some row)
    → times_processed limit acts (some row) ≡ 0
never_again limit [] row e h = refl
never_again limit (deliver v ∷ acts) row e h =
    let (no_more, still) = visit-processed limit v row e in
    rw no_more (never_again limit acts (visit limit v (some row)).1 still h)
never_again limit (replay ∷ acts) row e h =
    let same = reset_if_replayable-processed row e in
    never_again limit acts (reset_if_replayable row) (ap (λ (r : Event). r.status) same ∙ e) h
never_again limit (bury ∷ acts) row e (not_yet, h) = absurd (not_yet e)

-- An event is processed at most once, over any order of deliveries (first, repeated, continued, with a
-- handler that may behave differently each time), dead letters and replays, provided that no dead
-- letter of the event is recorded while the event is processed.
pub times_processed-le-one :
    (limit : ℕ) (acts : List Act) (o : Option Event)
    → IsTimely limit acts o
    → times_processed limit acts o ≤ 1
times_processed-le-one limit [] o h = omega arith
times_processed-le-one limit (bury ∷ acts) o (_, h) =
    times_processed-le-one limit acts (act limit bury o) h
times_processed-le-one limit (replay ∷ acts) o h =
    times_processed-le-one limit acts (act limit replay o) h
times_processed-le-one limit (deliver v ∷ acts) o h =
    elim (Bool-cases (is_processed (visit limit v o).0)) [
      | inl now ↦
          rw (now, never_again limit acts (visit limit v o).1 (visit-status limit v o now) h)
            (omega arith)
      | inr later ↦ rw later (times_processed-le-one limit acts (some (visit limit v o).1) h)
    ]

-- Without that proviso it is not so. A new event that is processed at its first delivery, then a dead
-- letter of the same event that is recorded late, a replay of it, and one delivery of the replayed
-- message: if the handler returns both times, the event has been processed twice.
pub late_dead_letter_reprocesses :
    (limit : ℕ) (v v' : Visit)
    → v.handler v.event 1 ≡ ok tt
    → v'.handler v'.event 1 ≡ ok tt
    → v'.continuation ≡ true
    → times_processed limit (deliver v ∷ bury ∷ replay ∷ deliver v' ∷ []) none ≡ 2
unfolding step
late_dead_letter_reprocesses limit v v' first second again = rw first (rw (again, second) refl)
