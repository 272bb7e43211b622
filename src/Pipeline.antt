-- ===== src/Pipeline.antt =====
-- The life of one event under all that the program does to its row: deliveries to the worker, dead
-- letters recorded by `DlqConsumer`, and replays asked for by an operator, in any order.
pub mod Laws
pub mod Refinement
use async_webhook_ingestion.Prelude.{
  ℕ, suc, Bool, true, false, Option, none, some, List, [], ◌∷◌, if◌then◌else◌,
}
use async_webhook_ingestion.Events.{Event}
use async_webhook_ingestion.Consumer.Handler.{ProcessDecision}
use async_webhook_ingestion.Consumer.Claim.Machine.Series.{Visit, visit, is_processed}
use async_webhook_ingestion.Consumer.DeadLetters.{mark_dead}
use async_webhook_ingestion.Dlq.Prepare.{is_replayable, reset}

pub data Act : Type 0 where
  deliver : Visit → Act
  bury : Act
  replay : Act

abbrev pub reset_if_replayable : Event → Event
reset_if_replayable row = if is_replayable row.status then reset row else row

-- The row after an act. A dead letter or a replay of an event with no row leaves none.
abbrev pub act : ℕ → Act → Option Event → Option Event
act limit (deliver v) o = some (visit limit v o).1
act limit bury none = none
act limit bury (some row) = some (mark_dead row)
act limit replay none = none
act limit replay (some row) = some (reset_if_replayable row)

abbrev pub run : ℕ → List Act → Option Event → Option Event
run limit [] o = o
run limit (a ∷ acts) o = run limit acts (act limit a o)

abbrev pub processes : ℕ → Act → Option Event → Bool
processes limit (deliver v) o = is_processed (visit limit v o).0
processes limit bury o = false
processes limit replay o = false

-- How often the event was processed: its handler returned, and the transaction recorded it.
abbrev pub times_processed : ℕ → List Act → Option Event → ℕ
times_processed limit [] o = 0
times_processed limit (a ∷ acts) o =
    if processes limit a o
    then suc (times_processed limit acts (act limit a o))
    else times_processed limit acts (act limit a o)
