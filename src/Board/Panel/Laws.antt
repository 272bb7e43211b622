-- ===== src/Board/Panel/Laws.antt =====
-- The state of the panel of web/src/components/DlqPanel.tsx around a replay.
use async_webhook_ingestion.Prelude.{ℕ, ◌≡◌, refl, none, List, Result, ok, err, false}
use async_webhook_ingestion.Json.{Json}
use async_webhook_ingestion.Errors.{Thrown}
use async_webhook_ingestion.Board.Panel.{
  DlqEntry, PanelState, refresh_end, replay_begin, replay_answer, replay_entry,
}

-- However a replay ends, no entry is marked as being replayed any more, and nothing is loading if
-- nothing was.
replay_entry-idle :
    (entry : DlqEntry) (answer : Result Thrown Json) (listed : Result Thrown (List DlqEntry))
    (now : ℕ) (state : PanelState)
    → state.loading ≡ false
    → ((replay_entry entry answer listed now state).replaying_id ≡ none)
      × ((replay_entry entry answer listed now state).loading ≡ false)
unfolding replay_entry replay_answer replay_begin refresh_end
replay_entry-idle entry (ok receipt) (ok entries) now state h = (refl, refl)
replay_entry-idle entry (ok receipt) (err e) now state h = (refl, refl)
replay_entry-idle entry (err cause) listed now state h = (refl, h)
