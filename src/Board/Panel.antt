-- ===== src/Board/Panel.antt =====
-- web/src/components/DlqPanel.tsx: the dead letters on the board, their diagnosis, and the state of the
-- panel around its calls. An `await` cuts a function in two. `toLowerCase`, the JSON functions and
-- `String` of a number are arguments.
pub mod Laws
use Prim.Native.String
use async_webhook_ingestion.Prelude.{
  ⊤, ℕ, String, Bool, true, false, ◌||◌, Option, none, some, List, [], ◌∷◌, Result, ok, err, get_or,
  ltb, if◌then◌else◌,
}
use async_webhook_ingestion.Json.{Json}
use async_webhook_ingestion.Errors.{
  Thrown, transient_processing_error, permanent_processing_error, query_failed, http_exception,
  other_error, non_error,
}
use async_webhook_ingestion.Board.Path.{includes}

pub record DlqEntry : Type 0 where
  pub id : String
  pub message_id : Option String
  pub correlation_id : String
  pub event_id : Option String
  pub reason : String
  pub attempts : ℕ
  pub payload : Option String
  pub created_at : String
  pub replayed_at : Option String

module _ (parse_json : String → Option Json) (indented : Json → String) where
  abbrev reformatted : String → Option Json → String
  reformatted payload none = payload
  reformatted payload (some value) = indented value

  unfoldable pub format_payload : Option String → String
  format_payload none = "(no payload captured)"
  format_payload (some payload) = reformatted payload (parse_json payload)

pub record Diagnosis : Type 0 where
  pub badge : String
  pub color : String
  pub summary : String

abbrev pub poison_diagnosis : Diagnosis
poison_diagnosis = record {
  badge = "poison message";
  color = "var(--color-stage-dead)";
  summary = "The body could not even be parsed into an event, so there was nothing to retry.";
}

abbrev pub permanent_diagnosis : Diagnosis
permanent_diagnosis = record {
  badge = "permanent error";
  color = "var(--color-stage-dead)";
  summary =
      "The handler flagged this failure as unfixable, so it skipped the retry ladder and came straight here.";
}

abbrev pub exhausted_diagnosis : (attempts : String) → Diagnosis
exhausted_diagnosis attempts = record {
  badge = "retries exhausted";
  color = "var(--color-stage-retry)";
  summary =
      String.◌++◌ "Failed "
        (String.◌++◌ attempts " times across the retry ladder (5s, 30s, 2min) and gave up.");
}

abbrev pub unknown_diagnosis : Diagnosis
unknown_diagnosis = record {
  badge = "unknown";
  color = "var(--text-faint)";
  summary = "Dead-lettered without a reason the worker recognizes.";
}

unfoldable pub diagnose : (lower : String → String) → (text_of : ℕ → String) → DlqEntry → Diagnosis
diagnose lower text_of entry =
    let reason = lower entry.reason in
    if includes reason "unparseable" || includes reason "missing event_id"
    then poison_diagnosis
    else if includes reason "permanent"
    then permanent_diagnosis
    else if ltb 1 entry.attempts || (includes reason "transient" || includes reason "attempt")
    then exhausted_diagnosis (text_of entry.attempts)
    else unknown_diagnosis

abbrev pub max_attempts : ℕ
max_attempts = 4

pub record PanelState : Type 0 where
  pub entries : List DlqEntry
  pub error : Option String
  pub loading : Bool
  pub updated_at : Option ℕ
  pub replaying_id : Option String
  pub replay_note : Option String

abbrev pub initial_panel : PanelState
initial_panel = record {
  entries = [];
  error = none;
  loading = false;
  updated_at = none;
  replaying_id = none;
  replay_note = none;
}

abbrev pub refresh_begin : PanelState → PanelState
refresh_begin state = record state { loading = true }

-- By what `fetchDlq` returns or throws, and the time.
unfoldable pub refresh_end : Result Thrown (List DlqEntry) → ℕ → PanelState → PanelState
refresh_end (ok entries) now state = record state {
  entries = entries;
  error = none;
  updated_at = some now;
  loading = false;
}
refresh_end (err e) now state = record state {
  error = some "GET /dlq unreachable. Is the backend up?";
  loading = false;
}

abbrev name_of : DlqEntry → String
name_of entry = get_or entry.event_id entry.id

-- After `discardDlq`; a success goes on with a refresh.
unfoldable pub discard_end : DlqEntry → Result Thrown ⊤ → PanelState → PanelState
discard_end entry (ok u) state = refresh_begin (record state { replay_note = none })
discard_end entry (err e) state = record state {
  replay_note = some (String.◌++◌ "could not discard " (name_of entry));
}

unfoldable pub replay_begin : DlqEntry → PanelState → PanelState
replay_begin entry state = record state { replaying_id = some entry.id; replay_note = none }

abbrev failed_replay : String → String
failed_replay message = String.◌++◌ message " (already processed, in flight, or missing event_id)"

abbrev cause_note : Thrown → String
cause_note (non_error m) = "replay failed"
cause_note (transient_processing_error m) = failed_replay m
cause_note (permanent_processing_error m) = failed_replay m
cause_note (query_failed c m) = failed_replay m
cause_note (http_exception s m) = failed_replay m
cause_note (other_error m) = failed_replay m

-- After `replayDlq`; a success goes on with a refresh, and `replay_done` after it.
unfoldable pub replay_answer : DlqEntry → Result Thrown Json → PanelState → PanelState
replay_answer entry (ok receipt) state = refresh_begin (record state {
  replay_note = some (
      String.◌++◌ "replayed "
        (String.◌++◌ (name_of entry) ": state reset, message republished, retry budget restarted"));
})
replay_answer entry (err cause) state = record state { replay_note = some (cause_note cause) }

abbrev pub replay_done : PanelState → PanelState
replay_done state = record state { replaying_id = none }

-- A replay from its start to its end, with the answers to its one or two requests.
unfoldable pub replay_entry :
    DlqEntry → Result Thrown Json → Result Thrown (List DlqEntry) → ℕ → PanelState → PanelState
replay_entry entry (ok receipt) listed now state =
    replay_done
      (refresh_end listed now (replay_answer entry (ok receipt) (replay_begin entry state)))
replay_entry entry (err cause) listed now state =
    replay_done (replay_answer entry (err cause) (replay_begin entry state))
