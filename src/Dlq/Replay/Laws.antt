-- ===== src/Dlq/Replay/Laws.antt =====
-- How a replay ends, and that it may be tried again after the broker failed.
use async_webhook_ingestion.Prelude.{
  ⊤, ℕ, String, ◌≡◌, refl, sym, subst, ap, Option, some, Result, ok, err, inl, inr, [], ◌∷◌, ◌++◌,
  Result-cases, Option-cases, eq_refl,
}
use async_webhook_ingestion.Json.{Json}
use async_webhook_ingestion.Errors.{Thrown}
use async_webhook_ingestion.Messaging.{Publication}
use async_webhook_ingestion.Timeout.{Pending}
use async_webhook_ingestion.Events.{Event, DlqMessage}
use async_webhook_ingestion.Events.Database.{
  Database, Rows, update_event_rows, find_letter, find_letter-stamp,
}
use async_webhook_ingestion.Worker.{World, publish, transaction}
use async_webhook_ingestion.Worker.Logs.{and_then-ok, and_then-err}
use async_webhook_ingestion.Worker.Transactions.{transaction-cases}
use async_webhook_ingestion.Dlq.Prepare.{
  PreparedReplay, prepare, reset, nonempty_text, stored_message,
}
use async_webhook_ingestion.Dlq.Prepare.Laws.{Prepared, MayReplay, prepare-Prepared}
use async_webhook_ingestion.Dlq.Replay.{
  ReplayReceipt, replay_publication, receipt, not_published_error, confirm, answer, publish_replay,
  replay,
}

module _ (db : Database) (broker : Publication → Pending ⊤) (ms : ℕ)
    (parse_json : String → Option Json) (now : ℕ) (id : String) where
  open db use {Db, rows}

  pub data Ends (w : World Db) (out : Result Thrown ReplayReceipt × World Db) : Type 0 where
    refused :
        (e : Thrown) → out.0 ≡ err e → rows out.1.db ≡ rows w.db → out.1.log ≡ w.log → Ends w out
    unconfirmed :
        (p : PreparedReplay) (e : Thrown)
        → Prepared parse_json now id (rows w.db) (rows out.1.db) p
        → confirm db broker ms (replay_publication p) ≡ err e
        → out.0 ≡ err not_published_error
        → out.1.log ≡ w.log ++ publish (replay_publication p) ∷ []
        → Ends w out
    replayed :
        (p : PreparedReplay)
        → Prepared parse_json now id (rows w.db) (rows out.1.db) p
        → confirm db broker ms (replay_publication p) ≡ ok tt
        → out.0 ≡ ok (receipt p)
        → out.1.log ≡ w.log ++ publish (replay_publication p) ∷ []
        → Ends w out

  publish_replay-Ends :
      (p : PreparedReplay) (w w₁ : World Db)
      → Prepared parse_json now id (rows w.db) (rows w₁.db) p
      → w₁.log ≡ w.log
      → Ends w (publish_replay db broker ms p w₁)
  unfolding publish_replay
  publish_replay-Ends p w w₁ prepared same =
      let log = ap (λ l. l ++ publish (replay_publication p) ∷ []) same in
      elim (Result-cases (confirm db broker ms (replay_publication p))) [
        | inl (u, sent) ↦
            replayed p (rw (sent, answer) prepared) sent (rw (sent, answer) refl)
              (rw (sent, answer) log)
        | inr (e, lost) ↦
            unconfirmed p e (rw (lost, answer) prepared) lost (rw (lost, answer) refl)
              (rw (lost, answer) log)
      ]

  -- A replay ends in one of three ways: refused with an error, and nothing has changed; prepared but
  -- not confirmed by the broker in time, answered with 503, the reset kept; or prepared, confirmed and
  -- answered with the receipt. What is published is the stored message, marked as a continuation.
  pub replay-Ends : (w : World Db) → Ends w (replay db broker ms parse_json now id w)
  unfolding replay
  replay-Ends w =
      let m = prepare db parse_json now id in
      elim (transaction-cases db m w) [
        | inl (p, went, done) ↦
            subst (Ends w)
              (sym (and_then-ok (transaction db m w) (publish_replay db broker ms) went))
              (publish_replay-Ends p w (transaction db m w).1
                (subst (λ r. Prepared parse_json now id (rows w.db) r p) (sym done.stored)
                  (prepare-Prepared db parse_json now id w.db done.ran))
                done.log)
        | inr (e, failed, undone) ↦
            subst (Ends w)
              (sym (and_then-err (transaction db m w) (publish_replay db broker ms) failed))
              (refused e refl undone.same undone.log)
      ]

update_event_rows-MayReplay :
    (id : String) (r : Rows)
    → MayReplay (r.events id)
    → MayReplay ((update_event_rows id reset r).events id)
update_event_rows-MayReplay id r h = elim (Option-cases (r.events id)) [
  | inl missing ↦ rw (missing, update_event_rows) (rw missing tt)
  | inr (row, there) ↦ rw (there, update_event_rows) (rw (eq_refl id) refl)
]

update_event_rows-letters :
    (id : String) (f : Event → Event) (r : Rows) → (update_event_rows id f r).letters ≡ r.letters
update_event_rows-letters id f r = elim (Option-cases (r.events id)) [
  | inl missing ↦ rw (missing, update_event_rows) refl
  | inr (row, there) ↦ rw (there, update_event_rows) refl
]

-- What a replay needs of the tables.
abbrev pub CanReplay : (String → Option Json) → String → Rows → PreparedReplay → Type 0
CanReplay parse_json id r p =
    (l : DlqMessage) × (find_letter id r.letters ≡ some l)
    × (nonempty_text l.event_id ≡ some p.event_id)
    × (stored_message parse_json l ≡ some p.body)
    × MayReplay (r.events p.event_id)

-- Whatever a prepared replay has come to, it may be tried again: the letter is still found, names the
-- same event and holds the same message, and the event is in a state that a replay may start from.
pub replay_retryable :
    (parse_json : String → Option Json) (now : ℕ) (id : String) (r r' : Rows) (p : PreparedReplay)
    → Prepared parse_json now id r r' p
    → CanReplay parse_json id r' p
unfolding stored_message
replay_retryable parse_json now id r r' p h =
    let r₁ : Rows = update_event_rows p.event_id reset r in
    let found : find_letter id r₁.letters ≡ some h.letter =
      rw (update_event_rows-letters p.event_id reset r) h.found in
    subst (λ x. CanReplay parse_json id x p) (sym h.written)
      (
        _,
        find_letter-stamp id now r₁.letters found,
        h.named,
        h.stored,
        update_event_rows-MayReplay p.event_id r h.admitted,
      )
