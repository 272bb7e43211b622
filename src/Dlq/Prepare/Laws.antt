-- ===== src/Dlq/Prepare/Laws.antt =====
-- When a replay starts, what it resets, and when it is refused.
use async_webhook_ingestion.Prelude.{
  ⊤, ℕ, String, ◌≡◌, refl, sym, subst, ◌∙◌, ap, true, false, Option, none, some, ok, err, inl, inr,
  ok-pair, Bool-cases,
}
use async_webhook_ingestion.Json.{Json}
use async_webhook_ingestion.Events.{Event, DlqMessage}
use async_webhook_ingestion.Events.Database.{
  Database, Rows, update_event_rows, stamp_rows, find_letter, and_then-eq-ok, and_then, return,
}
use async_webhook_ingestion.Dlq.Prepare.{
  PreparedReplay, is_replayable, stored_message, nonempty_text, reset, status_error, admit, restart,
  with_body, with_event_id, with_letter, prepare, stamped,
}

-- A missing row is no obstacle.
abbrev pub MayReplay : Option Event → Type 0
MayReplay none = ⊤
MayReplay (some row) = is_replayable row.status ≡ true

-- A replay of the letter `id` has been prepared.
pub record Prepared (parse_json : String → Option Json) (now : ℕ) (id : String) (r r' : Rows)
    (p : PreparedReplay) : Type 0 where
  pub letter : DlqMessage
  pub found : find_letter id r.letters ≡ some letter
  pub named : nonempty_text letter.event_id ≡ some p.event_id
  pub stored : stored_message parse_json letter ≡ some p.body
  pub traced : p.correlation_id ≡ letter.correlation_id
  pub admitted : MayReplay (r.events p.event_id)
  pub written : r' ≡ stamp_rows id now (update_event_rows p.event_id reset r)

module _ (db : Database) (parse_json : String → Option Json) (now : ℕ) (id : String) where
  open db use {Db, rows, stamp_letter, update_event, lock_event, lock_letter}

  stamped-rows :
      (p : PreparedReplay) (d : Db) {q : PreparedReplay} {d' : Db}
      → stamped db parse_json now id p d ≡ ok (q, d')
      → (q ≡ p) × (rows d' ≡ stamp_rows id now (rows d))
  stamped-rows p d h =
      let (u, d₁, done, returned) = and_then-eq-ok (stamp_letter id now d) (λ _. return p) h in
      let (same, at) = ok-pair returned in (same, ap rows at ∙ db.stamp_letter_lem id now d done)

  admit-rows :
      (p : PreparedReplay) (o : Option Event) (d : Db) {q : PreparedReplay} {d' : Db}
      → (rows d).events p.event_id ≡ o
      → admit db parse_json now id p o d ≡ ok (q, d')
      → (q ≡ p)
        × MayReplay o
        × (rows d' ≡ stamp_rows id now (update_event_rows p.event_id reset (rows d)))
  unfolding admit
  admit-rows p none d there h =
      let (same, e) = stamped-rows p d h in (same, tt, rw (there, update_event_rows) e)
  admit-rows p (some row) d there h = elim (Bool-cases (is_replayable row.status)) [
    | inl may ↦
        let (u, d₁, done, rest) =
          and_then-eq-ok (update_event p.event_id reset d) (λ _. stamped db parse_json now id p)
            (rw may at h) in
        let (same, e) = stamped-rows p d₁ rest in
        (same, may, e ∙ ap (stamp_rows id now) (db.update_event_lem p.event_id reset d done))
    | inr may_not ↦ cc (rw may_not at h)
  ]

  restart-rows :
      (p : PreparedReplay) (d : Db) {q : PreparedReplay} {d' : Db}
      → restart db parse_json now id p d ≡ ok (q, d')
      → (q ≡ p)
        × MayReplay ((rows d).events p.event_id)
        × (rows d' ≡ stamp_rows id now (update_event_rows p.event_id reset (rows d)))
  unfolding restart
  restart-rows p d h =
      let (row, d₁, locked, rest) =
        and_then-eq-ok (lock_event p.event_id d) (admit db parse_json now id p) h in
      let (is_row, same_rows) = db.lock_event_lem p.event_id d locked in
      let (same, may, e) = admit-rows p row d₁ (rw same_rows (sym is_row)) rest in
      (
        same,
        rw (sym is_row) may,
        e ∙ ap (λ r. stamp_rows id now (update_event_rows p.event_id reset r)) same_rows,
      )

  abbrev named_replay : DlqMessage → String → Json → PreparedReplay
  named_replay letter event_id body = record {
    event_id = event_id;
    correlation_id = letter.correlation_id;
    body = body;
  }

  from_body :
      (letter : DlqMessage) (event_id : String) (b : Option Json) (d : Db) {p : PreparedReplay}
      {d' : Db}
      → find_letter id (rows d).letters ≡ some letter
      → nonempty_text letter.event_id ≡ some event_id
      → stored_message parse_json letter ≡ b
      → with_body db parse_json now id letter event_id b d ≡ ok (p, d')
      → Prepared parse_json now id (rows d) (rows d') p
  unfolding with_body
  from_body letter event_id none d f n b h = cc
  from_body letter event_id (some body) d {p} {d'} f n b h =
      let (same, may, written) = restart-rows (named_replay letter event_id body) d h in
      subst (Prepared parse_json now id (rows d) (rows d')) (sym same) (record {
        letter = letter;
        found = f;
        named = n;
        stored = b;
        traced = refl;
        admitted = may;
        written = written;
      })

  from_event_id :
      (letter : DlqMessage) (e : Option String) (d : Db) {p : PreparedReplay} {d' : Db}
      → find_letter id (rows d).letters ≡ some letter
      → nonempty_text letter.event_id ≡ e
      → with_event_id db parse_json now id letter e d ≡ ok (p, d')
      → Prepared parse_json now id (rows d) (rows d') p
  unfolding with_event_id
  from_event_id letter none d f n h = cc
  from_event_id letter (some event_id) d f n h =
      from_body letter event_id (stored_message parse_json letter) d f n refl h

  from_letter :
      (o : Option DlqMessage) (d : Db) {p : PreparedReplay} {d' : Db}
      → find_letter id (rows d).letters ≡ o
      → with_letter db parse_json now id o d ≡ ok (p, d')
      → Prepared parse_json now id (rows d) (rows d') p
  unfolding with_letter
  from_letter none d f h = cc
  from_letter (some letter) d f h = from_event_id letter (nonempty_text letter.event_id) d f refl h

  -- A replay that is prepared names a stored letter with an event id and an original message; its
  -- event, if there is a row, was received, failed or dead, and is now received with a fresh budget of
  -- attempts; the letter carries the time of the replay, and nothing else has changed.
  pub prepare-Prepared :
      (d : Db) {p : PreparedReplay} {d' : Db}
      → prepare db parse_json now id d ≡ ok (p, d')
      → Prepared parse_json now id (rows d) (rows d') p
  unfolding prepare
  prepare-Prepared d {p} {d'} h =
      let (o, d₁, locked, rest) =
        and_then-eq-ok (lock_letter id d) (with_letter db parse_json now id) h in
      let (is_letter, same) = db.lock_letter_lem id d locked in
      subst (λ r. Prepared parse_json now id r (rows d') p) same
        (from_letter o d₁ (ap (λ (r : Rows). find_letter id r.letters) same ∙ sym is_letter) rest)

  -- A replay of a letter whose event is being processed or has been processed is refused with the 409
  -- that names the status, once the database has given out the letter and the event.
  pub prepare-refused :
      (letter : DlqMessage) (event_id : String) (body : Json) (row : Event) (d d₁ d₂ : Db)
      → lock_letter id d ≡ ok (some letter, d₁)
      → nonempty_text letter.event_id ≡ some event_id
      → stored_message parse_json letter ≡ some body
      → lock_event event_id d₁ ≡ ok (some row, d₂)
      → is_replayable row.status ≡ false
      → prepare db parse_json now id d ≡ err (status_error row.status)
  unfolding prepare with_letter with_event_id with_body restart admit
  prepare-refused letter event_id body row d d₁ d₂ l n b e no_replay =
      rw (l, n, b, and_then, with_letter, with_event_id, with_body)
        (rw (e, and_then) (rw no_replay refl))
