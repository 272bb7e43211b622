-- ===== src/Events/Database/Defs.antt =====
-- The rows, the effect of each statement on them, and the interface.
use async_webhook_ingestion.Prelude.{
  ⊤, ℕ, String, ◌≡◌, Bool, true, false, Option, none, some, List, ◌∷◌, map, Result, ok, err, ◌==◌,
  if◌then◌else◌, is_none, any, keep, find_first, length, take, drop, refl,
}
use async_webhook_ingestion.Errors.{Thrown}
use async_webhook_ingestion.Events.{Event, DlqMessage, NewEvent, NewDeadLetter}
use async_webhook_ingestion.Events.Database.Ordering.{Order, Answers}

-- What the tables hold: at most one event for an event id, by the unique index, and the dead
-- letters, the last one inserted first. The order is that of the model: a statement that wants one
-- asks for it.
pub record Rows : Type 0 where
  pub events : String → Option Event
  pub letters : List DlqMessage

-- The row that an insert makes, the columns that it does not name by their defaults.
abbrev pub new_row : NewEvent → Event
new_row e = record {
  event_id = e.event_id;
  event_type = e.event_type;
  status = e.status;
  attempts = 0;
  duplicate_count = 0;
  correlation_id = e.correlation_id;
  payload = e.payload;
  failure_reason = none;
}

abbrev pub set_event : String → Option Event → Rows → Rows
set_event id row r = record r { events = λ k. if k == id then row else r.events k }

-- INSERT … ON CONFLICT DO NOTHING, by the unique index on the event id.
abbrev pub insert_event_rows : NewEvent → Rows → Rows
insert_event_rows e r = elim (r.events e.event_id) [
  | none ↦ set_event e.event_id (some (new_row e)) r
  | some row ↦ r
]

-- UPDATE … WHERE event_id = id
abbrev pub update_event_rows : String → (Event → Event) → Rows → Rows
update_event_rows id f r = elim (r.events id) [
  | none ↦ r
  | some row ↦ set_event id (some (f row)) r
]

abbrev same_text : Option String → Option String → Bool
same_text none o = false
same_text (some s) none = false
same_text (some s) (some t) = s == t

-- Whether a dead letter with this message id is there; NULLs are never equal.
abbrev pub has_message_id : Option String → List DlqMessage → Bool
has_message_id m ls = any (λ l. same_text l.message_id m) ls

abbrev pub dead_letter_row : String → ℕ → NewDeadLetter → DlqMessage
dead_letter_row id at l = record {
  id = id;
  message_id = l.message_id;
  correlation_id = l.correlation_id;
  event_id = l.event_id;
  reason = l.reason;
  attempts = l.attempts;
  payload = some l.payload;
  created_at = at;
  replayed_at = none;
}

-- INSERT … ON CONFLICT DO NOTHING, by the unique index on the message id.
abbrev pub insert_dead_letter_rows : DlqMessage → Rows → Rows
insert_dead_letter_rows l r =
    if has_message_id l.message_id r.letters then r else record r { letters = l ∷ r.letters }

abbrev pub find_letter : String → List DlqMessage → Option DlqMessage
find_letter id ls = find_first (λ l. l.id == id) ls

-- UPDATE dlq_messages SET replayed_at = at WHERE id = id
abbrev pub stamp : String → ℕ → DlqMessage → DlqMessage
stamp id at l = if l.id == id then record l { replayed_at = some at } else l

abbrev pub stamp_rows : String → ℕ → Rows → Rows
stamp_rows id at r = record r { letters = map (stamp id at) r.letters }

-- DELETE FROM dlq_messages WHERE id = id
abbrev pub delete_rows : String → Rows → Rows
delete_rows id r = record r { letters = keep (λ l. if l.id == id then false else true) r.letters }

-- A call in a transaction: it fails, and with it the transaction, or gives its result.
abbrev pub Tx : Type 0 → Type 0 → Type 0
Tx Db A = Db → Result Thrown (A × Db)

pub record Database : Type 1 where
  pub Db : Type 0
  pub rows : Db → Rows
  -- Whether the insert was made, which the code reads off the rows that the statement returns.
  pub insert_event : NewEvent → Tx Db Bool
  pub lock_event : String → Tx Db (Option Event)
  pub update_event : String → (Event → Event) → Tx Db ⊤
  -- The database chooses the row's id and its time of creation.
  pub new_letter_id : Db → String
  pub new_letter_at : Db → ℕ
  pub insert_dead_letter : NewDeadLetter → Tx Db ⊤
  pub lock_letter : String → Tx Db (Option DlqMessage)
  pub stamp_letter : String → ℕ → Tx Db ⊤
  -- The number of rows affected.
  pub delete_letter : String → Tx Db ℕ
  -- The dead letters in an order, `limit` of them at most after the first `skip`, and how many there
  -- are.
  pub page_letters : (order : Order) (skip limit : ℕ) → Tx Db (List DlqMessage)
  pub count_letters : Tx Db ℕ
  pub commit : Tx Db ⊤
  pub rollback : Db → Db
  pub insert_event_lem :
      (e : NewEvent) (d : Db) {claimed : Bool} {d' : Db}
      → insert_event e d ≡ ok (claimed, d')
      → (claimed ≡ is_none ((rows d).events e.event_id)) × (rows d' ≡ insert_event_rows e (rows d))
  pub lock_event_lem :
      (id : String) (d : Db) {row : Option Event} {d' : Db}
      → lock_event id d ≡ ok (row, d')
      → (row ≡ (rows d).events id) × (rows d' ≡ rows d)
  pub update_event_lem :
      (id : String) (f : Event → Event) (d : Db) {u : ⊤} {d' : Db}
      → update_event id f d ≡ ok (u, d')
      → rows d' ≡ update_event_rows id f (rows d)
  pub insert_dead_letter_lem :
      (l : NewDeadLetter) (d : Db) {u : ⊤} {d' : Db}
      → insert_dead_letter l d ≡ ok (u, d')
      → rows d'
        ≡ insert_dead_letter_rows (dead_letter_row (new_letter_id d) (new_letter_at d) l) (rows d)
  pub lock_letter_lem :
      (id : String) (d : Db) {row : Option DlqMessage} {d' : Db}
      → lock_letter id d ≡ ok (row, d')
      → (row ≡ find_letter id (rows d).letters) × (rows d' ≡ rows d)
  pub stamp_letter_lem :
      (id : String) (at : ℕ) (d : Db) {u : ⊤} {d' : Db}
      → stamp_letter id at d ≡ ok (u, d')
      → rows d' ≡ stamp_rows id at (rows d)
  pub delete_letter_lem :
      (id : String) (d : Db) {n : ℕ} {d' : Db}
      → delete_letter id d ≡ ok (n, d')
      → (n ≡ length (keep (λ l. l.id == id) (rows d).letters)) × (rows d' ≡ delete_rows id (rows d))
  pub page_letters_lem :
      (order : Order) (skip limit : ℕ) (d : Db) {page : List DlqMessage} {d' : Db}
      → page_letters order skip limit d ≡ ok (page, d')
      → ((found : List DlqMessage) × Answers order (rows d).letters found
          × (page ≡ take limit (drop skip found)))
        × (rows d' ≡ rows d)
  pub count_letters_lem :
      (d : Db) {n : ℕ} {d' : Db}
      → count_letters d ≡ ok (n, d')
      → (n ≡ length (rows d).letters) × (rows d' ≡ rows d)
  pub commit_lem : (d : Db) {u : ⊤} {d' : Db} → commit d ≡ ok (u, d') → rows d' ≡ rows d
  -- A transaction that fails leaves the rows as they were before it.
  pub rollback_lem : (d : Db) → rows (rollback d) ≡ rows d

-- A chain of calls in a transaction.
abbrev pub and_then :
    {Db A B : Type 0} → Result Thrown (A × Db) → (A → Tx Db B) → Result Thrown (B × Db)
and_then (ok (a, d)) f = f a d
and_then (err e) f = err e

infixl 5 ◌>>=◌ ◌>>◌
abbrev pub ◌>>=◌ : {Db A B : Type 0} → Tx Db A → (A → Tx Db B) → Tx Db B
◌>>=◌ m f d = and_then (m d) f

abbrev pub ◌>>◌ : {Db A B : Type 0} → Tx Db A → Tx Db B → Tx Db B
m >> k = m >>= λ _. k

abbrev pub return : {Db A : Type 0} → A → Tx Db A
return a d = ok (a, d)

abbrev pub throw : {Db A : Type 0} → Thrown → Tx Db A
throw e d = err e

-- Inversion of a chain that succeeds.
pub and_then-eq-ok :
    {Db A B : Type 0} (r : Result Thrown (A × Db)) (f : A → Tx Db B) {b : B} {d₂ : Db}
    → and_then r f ≡ ok (b, d₂)
    → (a : A) × (d₁ : Db) × (r ≡ ok (a, d₁)) × (f a d₁ ≡ ok (b, d₂))
and_then-eq-ok (ok (a, d)) f h = (a, d, refl, h)
and_then-eq-ok (err e) f h = cc
