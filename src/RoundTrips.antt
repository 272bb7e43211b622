-- ===== src/RoundTrips.antt =====
-- What one process publishes, the other reads back: retries, dead letters and replays.
use async_webhook_ingestion.Prelude.{
  ⊤, List, [], ◌∷◌, ◌++◌, Result, ok, err, ◌∙◌, Result-cases, ℕ, String, ◌≡◌, refl, ap, Bool, true,
  false, Option, none, some, ◌==◌, get_or, arith, Bool-cases, inl, inr, ◌&&◌,
}
use mathlib.Core.List.{append_assoc}
use async_webhook_ingestion.Json.{
  Json, null, bool, num, str, arr, obj, nat, as_string, property, truthy, is_object_type,
}
use async_webhook_ingestion.Messaging.{Publication, RetryTier, delivery_of, json}
use async_webhook_ingestion.Events.Database.{dead_letter_row}
use async_webhook_ingestion.Consumer.Handler.{HandledEvent}
use async_webhook_ingestion.Consumer.Messages.{
  dead_letter_publication, dead_letter_for, retry_publication, payload_or_empty, event_of,
  event_id_of, is_continuation, parse, correlation_of,
}
use async_webhook_ingestion.Consumer.DeadLetters.{letter_values, parse_dead}
use async_webhook_ingestion.Consumer.Messages.{dead_letter_unparseable}
use async_webhook_ingestion.Consumer.Handler.{OrderHandler}
use async_webhook_ingestion.Consumer.Orders.{Verdict, ack, handle, dead_stage}
use async_webhook_ingestion.Consumer.Orders.Laws.Handle.{buried, handle-unparseable}
use async_webhook_ingestion.Errors.{Thrown}
use async_webhook_ingestion.Messaging.{Delivery}
use async_webhook_ingestion.Events.Database.{Database}
use async_webhook_ingestion.Worker.{World, Effect, publish, emit, count_event}
use async_webhook_ingestion.Dlq.Prepare.{stored_message, nonempty_text}
use async_webhook_ingestion.Dlq.Replay.{replay_publication}

-- The body of a publication of JSON, and the law of `JSON.stringify` that is needed of it.
abbrev pub body : Publication → Json
body p = elim p.content [ json j ↦ j | _ ↦ null ]

payload_again :
    (o : Option Json) → payload_or_empty (some (payload_or_empty o)) ≡ payload_or_empty o
payload_again none = refl
payload_again (some p) = elim (Bool-cases (truthy p && is_object_type p)) [
  | inl taken ↦ rw taken (rw taken refl)
  | inr left ↦ rw left refl
]

module _ (parse_json : String → Option Json) (stringify : Json → String) where
  -- A retry that is published for an event arrives as the same event: same id, type, correlation id
  -- and payload, and as a continuation, also when it is redelivered. The event is one that the
  -- consumer made of a message, its id and correlation id are not empty, and `JSON.parse` takes the
  -- body back from its text.
  pub retry_round_trip :
      (id correlation_id uuid : String) (parsed : Json) (t : RetryTier) (n : ℕ) (redelivered : Bool)
      → (id == "") ≡ false
      → (correlation_id == "") ≡ false
      → let event = event_of id correlation_id parsed in
        let p = retry_publication event t n in
        let m = delivery_of stringify redelivered p in
        parse_json m.raw ≡ some (body p)
        → (event_id_of (parse parse_json m.raw) ≡ some id)
          × (event_of id (correlation_of parse_json uuid m) (parse parse_json m.raw) ≡ event)
          × (is_continuation m ≡ true)
  unfolding retry_publication correlation_of is_continuation
  retry_round_trip id correlation_id uuid parsed t n redelivered i c back = (
    rw back (rw i refl),
    rw (back, c)
        (ap
          (λ (payload : Json). record {
            event_id = id;
            event_type = get_or (as_string (property "event_type" parsed)) "unknown";
            correlation_id = correlation_id;
            payload = payload;
          })
          (payload_again (property "payload" parsed))),
    refl,
  )

  -- A dead letter that the consumer publishes for an event is read back field by field: the event's
  -- id is the letter's id and message id, and reason, attempts, correlation id and the original text
  -- are those of the letter.
  pub dead_letter_round_trip :
      (raw reason : String) (event : HandledEvent) (n : ℕ) (redelivered : Bool)
      → (event.event_id == "") ≡ false
      → (event.correlation_id == "") ≡ false
      → let p = dead_letter_publication (dead_letter_for raw event n reason) in
        let m = delivery_of stringify redelivered p in
        parse_json m.raw ≡ some (body p)
        → letter_values (parse_dead parse_json m.raw) m ≡ record {
          message_id = some event.event_id;
          correlation_id = event.correlation_id;
          event_id = some event.event_id;
          reason = reason;
          attempts = nat n;
          payload = raw;
        }
  unfolding dead_letter_publication
  dead_letter_round_trip raw reason event n redelivered i c back = rw back (rw (i, c) refl)

  -- The row of such a letter, one of an event, can be replayed, whatever id and time the database gives it: if the
  -- original text is a message with that event id, then the row names the event, its stored message is
  -- the original one, and the replay of it arrives as a continuation that names the same event.
  pub replay_round_trip :
      (raw reason row_id : String) (at n : ℕ) (event : HandledEvent) (message : Json)
      (redelivered : Bool)
      → (event.event_id == "") ≡ false
      → (raw == "") ≡ false
      → parse_json raw ≡ some message
      → event_id_of message ≡ some event.event_id
      → parse_json (stringify message) ≡ some message
      → let letter = dead_letter_row row_id at (record {
        message_id = some event.event_id;
        correlation_id = event.correlation_id;
        event_id = some event.event_id;
        reason = reason;
        attempts = nat n;
        payload = raw;
      }) in
        let m = delivery_of stringify redelivered (
          replay_publication (record {
            event_id = event.event_id;
            correlation_id = event.correlation_id;
            body = message;
          })) in
        (nonempty_text letter.event_id ≡ some event.event_id)
        × (stored_message parse_json letter ≡ some message)
        × (event_id_of (parse parse_json m.raw) ≡ some event.event_id)
        × (is_continuation m ≡ true)
  unfolding stored_message replay_publication is_continuation
  replay_round_trip raw reason row_id at n event (obj fs) redelivered i r parsed named back =
      (rw i refl, rw r (rw parsed refl), rw back named, refl)
  replay_round_trip raw reason row_id at n event null redelivered i r parsed named back = cc
  replay_round_trip raw reason row_id at n event (bool b) redelivered i r parsed named back =
      absurd (ground arith)
  replay_round_trip raw reason row_id at n event (num b) redelivered i r parsed named back =
      absurd (ground arith)
  replay_round_trip raw reason row_id at n event (str b) redelivered i r parsed named back =
      absurd (ground arith)
  replay_round_trip raw reason row_id at n event (arr b) redelivered i r parsed named back = cc

  -- A message without an event id, which no attempt to process it could serve, is not lost: if its
  -- delivery is acknowledged, then the broker has confirmed a letter, no row has changed, and the
  -- dead-letter consumer reads that letter as one without an event, with the text of the message as it
  -- came, its correlation id and no attempts, provided that this id is not empty and that
  -- `JSON.parse` takes the letter back from its text.
  pub unparseable_kept :
      (db : Database) (broker : Publication → Result Thrown ⊤) (handler : OrderHandler)
      (max_attempts : ℕ) (uuid : String) (d : Delivery) (w : World db.Db) (redelivered : Bool)
      → event_id_of (parse parse_json d.raw) ≡ none
      → (correlation_of parse_json uuid d == "") ≡ false
      → let p =
          dead_letter_publication
            (dead_letter_unparseable d.raw (correlation_of parse_json uuid d)) in
        let m = delivery_of stringify redelivered p in
        parse_json m.raw ≡ some (body p)
        → (handle db broker handler max_attempts parse_json uuid d w).0 ≡ ok ack
        → (broker p ≡ ok tt)
          × ((reports : List Effect) × ((handle db broker handler max_attempts parse_json uuid d
                  w).1.log
                ≡ (w.log ++ publish p ∷ []) ++ reports))
          × (db.rows (handle db broker handler max_attempts parse_json uuid d w).1.db
              ≡ db.rows w.db)
          × (letter_values (parse_dead parse_json m.raw) m ≡ record {
            message_id = none;
            correlation_id = correlation_of parse_json uuid d;
            event_id = none;
            reason = "unparseable payload or missing event_id";
            attempts = nat 0;
            payload = d.raw;
          })
  unfolding dead_letter_publication
  unparseable_kept db broker handler max_attempts uuid d w redelivered e c back h =
      let letter = dead_letter_unparseable d.raw (correlation_of parse_json uuid d) in
      let p = dead_letter_publication letter in
      let after =
        λ (r : Result Thrown ⊤). buried db broker handler max_attempts parse_json uuid d r w in
      let end = handle-unparseable db broker handler max_attempts parse_json uuid d w e in
      elim (Result-cases (broker p)) [
        | inl (u, sent) ↦
            let done = end ∙ ap after sent in
            (
              sent,
              (
                emit (dead_stage letter "unknown") ∷ count_event "unparseable" ∷ [],
                ap (λ out. out.1.log) done
                    ∙ append_assoc (w.log ++ publish p ∷ [])
                        (emit (dead_stage letter "unknown") ∷ []) (count_event "unparseable" ∷ []),
              ),
              ap (λ out. db.rows out.1.db) done,
              rw back (rw c refl),
            )
        | inr (x, refused) ↦ absurd (
            refused_not_acked (handle db broker handler max_attempts parse_json uuid d w).0 x
              (ap (λ out. out.0) (end ∙ ap after refused)) h)
      ]
    where
      refused_not_acked : (r : Result Thrown Verdict) (x : Thrown) → r ≡ err x → r ≡ ok ack → ⊥
      refused_not_acked r x refused h = cc
