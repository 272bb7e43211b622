-- ===== src/Consumer/Orders/Laws/Follow.antt =====
-- What follows the processor's decision.
use mathlib.Core.List.{append_assoc}
use async_webhook_ingestion.Prelude.{
  ⊤, ℕ, String, ◌≡◌, ◌≢◌, refl, ◌⊎◌, inl, inr, Option, none, some, List, [], ◌∷◌, ◌++◌, Result, ok,
  err, Result-cases,
}
use async_webhook_ingestion.Errors.{Thrown}
use async_webhook_ingestion.Messaging.{Publication, RetryTier, retry_tier_for_attempt}
use async_webhook_ingestion.Events.Database.{Database}
use async_webhook_ingestion.Worker.{World, Effect, publish, emit, and_then, pure}
use async_webhook_ingestion.Worker.Logs.{Sent, and_then-ok, and_then-err}
use async_webhook_ingestion.Consumer.Handler.{
  HandledEvent, ProcessDecision, processed, duplicate, retry, dead,
}
use async_webhook_ingestion.Consumer.Messages.{
  DeadLetter, dead_letter_for, dead_letter_publication, retry_publication,
}
use async_webhook_ingestion.Consumer.Orders.{ack, requeue, bury, publish_retry, follow, dead_stage}

-- What has to be in the broker's hands before a decision may be acknowledged: nothing for an event
-- that is settled, the retry message in the queue of its tier, or the dead letter.
abbrev pub Followed :
    (Publication → Result Thrown ⊤)
    → (raw : String) → HandledEvent
    → ProcessDecision
    → (l l' : List Effect) → Type 0
Followed broker raw event (processed n) l l' = ⊤
Followed broker raw event (duplicate n) l l' = ⊤
Followed broker raw event (retry n) l l' =
    (t : RetryTier) × (retry_tier_for_attempt n ≡ some t)
    × Sent broker (retry_publication event t n) l l'
Followed broker raw event (dead n reason) l l' =
    Sent broker (dead_letter_publication (dead_letter_for raw event n reason)) l l'

module _ (db : Database) (broker : Publication → Result Thrown ⊤) where
  open db use {Db}

  abbrev letter_publication : DeadLetter → Publication
  letter_publication letter = dead_letter_publication letter

  -- Burying a letter: the broker has it, or the error comes through and nothing follows.
  pub bury-cases :
      (letter : DeadLetter) (event_type : String) (w : World Db)
      → (((bury db broker letter event_type w).0 ≡ ok tt)
          × Sent broker
              (dead_letter_publication letter)
              w.log
              (bury db broker letter event_type w).1.log
          × ((bury db broker letter event_type w).1.db ≡ w.db))
        ⊎ ((e : Thrown) × ((bury db broker letter event_type w).0 ≡ err e)
            × (broker (dead_letter_publication letter) ≡ err e)
            × ((bury db broker letter event_type w).1.db ≡ w.db)
            × ((bury db broker letter event_type w).1.log
                ≡ w.log ++ publish (dead_letter_publication letter) ∷ []))
  unfolding bury
  bury-cases letter event_type w = elim (Result-cases (broker (dead_letter_publication letter))) [
    | inl (u, sent) ↦ inl (
      rw (sent, and_then) refl,
      (
        sent,
        [],
        emit (dead_stage letter event_type) ∷ [],
        rw (sent, and_then)
            (append_assoc w.log (publish (dead_letter_publication letter) ∷ [])
              (emit (dead_stage letter event_type) ∷ [])),
      ),
      rw (sent, and_then) refl,
    )
    | inr (e, refused) ↦ inr (
      e,
      rw (refused, and_then) refl,
      refused,
      rw (refused, and_then) refl,
      rw (refused, and_then) refl,
    )
  ]

  publish_retry-db :
      (event : HandledEvent) (n : ℕ) (o : Option RetryTier) (w : World Db)
      → (publish_retry db broker event n o w).1.db ≡ w.db
  unfolding publish_retry
  publish_retry-db event n none w = refl
  publish_retry-db event n (some t) w = elim (Result-cases (broker (retry_publication event t n))) [
    | inl (u, sent) ↦ rw (sent, and_then) refl
    | inr (e, refused) ↦ rw (refused, and_then) refl
  ]

  publish_retry-acked :
      (event : HandledEvent) (n : ℕ) (o : Option RetryTier) (w : World Db)
      → (publish_retry db broker event n o w).0 ≡ ok ack
      → (t : RetryTier) × (o ≡ some t)
        × Sent broker
            (retry_publication event t n)
            w.log
            (publish_retry db broker event n o w).1.log
  unfolding publish_retry
  publish_retry-acked event n none w h = cc
  publish_retry-acked event n (some t) w h =
      elim (Result-cases (broker (retry_publication event t n))) [
        | inl (u, sent) ↦ (t, refl, (sent, [], [], rw (sent, and_then) refl))
        | inr (e, refused) ↦ cc (rw (refused, and_then) at h)
      ]

  publish_retry-ne-requeue :
      (event : HandledEvent) (n : ℕ) (o : Option RetryTier) (w : World Db)
      → (publish_retry db broker event n o w).0 ≢ ok requeue
  unfolding publish_retry
  publish_retry-ne-requeue event n none w h = cc
  publish_retry-ne-requeue event n (some t) w h =
      elim (Result-cases (broker (retry_publication event t n))) [
        | inl (u, sent) ↦ cc (rw (sent, and_then) at h)
        | inr (e, refused) ↦ cc (rw (refused, and_then) at h)
      ]

  -- After the processor nothing touches the database.
  pub follow-db :
      (raw : String) (event : HandledEvent) (d : ProcessDecision) (w : World Db)
      → (follow db broker raw event d w).1.db ≡ w.db
  unfolding follow
  follow-db raw event (processed n) w = refl
  follow-db raw event (duplicate n) w = refl
  follow-db raw event (retry n) w = publish_retry-db event n (retry_tier_for_attempt n) w
  follow-db raw event (dead n reason) w =
      let letter = dead_letter_for raw event n reason in
      elim (bury-cases letter event.event_type w) [
        | inl (done, sent, same) ↦
            rw (and_then-ok (bury db broker letter event.event_type w) (λ _. pure ack) done) same
        | inr (e, failed, refused, same, log) ↦
            rw
              (and_then-err (bury db broker letter event.event_type w) (λ (_ : ⊤). pure ack) failed)
              same
      ]

  pub follow-acked :
      (raw : String) (event : HandledEvent) (d : ProcessDecision) (w : World Db)
      → (follow db broker raw event d w).0 ≡ ok ack
      → Followed broker raw event d w.log (follow db broker raw event d w).1.log
  unfolding follow
  follow-acked raw event (processed n) w h = tt
  follow-acked raw event (duplicate n) w h = tt
  follow-acked raw event (retry n) w h = publish_retry-acked event n (retry_tier_for_attempt n) w h
  follow-acked raw event (dead n reason) w h =
      let letter = dead_letter_for raw event n reason in
      elim (bury-cases letter event.event_type w) [
        | inl (done, sent, same) ↦
            rw (and_then-ok (bury db broker letter event.event_type w) (λ _. pure ack) done) sent
        | inr (e, failed, refused, same, log) ↦ cc (
            rw
              (and_then-err (bury db broker letter event.event_type w) (λ (_ : ⊤). pure ack) failed)
              at h)
      ]

  -- A decision never puts the message back.
  pub follow-ne-requeue :
      (raw : String) (event : HandledEvent) (d : ProcessDecision) (w : World Db)
      → (follow db broker raw event d w).0 ≢ ok requeue
  unfolding follow publish_retry
  follow-ne-requeue raw event (processed n) w h = cc
  follow-ne-requeue raw event (duplicate n) w h = cc
  follow-ne-requeue raw event (retry n) w h =
      publish_retry-ne-requeue event n (retry_tier_for_attempt n) w h
  follow-ne-requeue raw event (dead n reason) w h =
      let letter = dead_letter_for raw event n reason in
      elim (bury-cases letter event.event_type w) [
        | inl (done, sent, same) ↦
            cc (
              rw (and_then-ok (bury db broker letter event.event_type w) (λ _. pure ack) done) at h)
        | inr (e, failed, refused, same, log) ↦ cc (
            rw
              (and_then-err (bury db broker letter event.event_type w) (λ (_ : ⊤). pure ack) failed)
              at h)
      ]
