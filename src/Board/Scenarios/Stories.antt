-- ===== src/Board/Scenarios/Stories.antt =====
-- The stories of web/src/lib/scenarios.ts.
use async_webhook_ingestion.Prelude.{List, [], ◌∷◌, String}
use async_webhook_ingestion.Board.Scenarios.{StoryStep, StoryTone, info, good, again, bad}

abbrev step : StoryTone → String → StoryStep
step tone text = record { tone = tone; text = text }

abbrev pub happy_story : List StoryStep
happy_story =
    step info "Partner marketplace fires order.created for a fresh sale"
    ∷ step good "HMAC-SHA256 signature matches"
    ∷ step info "202 accepted, queued in RabbitMQ"
    ∷ step info "Worker checks: event_id never seen before"
    ∷ step good "Order inserted into PostgreSQL"
    ∷ []

abbrev pub invalid_signature_story : List StoryStep
invalid_signature_story =
    step info "Attacker (or partner with a rotated key) posts an order"
    ∷ step bad "Guard computes a different HMAC-SHA256"
    ∷ step bad "401 rejected at the front door"
    ∷ step info "Nothing reaches the queue or the database"
    ∷ []

abbrev pub stale_timestamp_story : List StoryStep
stale_timestamp_story =
    step info "A real webhook is captured and resent 10 minutes later"
    ∷ step info "Classic replay attack: valid signature, old request"
    ∷ step bad "Guard only accepts timestamps from the last 5 minutes"
    ∷ step bad "401 rejected"
    ∷ []

abbrev pub duplicated_story : List StoryStep
duplicated_story =
    step info "Our 202 got lost in the network, marketplace retries"
    ∷ step info "Same order arrives twice, both get 202"
    ∷ step info "Worker finds the event_id already in PostgreSQL"
    ∷ step good "Second delivery discarded: idempotency, no double order"
    ∷ []

abbrev pub transient_story : List StoryStep
transient_story =
    step bad "Processing fails: the database blinked for a moment"
    ∷ step again "Retry in 5s, fails again"
    ∷ step again "Retry in 30s"
    ∷ step good "Third attempt succeeds, order lands as if nothing happened"
    ∷ []

abbrev pub exhaust_story : List StoryStep
exhaust_story =
    step bad "A dependency goes down for 4 minutes straight"
    ∷ step again "Retries at 5s, 30s and 2min, every attempt fails"
    ∷ step bad "Attempt 4 was the last one, off to the dead-letter queue"
    ∷ step good "Replay from the DLQ succeeds once the 4min outage ends"
    ∷ []

abbrev pub permanent_story : List StoryStep
permanent_story =
    step bad "An error that no amount of retrying can fix"
    ∷ step info "Retrying forever would just burn the queue"
    ∷ step bad "Parked straight into the dead-letter queue"
    ∷ step info "A human inspects and replays it from the DLQ panel"
    ∷ []

abbrev pub poison_story : List StoryStep
poison_story =
    step info "A rogue producer writes garbage straight to the queue"
    ∷ step info "It never touched the API, so no guard could block it"
    ∷ step bad "The worker cannot parse an event_id out of the bytes"
    ∷ step bad "Dead-lettered on arrival, zero retries wasted"
    ∷ []

abbrev pub malformed_body_story : List StoryStep
malformed_body_story =
    step info "Trusted partner ships a buggy integration"
    ∷ step good "Signature is valid, the guard lets it through"
    ∷ step bad "But the body is missing event_id"
    ∷ step bad "400 at the validation pipe, nothing published"
    ∷ []
