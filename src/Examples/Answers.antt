-- ===== src/Examples/Answers.antt =====
-- Deliveries to a worker whose database and broker do their part.
use async_webhook_ingestion.Prelude.{
  ℕ, Option, some, true, false, [], ◌∷◌, ◌≡◌, refl, ok, is_none, none, ok-pair,
}
use async_webhook_ingestion.Json.{Json, obj, field, str, end}
use async_webhook_ingestion.Events.Database.{Database, in_memory, insert_event_rows}
use async_webhook_ingestion.Consumer.Orders.{ack, handle}
use async_webhook_ingestion.Consumer.Orders.Laws.Liveness.{Healthy, handle-acks}
use async_webhook_ingestion.Consumer.Handler.{HandledEvent, OrderHandler}
use async_webhook_ingestion.Boundary.Signature.{Finite}
use async_webhook_ingestion.Consumer.Claim.Machine.Series.{decisions}
use async_webhook_ingestion.Consumer.Demo.{demo_handler, scenario_of}
use async_webhook_ingestion.Consumer.Demo.Laws.{
  outcomes, four_deliveries, story, demo_handler-story,
}
use async_webhook_ingestion.Examples.{
  parse_two, delivery, accepts, no_rows, world, failing, order_event,
}

-- The rows in memory, without an event that is refused.
abbrev sound : Database
sound = record in_memory {
  insert_event = λ e r. ok (is_none (r.events e.event_id), insert_event_rows e r);
  insert_event_lem = λ e r h. ok-pair h;
}

sound-Healthy : Healthy sound
sound-Healthy = record {
  inserts = λ e d. (_, _, refl);
  locks = λ id d. (_, _, refl);
  updates = λ id f d. (_, _, refl);
  commits = λ d. (_, _, refl);
}

handle-acks_example :
    (handle sound accepts failing 4 parse_two "uuid" (delivery "order") (world no_rows)).0 ≡ ok ack
handle-acks_example =
    handle-acks sound sound-Healthy accepts (λ p. refl) failing 4 parse_two "uuid"
      (delivery "order") (world no_rows)

abbrev exhaust_event : HandledEvent
exhaust_event = record order_event { payload = obj (field "__scenario" (str "exhaust") end) }

-- An outage until the time 50.
abbrev until_fifty : Option Json → Option Finite
until_fifty v = some (record { is_negative = false; magnitude = 50; scale = 0 })

abbrev demo_at : ℕ → OrderHandler
demo_at now = demo_handler now until_fifty (λ n. "1")

-- The outage ends before the third attempt.
demo_handler-story_example :
    outcomes (
      decisions 4
        (four_deliveries (demo_at 10) (demo_at 40) (demo_at 70) (demo_at 190) exhaust_event)
        none)
    ≡ story (scenario_of exhaust_event) (true ∷ true ∷ false ∷ false ∷ [])
demo_handler-story_example = demo_handler-story until_fifty (λ n. "1") exhaust_event 10 40 70 190
