-- ===== src/Lib.antt =====
-- A model of the asynchronous webhook ingestion service: signed order webhooks come in over HTTP, are
-- queued in RabbitMQ with publisher confirms, and a worker handles each event at most once with
-- retries, dead letters and replays; a web board shows the worker's telemetry. Paths are from the
-- repository's root.
--
-- The parts and their files:
-- * Boundary (src/common/timing-safe.ts), Boundary.Signature (src/webhooks/webhook-signature.guard.ts)
--   and Boundary.AdminKey (src/dlq/admin-key.guard.ts) are the guards: `canActivate` is
--   `can_activate`. SHA-256, HMAC and `timingSafeEqual` are the record `Crypto`, `Number` an argument.
-- * Webhooks.Publisher (src/webhooks/rabbit-event-publisher.ts) and Timeout
--   (src/common/with-timeout.ts) publish an accepted event. The map `pendingReturns` is state;
--   `publish` is cut at its `await` into `begin_publish` and `finish_publish`, so that publishes and
--   returned messages interleave. Webhooks.Ingest (src/webhooks/webhooks.controller.ts) answers, and
--   Webhooks.Endpoint puts the guard, the validation by src/webhooks/dto/order-webhook.dto.ts and the
--   answer in the order in which a request meets them.
-- * Messaging (src/messaging/messaging.constants.ts, src/messaging/messaging.module.ts) holds the
--   names, the retry tiers, the declared queues, and what is published and delivered.
-- * Events (src/events) holds the rows of the two tables. Events.Database is the interface of the
--   database: its operations are the statements that the code runs, each of which may fail; its laws
--   say what a statement that succeeds does, with the unique indexes, and that a transaction that
--   fails leaves the rows as they were. A statement with an order gives the rows in some such order,
--   and may put equal ones either way. It has an instance in memory. The columns of `events` that
--   only the database sets and no code reads (`id`, `created_at`, `updated_at`) are left out.
-- * Worker is what the worker's code runs in: the database, and the log of its effects on the broker,
--   the telemetry and the metrics. Telemetry (src/telemetry/telemetry-emitter.ts) makes the envelopes.
-- * Consumer.Claim (`claimAndHandle` of src/consumer/idempotent-event-processor.ts) is the transaction
--   that claims an event and runs the handler of Consumer.Handler (src/consumer/order-handler.ts);
--   Consumer.Processor is `process` around it. Consumer.Claim.Machine describes the row's life as a
--   state machine without the database; Consumer.Claim.Refinement relates the two.
-- * Consumer.Orders with Consumer.Messages (src/consumer/order-consumer.ts) and Errors
--   (src/consumer/processing-errors.ts) is the consumer of the work queue, with the verdict on the
--   message: acknowledged, put back, or an error that leaves the handler.
-- * Consumer.DeadLetters (src/consumer/dlq-consumer.ts) records dead letters.
-- * Dlq.Prepare and Dlq.Replay (src/dlq/dlq-replay.service.ts) replay them; Dlq.Listing and Dlq.Discard
--   (src/dlq/dlq.controller.ts, src/dlq/dlq-query.dto.ts) list them and remove one.
-- * Pipeline puts deliveries, dead letters and replays of one event in any order; RoundTrips follows a
--   message from the process that publishes it to the one that reads it.
-- * Telemetry.Gateway (src/telemetry/telemetry.gateway.ts) relays envelopes to the sockets; the socket
--   library is the record `Sockets`. Board.Socket (web/src/lib/socket.ts) is the board's end.
-- * Board is the web board: Board.Stages (web/src/lib/telemetry.ts), Board.Tokens and Board.Reducer
--   (web/src/state/reducer.ts), Board.Signing (web/src/lib/hmac.ts), Board.Api (web/src/lib/api.ts),
--   Board.Scenarios (web/src/lib/scenarios.ts) and Board.Store (web/src/state/useDemoStore.ts).
--   Board.Answers sends what the buttons send through the endpoint.
-- * Board.Graph (web/src/lib/stages.ts), Board.Path, Board.Walk and Board.View
--   (web/src/components/Pipeline.tsx) are the drawing of the pipeline: the path of a token, the walk of
--   its ball in ticks, with pause and steps, and what is shown of it. A tick is a call of the interval's
--   function, which the component runs while the view is paced and not paused. Board.Panel
--   (web/src/components/DlqPanel.tsx) is the list of dead letters, and Board.Overview (web/src/App.tsx)
--   what the page keeps and hands to its panels.
-- * Service is around the handlers: Service.Correlation (src/common/correlation.middleware.ts),
--   Service.Logger (src/common/json-logger.ts), Service.Health (src/health/health.controller.ts), and
--   Service.Start (src/main.ts, src/app.module.ts, the metrics server of the worker).
-- * Webhooks.Poison (src/webhooks/demo-poison.controller.ts, src/common/demo-mode.ts) injects a broken
--   message in demo mode.
-- * Environment (src/config/env.validation.ts) is `validateEnv`; Consumer.Demo
--   (src/consumer/demo-order-handler.ts) is a handler.
-- * Json holds JSON values; `JSON.parse` and `JSON.stringify` are arguments where the code calls them.
--
-- Conventions. Numbers of attempts and milliseconds are natural numbers; a number of a message may be
-- any, and is kept by its text. A function that may throw gives a `Result`, or, in the reducer, an
-- `Option`. All recursion is on lists, texts and counted loops, so that there is no fuel and every
-- operation returns. What the broker confirms, what the handler does, the time and fresh ids are
-- arguments. A subtraction stops at 0 where the source's result is only compared with a positive
-- number, or is cut at 0 by the source too.
--
-- Not modelled: the framework (routing, throttling, dependency injection) and the calls of the socket,
-- metrics and database libraries, migrations, the options of the connections, and the markup, the
-- positions in pixels and the animation of the board. The rounding of floating-point numbers is not
-- modelled: the rounded share in `percentile` is an argument. Log lines of the handlers are left out of
-- what they do. Concurrent transactions are taken one after another, as the row lock makes them for one
-- event; of the board's scenario runs one is followed at a time.
pub mod Prelude
pub mod Json
pub mod Errors
pub mod Messaging
pub mod Events
pub mod Telemetry
pub mod Worker
pub mod Consumer
pub mod Timeout
pub mod Dlq
pub mod Boundary
pub mod Webhooks
pub mod Pipeline
pub mod RoundTrips
pub mod Board
pub mod Environment
mod Examples
pub mod Service
