-- ===== src/Telemetry/Gateway/Laws.antt =====
-- Which clients of the gateway get an envelope.
use async_webhook_ingestion.Prelude.{
  ⊤, String, Bool, true, false, ◌&&◌, ◌≡◌, refl, ◌∙◌, some, List, [], ◌∷◌, ◌++◌, Result, ok, ◌==◌,
  eq_refl, if◌then◌else◌,
}
use async_webhook_ingestion.Json.{Json, str}
use async_webhook_ingestion.Errors.{Thrown}
use async_webhook_ingestion.Telemetry.{TelemetryStageInput, envelope}
use async_webhook_ingestion.Telemetry.Gateway.{
  Sockets, Emission, broadcast, received_by, correlation_room, telemetry_feed_event,
  telemetry_scoped_event, subscribe, unsubscribe,
}

module _ (sockets : Sockets) where
  open sockets use {S, connected, joined}

  -- What a client gets by a list of emissions.
  abbrev pub frames : S → String → List Emission → List (String × Json)
  frames s client [] = []
  frames s client (e ∷ es) = received_by sockets s client e ++ frames s client es

  -- A connected client gets each envelope of the worker once on the feed, and once more on the scoped
  -- channel exactly when it is in the room of the envelope's correlation id, if neither emission throws.
  pub broadcast-frames :
      (s : S) (client ts : String) (input : TelemetryStageInput)
      (emits : Emission → Result Thrown ⊤)
      → connected s client ≡ true
      → emits (Emission.everyone telemetry_feed_event (envelope ts input)) ≡ ok tt
      → emits (
          Emission.to_room
            (correlation_room input.correlation_id)
            telemetry_scoped_event
            (envelope ts input))
        ≡ ok tt
      → frames s client (broadcast true emits (envelope ts input))
        ≡ (telemetry_feed_event, envelope ts input)
          ∷ (if joined s client (correlation_room input.correlation_id)
              then (telemetry_scoped_event, envelope ts input) ∷ []
              else [])
  unfolding broadcast
  broadcast-frames s client ts input emits here feed scoped =
      rw (feed, scoped, here)
        (scoped_frame (joined s client (correlation_room input.correlation_id)) (envelope ts input))
    where
      frame : String → Json → String × Json
      frame event e = (event, e)

      scoped_frame :
          (b : Bool) (e : Json)
          → frame telemetry_feed_event e
              ∷ ((if true && b then frame telemetry_scoped_event e ∷ [] else []) ++ [])
            ≡ frame telemetry_feed_event e ∷ (if b then frame telemetry_scoped_event e ∷ [] else [])
      scoped_frame true e = refl
      scoped_frame false e = refl

  -- A subscription with an id is acknowledged and puts the client into the room of the id.
  subscribe-joined :
      (client id : String) (s : S)
      → (id == "") ≡ false
      → ((subscribe sockets client (some (str id)) s).0.correlation_id ≡ some id)
        × (joined (subscribe sockets client (some (str id)) s).1 client (correlation_room id)
            ≡ true)
  unfolding subscribe
  subscribe-joined client id s h = rw h (
    refl,
    sockets.join-joined client (correlation_room id) client (correlation_room id) s
        ∙ rw (eq_refl client, eq_refl (correlation_room id)) refl,
  )

  unsubscribe-joined :
      (client id : String) (s : S)
      → (id == "") ≡ false
      → joined (unsubscribe sockets client (some (str id)) s).1 client (correlation_room id) ≡ false
  unfolding unsubscribe
  unsubscribe-joined client id s h = rw h (
      sockets.leave-joined client (correlation_room id) client (correlation_room id) s
      ∙ rw (eq_refl client, eq_refl (correlation_room id)) refl)
