-- ===== src/Board/Socket/Laws.antt =====
-- From the worker's envelope to the board's handler.
use async_webhook_ingestion.Prelude.{
  ⊤, String, Bool, true, false, ◌≡◌, refl, ap, ◌∙◌, List, [], ◌∷◌, ◌++◌, Result, ok, if◌then◌else◌,
}
use async_webhook_ingestion.Json.{Json}
use async_webhook_ingestion.Errors.{Thrown}
use async_webhook_ingestion.Telemetry.{TelemetryStageInput, envelope}
use async_webhook_ingestion.Telemetry.Gateway.{
  Sockets, Emission, broadcast, correlation_room, telemetry_feed_event, telemetry_scoped_event,
}
use async_webhook_ingestion.Telemetry.Gateway.Laws.{frames, broadcast-frames}
use async_webhook_ingestion.Board.Feed.{envelope-accepted}
use async_webhook_ingestion.Board.Socket.{Handled, on_envelope, ignored, deliver, on_frame}

-- The envelopes that the board's handler is called with.
abbrev pub envelope_of : Handled → List Json
envelope_of ignored = []
envelope_of (Handled.unknown_version raw) = []
envelope_of (on_envelope raw) = raw ∷ []

abbrev pub handled : List (String × Json) → List Json
handled [] = []
handled (f ∷ fs) = envelope_of (on_frame f) ++ handled fs

deliver-envelope :
    (ts : String) (input : TelemetryStageInput)
    → deliver (envelope ts input) ≡ on_envelope (envelope ts input)
unfolding deliver
deliver-envelope ts input =
    let (known, supported) = envelope-accepted ts input in rw (known, supported) refl

scoped_ignored :
    (b : Bool) (e : Json) → handled (if b then (telemetry_scoped_event, e) ∷ [] else []) ≡ []
unfolding on_frame
scoped_ignored true e = refl
scoped_ignored false e = refl

module _ (sockets : Sockets) where
  -- Every envelope that the worker publishes reaches the handler of a connected board once, unchanged,
  -- whichever rooms its socket is in, if the gateway's emissions do not throw.
  pub broadcast-handled :
      (s : sockets.S) (client ts : String) (input : TelemetryStageInput)
      (emits : Emission → Result Thrown ⊤)
      → sockets.connected s client ≡ true
      → emits (Emission.everyone telemetry_feed_event (envelope ts input)) ≡ ok tt
      → emits (
          Emission.to_room
            (correlation_room input.correlation_id)
            telemetry_scoped_event
            (envelope ts input))
        ≡ ok tt
      → handled (frames sockets s client (broadcast true emits (envelope ts input)))
        ≡ envelope ts input ∷ []
  unfolding on_frame
  broadcast-handled s client ts input emits here feed scoped =
      ap handled (broadcast-frames sockets s client ts input emits here feed scoped)
      ∙ ap
          (λ h.
            envelope_of h
            ++ handled (
                if sockets.joined s client (correlation_room input.correlation_id)
                then (telemetry_scoped_event, envelope ts input) ∷ []
                else []))
          (deliver-envelope ts input)
      ∙ ap (λ rest. envelope ts input ∷ rest)
          (scoped_ignored (sockets.joined s client (correlation_room input.correlation_id))
            (envelope ts input))
