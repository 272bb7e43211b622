-- ===== src/Telemetry/Gateway.antt =====
-- src/telemetry/telemetry.gateway.ts: envelopes from the telemetry exchange, relayed to the sockets.
-- The socket library is an interface: who is connected, and the rooms that clients join and leave.
pub mod Laws
use Prim.Native.String
use async_webhook_ingestion.Prelude.{
  ⊤, String, Bool, true, false, ◌&&◌, ◌||◌, not, ◌≡◌, Option, none, some, List, [], ◌∷◌, Result, ok,
  err, ◌==◌, get_or, if◌then◌else◌,
}
use async_webhook_ingestion.Json.{Json, as_nonempty, as_string, property}
use async_webhook_ingestion.Errors.{Thrown}

pub record Sockets : Type 1 where
  pub S : Type 0
  pub connected : S → (client : String) → Bool
  pub joined : S → (client room : String) → Bool
  pub join : (client room : String) → S → S
  pub leave : (client room : String) → S → S
  pub join-joined :
      (client room other place : String) (s : S)
      → joined (join client room s) other place
        ≡ ((client == other && room == place) || joined s other place)
  pub leave-joined :
      (client room other place : String) (s : S)
      → joined (leave client room s) other place
        ≡ (not (client == other && room == place) && joined s other place)

abbrev pub telemetry_feed_event : String
telemetry_feed_event = "telemetry"

abbrev pub telemetry_scoped_event : String
telemetry_scoped_event = "telemetry:correlation"

unfoldable pub correlation_room : String → String
correlation_room correlation_id = String.◌++◌ "correlation:" correlation_id

pub record SubscriptionAck : Type 0 where
  pub correlation_id : Option String

-- `server.emit(event, envelope)`, and `server.to(room).emit(event, envelope)`.
pub data Emission : Type 0 where
  everyone : (event : String) (envelope : Json) → Emission
  to_room : (room event : String) (envelope : Json) → Emission

module _ (sockets : Sockets) where
  abbrev subscribe_to : String → Option String → sockets.S → SubscriptionAck × sockets.S
  subscribe_to client none s = (record { correlation_id = none }, s)
  subscribe_to client (some id) s =
      (record { correlation_id = some id }, sockets.join client (correlation_room id) s)

  unfoldable pub subscribe :
      (client : String) → Option Json → sockets.S → SubscriptionAck × sockets.S
  subscribe client body s = subscribe_to client (as_nonempty body) s

  abbrev unsubscribe_from : String → Option String → sockets.S → SubscriptionAck × sockets.S
  unsubscribe_from client none s = (record { correlation_id = none }, s)
  unsubscribe_from client (some id) s =
      (record { correlation_id = some id }, sockets.leave client (correlation_room id) s)

  unfoldable pub unsubscribe :
      (client : String) → Option Json → sockets.S → SubscriptionAck × sockets.S
  unsubscribe client body s = unsubscribe_from client (as_nonempty body) s

abbrev pub envelope_room : Json → String
envelope_room envelope =
    correlation_room (get_or (as_string (property "correlation_id" envelope)) "undefined")

-- The emissions that are done, by what each of the two calls does: an error of the first one stops the
-- second, and either error is caught and logged.
abbrev emissions : Json → Result Thrown ⊤ → Result Thrown ⊤ → List Emission
emissions envelope (err e) scoped = []
emissions envelope (ok u) (err e) = everyone telemetry_feed_event envelope ∷ []
emissions envelope (ok u) (ok v) =
    everyone telemetry_feed_event envelope
    ∷ to_room (envelope_room envelope) telemetry_scoped_event envelope
    ∷ []

unfoldable pub broadcast :
    (has_server : Bool) (emits : Emission → Result Thrown ⊤) → Json → List Emission
broadcast has_server emits envelope =
    if has_server
    then emissions envelope (emits (everyone telemetry_feed_event envelope))
        (emits (to_room (envelope_room envelope) telemetry_scoped_event envelope))
    else []

module _ (sockets : Sockets) where
  -- The event and the envelope that a client gets by an emission.
  abbrev pub received_by : sockets.S → String → Emission → List (String × Json)
  received_by s client (everyone event envelope) =
      if sockets.connected s client then (event, envelope) ∷ [] else []
  received_by s client (to_room room event envelope) =
      if sockets.connected s client && sockets.joined s client room
      then (event, envelope) ∷ []
      else []
