-- ===== src/Examples/Relay.antt =====
-- The relay of telemetry to the board, on sockets kept as a table.
use async_webhook_ingestion.Prelude.{
  ⊤, String, Bool, true, not, ◌&&◌, ◌||◌, ◌≡◌, refl, none, [], ◌∷◌, Result, ok, ◌==◌,
}
use async_webhook_ingestion.Errors.{Thrown}
use async_webhook_ingestion.Telemetry.{TelemetryStage, TelemetryStageInput, envelope}
use async_webhook_ingestion.Telemetry.Gateway.{Sockets, Emission, broadcast}
use async_webhook_ingestion.Telemetry.Gateway.Laws.{frames}
use async_webhook_ingestion.Board.Socket.Laws.{handled, broadcast-handled}

-- Every client is connected; the rooms are a table.
abbrev room_table : Sockets
room_table = record {
  S = String → String → Bool;
  connected = λ s client. true;
  joined = λ s client room. s client room;
  join = λ client room s other place. (client == other && room == place) || s other place;
  leave = λ client room s other place. not (client == other && room == place) && s other place;
  join-joined = λ client room other place s. refl;
  leave-joined = λ client room other place s. refl;
}

abbrev dead_input : TelemetryStageInput
dead_input = record {
  stage = TelemetryStage.dead;
  correlation_id = "corr_1";
  event_id = none;
  event_type = "unknown";
  status = "dead";
  attempts = 0;
}

abbrev emits : Emission → Result Thrown ⊤
emits e = ok tt

-- A board that has joined every room.
broadcast-handled_example :
    handled (
      frames room_table
        (λ client room. true)
        "board"
        (broadcast true emits (envelope "t1" dead_input)))
    ≡ envelope "t1" dead_input ∷ []
broadcast-handled_example =
    broadcast-handled room_table (λ client room. true) "board" "t1" dead_input emits refl refl refl
