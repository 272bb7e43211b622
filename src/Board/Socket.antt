-- ===== src/Board/Socket.antt =====
-- web/src/lib/socket.ts: what the board does with the frames of its socket.
pub mod Laws
use async_webhook_ingestion.Prelude.{
  String, Bool, true, false, not, Option, none, some, List, [], ◌∷◌, ◌==◌, if◌then◌else◌,
}
use async_webhook_ingestion.Json.{Json}
use async_webhook_ingestion.Board.Stages.{is_telemetry_envelope, is_supported_version}

abbrev pub feed_event : String
feed_event = "telemetry"

pub data ConnectionState : Type 0 where
  connecting connected disconnected : ConnectionState

-- What the handlers of the client are called with.
pub data Handled : Type 0 where
  ignored : Handled
  unknown_version : Json → Handled
  on_envelope : Json → Handled

unfoldable pub deliver : Json → Handled
deliver raw =
    if not (is_telemetry_envelope raw)
    then ignored
    else if not (is_supported_version raw)
    then unknown_version raw
    else on_envelope raw

-- Frames of other events have no listener.
unfoldable pub on_frame : String × Json → Handled
on_frame (event, raw) = if event == feed_event then deliver raw else ignored

pub data SocketEvent : Type 0 where
  connect disconnect reconnect_attempt : SocketEvent

abbrev pub state_on : SocketEvent → ConnectionState
state_on connect = connected
state_on disconnect = disconnected
state_on reconnect_attempt = connecting

-- The state that is reported last, from the report of the start on.
abbrev pub state_from : ConnectionState → List SocketEvent → ConnectionState
state_from state [] = state
state_from state (event ∷ events) = state_from (state_on event) events

abbrev pub state_after : List SocketEvent → ConnectionState
state_after events = state_from connecting events
