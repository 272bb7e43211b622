-- ===== src/Board.antt =====
-- web/src: what the demo board computes from its own requests and from the worker's telemetry.
pub mod Stages
pub mod Tokens
pub mod Reducer
pub mod Feed
pub mod Ladder
pub mod Signing
pub mod Graph
pub mod Path
pub mod Walk
pub mod View
pub mod Socket
pub mod Scenarios
pub mod Api
pub mod Answers
pub mod Panel
pub mod Store
pub mod Overview
