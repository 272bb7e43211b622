-- ===== src/Service/Logger/Laws.antt =====
-- Which log lines are written.
use async_webhook_ingestion.Prelude.{ℕ, ◌≤◌, String, ◌≡◌, ◌≢◌, Option, none, some, List, arith}
use async_webhook_ingestion.Service.Logger.{
  LogLevel, error, level_index, threshold_index, Message, Param, emit, stream_of, record_of,
}

-- An error is written to stderr whatever LOG_LEVEL says.
emit-error :
    (configured : Option String) (time : String) (correlation_id : Option String)
    (message : Message) (params : List Param)
    → emit (threshold_index configured) time error correlation_id message params
      ≡ some (stream_of error, record_of time error correlation_id message params)
unfolding emit
emit-error configured time correlation_id message params = ground arith

-- A line of a lower level is written only if the higher ones are.
emit-higher :
    (threshold : ℕ) (time : String) (higher lower : LogLevel) (correlation_id : Option String)
    (message : Message) (params : List Param)
    → level_index higher ≤ level_index lower
    → emit threshold time lower correlation_id message params ≢ none
    → emit threshold time higher correlation_id message params ≢ none
unfolding emit
emit-higher threshold time higher lower correlation_id message params h k = ground arith
