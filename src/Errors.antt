-- ===== src/Errors.antt =====
-- src/consumer/processing-errors.ts: what code may throw, and which database errors are final.
pub mod Laws
use Prim.Native.String
use text.Mathlib.Text.{starts_with}
use async_webhook_ingestion.Prelude.{
  ℕ, String, Bool, true, false, not, Option, none, some, ◌&&◌, ◌||◌, ◌==◌,
}
use async_webhook_ingestion.Json.{Json, as_string}

-- A thrown value, by the tests that the code makes on it. `query_failed` is TypeORM's
-- `QueryFailedError` with `driverError.code`; `other_error` is any other `Error`, and `non_error` a
-- value that is none, as `String(value)`. `http_exception` is a Nest exception with its status.
pub data Thrown : Type 0 where
  transient_processing_error : String → Thrown
  permanent_processing_error : String → Thrown
  query_failed : Option Json → String → Thrown
  http_exception : ℕ → String → Thrown
  other_error : String → Thrown
  non_error : String → Thrown

-- `error instanceof Error ? error.message : String(error)`
abbrev pub reason_of : Thrown → String
reason_of (transient_processing_error m) = m
reason_of (permanent_processing_error m) = m
reason_of (query_failed c m) = m
reason_of (http_exception s m) = m
reason_of (other_error m) = m
reason_of (non_error m) = m

abbrev pub is_permanent : Thrown → Bool
is_permanent (permanent_processing_error m) = true
is_permanent (transient_processing_error m) = false
is_permanent (query_failed c m) = false
is_permanent (http_exception s m) = false
is_permanent (other_error m) = false
is_permanent (non_error m) = false

abbrev unique_violation : String
unique_violation = "23505"

-- `/^(22|23)/.test(code)`
abbrev non_recoverable_sqlstate : String → Bool
non_recoverable_sqlstate code = starts_with code "22" || starts_with code "23"

abbrev final_code : Option String → Bool
final_code none = false
final_code (some code) = non_recoverable_sqlstate code && not (code == unique_violation)

unfoldable pub is_non_recoverable_db_error : Thrown → Bool
is_non_recoverable_db_error (query_failed code m) = final_code (as_string code)
is_non_recoverable_db_error (transient_processing_error m) = false
is_non_recoverable_db_error (permanent_processing_error m) = false
is_non_recoverable_db_error (http_exception s m) = false
is_non_recoverable_db_error (other_error m) = false
is_non_recoverable_db_error (non_error m) = false
