-- ===== src/Errors/Laws.antt =====
-- Which errors are final: the code's tests against a description of the SQLSTATE classes.
use text.Mathlib.TextBridge.{IsPrefix}
use text.Mathlib.TextEquality.{starts_with_iff}
use async_webhook_ingestion.Prelude.{
  String, ◌≡◌, ◌≢◌, ◌↔◌, ◌⊎◌, Option, none, some, true, arith, eq_iff,
}
use async_webhook_ingestion.Json.{str, as_string}
use async_webhook_ingestion.Errors.{
  Thrown, transient_processing_error, permanent_processing_error, query_failed, http_exception,
  other_error, non_error, is_non_recoverable_db_error,
}

-- SQLSTATE class 22 (data exception) or 23 (integrity violation), but not unique_violation.
abbrev pub IsFinalCode : Option String → Type 0
IsFinalCode none = ⊥
IsFinalCode (some code) = (IsPrefix "22" code ⊎ IsPrefix "23" code) × (code ≢ "23505")

abbrev pub IsFinal : Thrown → Type 0
IsFinal (query_failed code m) = IsFinalCode (as_string code)
IsFinal (transient_processing_error m) = ⊥
IsFinal (permanent_processing_error m) = ⊥
IsFinal (http_exception s m) = ⊥
IsFinal (other_error m) = ⊥
IsFinal (non_error m) = ⊥

-- A thrown value is non-recoverable exactly when it is a failed query whose code is a text that
-- begins with "22" or "23" and is not "23505".
pub is_non_recoverable_db_error_iff :
    (e : Thrown) → (is_non_recoverable_db_error e ≡ true) ↔ IsFinal e
unfolding is_non_recoverable_db_error
is_non_recoverable_db_error_iff (query_failed (some (str code)) m) =
    ground (arith, eq_iff code "23505", starts_with_iff code "22", starts_with_iff code "23")
is_non_recoverable_db_error_iff (query_failed code m) = ground arith
is_non_recoverable_db_error_iff e = ground arith
