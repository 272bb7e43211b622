-- ===== src/Timeout.antt =====
-- src/common/with-timeout.ts: a promise raced against a timer.
use async_webhook_ingestion.Prelude.{
  ℕ, Option, none, some, String, Result, ok, err, ltb, leb, ◌&&◌, if◌then◌else◌,
}
use async_webhook_ingestion.Errors.{
  Thrown, transient_processing_error, permanent_processing_error, query_failed, http_exception,
  other_error, non_error,
}

-- A promise as seen from its creation: never settled, or settled after so many milliseconds.
abbrev pub Pending : Type 0 → Type 0
Pending A = Option (ℕ × Result Thrown A)

-- `error instanceof Error ? error : new Error(String(error))`
abbrev pub as_error : Thrown → Thrown
as_error (non_error m) = other_error m
as_error (transient_processing_error m) = transient_processing_error m
as_error (permanent_processing_error m) = permanent_processing_error m
as_error (query_failed c m) = query_failed c m
as_error (http_exception s m) = http_exception s m
as_error (other_error m) = other_error m

abbrev settle : {A : Type 0} → Result Thrown A → Result Thrown A
settle (ok a) = ok a
settle (err e) = err (as_error e)

-- `setTimeout` waits 1 ms when it is given less than that, or more than a signed number of 32 bits.
abbrev pub timer_delay : ℕ → ℕ
timer_delay ms = if leb 1 ms && leb ms 2147483647 then ms else 1

-- The timer was set first, so it wins a tie.
unfoldable pub with_timeout : {A : Type 0} → Pending A → ℕ → String → Result Thrown A
with_timeout none ms message = err (other_error message)
with_timeout (some (t, r)) ms message =
    if ltb t (timer_delay ms) then settle r else err (other_error message)
