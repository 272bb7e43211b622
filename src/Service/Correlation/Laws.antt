-- ===== src/Service/Correlation/Laws.antt =====
-- Which correlation ids a request can run with.
use async_webhook_ingestion.Prelude.{
  String, true, ◌≡◌, refl, Option, none, some, Bool-cases, inl, inr,
}
use async_webhook_ingestion.Boundary.{HeaderValue, one, many}
use async_webhook_ingestion.Service.Correlation.{is_valid_correlation_id, use_correlation_id}

-- Whatever the header holds, the id is valid, if a UUID is.
use_correlation_id-valid :
    (incoming : Option HeaderValue) (uuid : String)
    → is_valid_correlation_id uuid ≡ true
    → is_valid_correlation_id (use_correlation_id incoming uuid) ≡ true
unfolding use_correlation_id
use_correlation_id-valid none uuid h = h
use_correlation_id-valid (some (many texts)) uuid h = h
use_correlation_id-valid (some (one text)) uuid h =
    elim (Bool-cases (is_valid_correlation_id text)) [
      | inl good ↦ rw good good
      | inr bad ↦ rw bad h
    ]

-- An id that a process has chosen passes unchanged through the next one.
use_correlation_id-kept :
    (incoming : Option HeaderValue) (uuid other : String)
    → is_valid_correlation_id uuid ≡ true
    → use_correlation_id (some (one (use_correlation_id incoming uuid))) other
      ≡ use_correlation_id incoming uuid
unfolding use_correlation_id
use_correlation_id-kept incoming uuid other h = rw (use_correlation_id-valid incoming uuid h) refl
