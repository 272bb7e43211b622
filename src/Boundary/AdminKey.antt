-- ===== src/Boundary/AdminKey.antt =====
-- `AdminKeyGuard`.
use async_webhook_ingestion.Prelude.{
  String, ◌≡◌, refl, Bool, true, Option, none, some, Result, ok, err, if◌then◌else◌, ◌==◌,
}
use async_webhook_ingestion.Errors.{Thrown, other_error}
use async_webhook_ingestion.Boundary.Hashes.{timing_safe_equal_string-eq}
use async_webhook_ingestion.Boundary.{
  Request, header_value, truthy_text, unauthorized, forbidden, Crypto, timing_safe_equal_string,
}

-- The constructor's secret, which must not be empty.
unfoldable pub admin_secret : Option String → Result Thrown String
admin_secret configured = elim (truthy_text configured) [
  | none ↦ err (other_error "ADMIN_API_KEY must be set to a non-empty value")
  | some s ↦ ok s
]

module _ (crypto : Crypto) (secret : String) where
  unfoldable pub check_key : Option String → Result Thrown Bool
  check_key none = err (unauthorized "missing admin key")
  check_key (some provided) =
      if timing_safe_equal_string crypto provided secret
      then ok true
      else err (forbidden "invalid admin key")

  unfoldable pub can_activate : Request → Result Thrown Bool
  unfolding check_key
  can_activate request = check_key (truthy_text (header_value request "x-admin-key"))

  -- The answer that a key deserves.
  abbrev pub key_answer : Option String → Result Thrown Bool
  key_answer none = err (unauthorized "missing admin key")
  key_answer (some provided) =
      if provided == secret then ok true else err (forbidden "invalid admin key")

  check_key-answer :
      (o : Option String)
      → ((provided : String)
          → o ≡ some provided
          → crypto.sha256 provided ≡ crypto.sha256 secret
          → provided ≡ secret)
      → check_key o ≡ key_answer o
  unfolding check_key
  check_key-answer none no_collision = refl
  check_key-answer (some provided) no_collision =
      rw (timing_safe_equal_string-eq crypto provided secret (no_collision provided refl)) refl

  -- The admin key guard answers as a plain comparison of the key with the secret would: 401 without a
  -- key, 403 with a wrong one, and it lets the right one pass, where the key that was given does not
  -- collide with the secret under SHA-256.
  pub admin_key_answer :
      (request : Request)
      → ((provided : String)
          → truthy_text (header_value request "x-admin-key") ≡ some provided
          → crypto.sha256 provided ≡ crypto.sha256 secret
          → provided ≡ secret)
      → can_activate request ≡ key_answer (truthy_text (header_value request "x-admin-key"))
  unfolding can_activate
  admin_key_answer request no_collision =
      check_key-answer (truthy_text (header_value request "x-admin-key")) no_collision
