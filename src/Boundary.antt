-- ===== src/Boundary.antt =====
-- The HTTP boundary: the guards of src/webhooks/webhook-signature.guard.ts and
-- src/dlq/admin-key.guard.ts, src/common/timing-safe.ts, and the headers that they read. Hashes are
-- the runtime's, and so an interface.
pub mod Hashes
pub mod Signature
pub mod AdminKey
use Prim.Native.String
use async_webhook_ingestion.Prelude.{
  ℕ, String, ◌≡◌, ◌↔◌, Bool, true, Option, none, some, List, [], ◌∷◌, lookup, ◌==◌, if◌then◌else◌,
  eq_iff,
}
use async_webhook_ingestion.Errors.{Thrown, http_exception}

pub data HeaderValue : Type 0 where
  one : String → HeaderValue
  many : List String → HeaderValue

pub record Request : Type 0 where
  pub headers : List (String × HeaderValue)
  pub raw_body : Option String

abbrev first : Option HeaderValue → Option String
first none = none
first (some (one s)) = some s
first (some (many [])) = none
first (some (many (s ∷ ss))) = some s

-- A header's text, or the first of several; `none` is `undefined`.
unfoldable pub header_value : Request → String → Option String
header_value request name = first (lookup name request.headers)

-- An absent or empty header is falsy.
abbrev pub truthy_text : Option String → Option String
truthy_text none = none
truthy_text (some s) = if s == "" then none else some s

abbrev pub unauthorized : String → Thrown
unauthorized message = http_exception 401 message

abbrev pub forbidden : String → Thrown
forbidden message = http_exception 403 message

pub record Crypto : Type 1 where
  pub Digest : Type 0
  pub sha256 : String → Digest
  pub timing_safe_equal : Digest → Digest → Bool
  -- The hexadecimal HMAC-SHA256 of a message under a key.
  pub hmac_sha256_hex : (key message : String) → String
  -- Digests of SHA-256 have one length, and on buffers of one length the comparison is equality.
  pub timing_safe_equal_iff : (a b : Digest) → (timing_safe_equal a b ≡ true) ↔ (a ≡ b)

-- Hashes that meet the interface, for examples.
abbrev pub plain_crypto : Crypto
plain_crypto = record {
  Digest = String;
  sha256 = λ s. s;
  timing_safe_equal = λ a b. a == b;
  hmac_sha256_hex = λ key message. String.◌++◌ key (String.◌++◌ "#" message);
  timing_safe_equal_iff = eq_iff;
}

unfoldable pub timing_safe_equal_string : Crypto → (a b : String) → Bool
timing_safe_equal_string c a b = c.timing_safe_equal (c.sha256 a) (c.sha256 b)
