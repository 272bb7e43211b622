-- ===== src/Board/Signing.antt =====
-- web/src/lib/hmac.ts: how the board signs its requests. The browser's HMAC-SHA256 is the runtime's
-- of `Boundary`, and `String` of a number is an argument.
pub mod Laws
use Prim.Native.String
use async_webhook_ingestion.Prelude.{ℕ, String}
use async_webhook_ingestion.Boundary.{Crypto}

pub record SignedRequest : Type 0 where
  pub timestamp : String
  pub raw_body : String
  pub canonical : String
  pub signature : String

abbrev pub canonical_string : (timestamp raw_body : String) → String
canonical_string timestamp raw_body = String.◌++◌ timestamp (String.◌++◌ "." raw_body)

unfoldable pub sign_request :
    Crypto → (ℕ → String) → (secret raw_body : String) (timestamp_seconds : ℕ) → SignedRequest
sign_request crypto text_of secret raw_body timestamp_seconds =
    let timestamp = text_of timestamp_seconds in
    let canonical = canonical_string timestamp raw_body in
    record {
      timestamp = timestamp;
      raw_body = raw_body;
      canonical = canonical;
      signature = crypto.hmac_sha256_hex secret canonical;
    }
