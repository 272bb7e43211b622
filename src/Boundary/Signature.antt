-- ===== src/Boundary/Signature.antt =====
-- `WebhookSignatureGuard`. `Number(text)` is an argument: `none` stands for NaN and the infinities.
pub mod Laws
use Prim.Native.String
use async_webhook_ingestion.Prelude.{
  ℕ, ◌+◌, ◌-◌, ◌*◌, String, Bool, true, false, Option, none, some, Result, ok, err, get_or, leb,
  ◌==◌, if◌then◌else◌,
}
use Prim.Native.Nat.{◌^◌}
use async_webhook_ingestion.Errors.{Thrown, other_error}
use async_webhook_ingestion.Boundary.{
  Request, header_value, truthy_text, unauthorized, Crypto, timing_safe_equal_string,
}

-- A finite number, exactly: its magnitude over a power of two, with its sign.
pub record Finite : Type 0 where
  pub is_negative : Bool
  pub magnitude : ℕ
  pub scale : ℕ

-- |now - ts| in units of 1 / 2 ^ scale. The rounding of the subtraction is not modelled.
abbrev pub distance : ℕ → Finite → ℕ
distance now ts =
    if ts.is_negative
    then now * 2 ^ ts.scale + ts.magnitude
    else (now * 2 ^ ts.scale - ts.magnitude) + (ts.magnitude - now * 2 ^ ts.scale)

pub record SignatureGuard : Type 0 where
  pub secret : String
  pub tolerance_seconds : ℕ

-- The constructor: an empty secret is refused. The tolerance defaults to 300.
unfoldable pub signature_guard : Option String → Option ℕ → Result Thrown SignatureGuard
signature_guard secret tolerance = elim (truthy_text secret) [
  | none ↦ err (other_error "WEBHOOK_HMAC_SECRET must be set to a non-empty value")
  | some s ↦ ok (record { secret = s; tolerance_seconds = get_or tolerance 300 })
]

module _ (crypto : Crypto) (number : String → Option Finite) (now_seconds : ℕ)
    (g : SignatureGuard) where
  abbrev within : Option Finite → Bool
  within none = false
  within (some ts) = leb (distance now_seconds ts) (g.tolerance_seconds * 2 ^ ts.scale)

  unfoldable pub within_tolerance : (timestamp : String) → Bool
  within_tolerance timestamp = within (number timestamp)

  -- `"${timestamp}.${rawBody}"`, an absent body being empty.
  abbrev pub signed_text : Request → String → String
  signed_text request timestamp =
      String.◌++◌ timestamp (String.◌++◌ "." (get_or request.raw_body ""))

  abbrev pub expected_signature : Request → String → String
  expected_signature request timestamp =
      crypto.hmac_sha256_hex g.secret (signed_text request timestamp)

  unfoldable pub check_signature : Request → (signature timestamp : String) → Result Thrown Bool
  unfolding within_tolerance
  check_signature request signature timestamp =
      if within_tolerance timestamp
      then (if timing_safe_equal_string crypto signature (expected_signature request timestamp)
          then ok true
          else err (unauthorized "invalid signature"))
      else err (unauthorized "stale or invalid timestamp")

  unfoldable pub check_headers :
      Request → (signature timestamp : Option String) → Result Thrown Bool
  unfolding check_signature
  check_headers request none timestamp = err (unauthorized "missing signature or timestamp")
  check_headers request (some signature) none = err (unauthorized "missing signature or timestamp")
  check_headers request (some signature) (some timestamp) =
      check_signature request signature timestamp

  unfoldable pub can_activate : Request → Result Thrown Bool
  unfolding check_headers
  can_activate request =
      check_headers request (truthy_text (header_value request "x-signature"))
        (truthy_text (header_value request "x-timestamp"))
