-- ===== src/Board/Signing/Laws.antt =====
-- What the board signs, the guard lets through.
use async_webhook_ingestion.Prelude.{
  ℕ, ◌-◌, ◌+◌, ◌≤◌, String, ◌≡◌, ◌≢◌, refl, true, false, Option, some, [], ◌∷◌, ok, eq_iff, arith,
}
use async_webhook_ingestion.Boundary.{Crypto, one, Request, header_value, truthy_text}
use async_webhook_ingestion.Boundary.Signature.{Finite, SignatureGuard, can_activate}
use async_webhook_ingestion.Boundary.Signature.Laws.{authentic-can_activate}
use async_webhook_ingestion.Board.Signing.{SignedRequest, sign_request}

-- The request that the board sends for a signed one: its headers and its body.
abbrev pub request_of : SignedRequest → Request
request_of s = record {
  headers = ("x-signature", one s.signature) ∷ ("x-timestamp", one s.timestamp) ∷ [];
  raw_body = some s.raw_body;
}

truthy_text-some : (s : String) → s ≢ "" → truthy_text (some s) ≡ some s
truthy_text-some s h = ground (arith, eq_iff s "", h)

-- A request that the board signs with the guard's secret passes the guard, if the board's clock and
-- the guard's differ by at most the tolerance. `Number` reads what `String` wrote of the time, which
-- is not empty, and neither is a hexadecimal HMAC.
pub sign_request-can_activate :
    (crypto : Crypto) (number : String → Option Finite) (text_of : ℕ → String) (now then_ : ℕ)
    (g : SignatureGuard) (raw_body : String)
    → number (text_of then_) ≡ some (record { is_negative = false; magnitude = then_; scale = 0 })
    → text_of then_ ≢ ""
    → (sign_request crypto text_of g.secret raw_body then_).signature ≢ ""
    → (now - then_) + (then_ - now) ≤ g.tolerance_seconds
    → can_activate crypto number now g
        (request_of (sign_request crypto text_of g.secret raw_body then_))
      ≡ ok true
unfolding header_value sign_request
sign_request-can_activate crypto number text_of now then_ g raw_body reads nonempty signed skew =
    authentic-can_activate crypto number now g _ (record {
      signed = (sign_request crypto text_of g.secret raw_body then_).signature;
      stamped = text_of then_;
      has_signature = truthy_text-some _ signed;
      has_timestamp = truthy_text-some _ nonempty;
      fresh = rw reads (omega (arith, skew));
      genuine = refl;
    })
