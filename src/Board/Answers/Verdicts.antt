-- ===== src/Board/Answers/Verdicts.antt =====
-- What the signature guard says of the requests of the board.
use Prim.Native.Nat.{◌^◌}
use async_webhook_ingestion.Prelude.{
  ℕ, ◌+◌, ◌-◌, ◌*◌, ◌≤◌, ◌<◌, String, Bool, true, false, ◌≡◌, ◌≢◌, refl, ◌∙◌, some, [], ◌∷◌, Result,
  ok, err, eq_iff, arith, leb, Bool-cases, inl, inr,
}
use async_webhook_ingestion.Errors.{Thrown}
use async_webhook_ingestion.Boundary.{
  Request, one, header_value, truthy_text, unauthorized, timing_safe_equal_string,
}
use async_webhook_ingestion.Boundary.Signature.{
  can_activate, check_headers, check_signature, within_tolerance,
}
use async_webhook_ingestion.Boundary.Signature.Laws.{authentic-can_activate}
use async_webhook_ingestion.Board.Signing.{canonical_string}
use async_webhook_ingestion.Board.Answers.{Deployment, IsSound, Reads, now_seconds}

truthy-some : (s : String) → s ≢ "" → truthy_text (some s) ≡ some s
truthy-some s h = ground (arith, eq_iff s "", h)

pub leb-true : (a b : ℕ) → a ≤ b → leb a b ≡ true
leb-true a b h = ground arith

leb-false : (a b : ℕ) → b < a → leb a b ≡ false
leb-false a b h = ground arith

module _ (d : Deployment) (sound : IsSound d) where
  -- The board's request for a raw body, signed at a time under a key.
  abbrev pub signed_by : (key : String) (n : ℕ) (raw id : String) → Request
  signed_by key n raw id = record {
    headers =
        ("content-type", one "application/json")
        ∷ ("x-signature", one (d.crypto.hmac_sha256_hex key (canonical_string (d.text_of n) raw)))
        ∷ ("x-timestamp", one (d.text_of n))
        ∷ ("x-correlation-id", one id)
        ∷ [];
    raw_body = some raw;
  }

  abbrev pub verdict_on : Request → Result Thrown Bool
  verdict_on request = can_activate d.crypto d.number (now_seconds d) d.guard request

  pub signed_by-passes :
      (raw id : String) → verdict_on (signed_by d.guard.secret (now_seconds d) raw id) ≡ ok true
  unfolding header_value
  signed_by-passes raw id =
      authentic-can_activate d.crypto d.number (now_seconds d) d.guard _ (record {
        signed =
            d.crypto.hmac_sha256_hex d.guard.secret
              (canonical_string (d.text_of (now_seconds d)) raw);
        stamped = d.text_of (now_seconds d);
        has_signature =
            truthy-some _
              (sound.signs d.guard.secret (canonical_string (d.text_of (now_seconds d)) raw));
        has_timestamp = truthy-some _ (sound.now_read.1);
        fresh = rw (sound.now_read.0) (omega arith);
        genuine = refl;
      })

  within_tolerance-Reads :
      (n : ℕ)
      → Reads d n
      → within_tolerance d.crypto d.number (now_seconds d) d.guard (d.text_of n)
        ≡ leb
            (now_seconds d * 2 ^ 0 - n + (n - now_seconds d * 2 ^ 0))
            (d.guard.tolerance_seconds * 2 ^ 0)
  unfolding within_tolerance
  within_tolerance-Reads n read = rw (read.0) refl

  signed_by-check :
      (key raw id : String) (n : ℕ)
      → Reads d n
      → verdict_on (signed_by key n raw id)
        ≡ check_signature d.crypto d.number
            (now_seconds d)
            d.guard
            (signed_by key n raw id)
            (d.crypto.hmac_sha256_hex key (canonical_string (d.text_of n) raw))
            (d.text_of n)
  unfolding can_activate check_headers header_value
  signed_by-check key raw id n read =
      rw
        (
          truthy-some _ (sound.signs key (canonical_string (d.text_of n) raw)),
          truthy-some _ (read.1),
        )
        refl

  pub signed_by-wrong :
      (raw id : String)
      → verdict_on (signed_by "wrong-secret" (now_seconds d) raw id)
        ≡ err (unauthorized "invalid signature")
  unfolding check_signature timing_safe_equal_string
  signed_by-wrong raw id =
      let fresh : leb
            (now_seconds d * 2 ^ 0 - now_seconds d + (now_seconds d - now_seconds d * 2 ^ 0))
            (d.guard.tolerance_seconds * 2 ^ 0)
          ≡ true =
        leb-true _ _ (omega arith) in
      let message = canonical_string (d.text_of (now_seconds d)) raw in
      signed_by-check "wrong-secret" raw id (now_seconds d) sound.now_read
      ∙ rw
          (
            within_tolerance-Reads (now_seconds d) sound.now_read,
            fresh,
            different (sound.wrong_secret message),
          )
          refl
    where
      different : {a b : d.crypto.Digest} → a ≢ b → d.crypto.timing_safe_equal a b ≡ false
      different {a} {b} h = elim (Bool-cases (d.crypto.timing_safe_equal a b)) [
        | inl same ↦ absurd (h ((d.crypto.timing_safe_equal_iff a b).0 same))
        | inr other ↦ other
      ]

  pub signed_by-stale :
      (key raw id : String)
      → verdict_on (signed_by key (now_seconds d - 600) raw id)
        ≡ err (unauthorized "stale or invalid timestamp")
  unfolding check_signature
  signed_by-stale key raw id =
      let old : leb
            (now_seconds d * 2 ^ 0
              - (now_seconds d - 600)
              + ((now_seconds d - 600) - now_seconds d * 2 ^ 0))
            (d.guard.tolerance_seconds * 2 ^ 0)
          ≡ false =
        leb-false _ _ (omega (arith, sound.window, sound.late)) in
      signed_by-check key raw id (now_seconds d - 600) sound.late_read
      ∙ rw (within_tolerance-Reads (now_seconds d - 600) sound.late_read, old) refl
