-- ===== src/Boundary/Signature/Laws.antt =====
-- What the signature guard lets through.
use Prim.Native.Nat.{◌^◌}
use async_webhook_ingestion.Prelude.{
  ℕ, ◌*◌, ◌≤◌, String, ◌≡◌, ◌↔◌, refl, true, Option, none, some, ok, eq_iff, arith,
}
use async_webhook_ingestion.Boundary.{
  Request, header_value, truthy_text, Crypto, timing_safe_equal_string,
}
use async_webhook_ingestion.Boundary.Hashes.{timing_safe_equal_string-eq}
use async_webhook_ingestion.Boundary.Signature.{
  Finite, distance, SignatureGuard, within, within_tolerance, expected_signature, check_signature,
  check_headers, can_activate,
}

-- A timestamp that is a finite number at most the tolerance away from now.
abbrev pub IsFresh : ℕ → ℕ → Option Finite → Type 0
IsFresh now tolerance none = ⊥
IsFresh now tolerance (some ts) = distance now ts ≤ tolerance * 2 ^ ts.scale

module _ (crypto : Crypto) (number : String → Option Finite) (now : ℕ) (g : SignatureGuard) where
  -- A request with both headers, a fresh timestamp, and the signature of its timestamp and raw body.
  pub record IsAuthentic (request : Request) (signature timestamp : Option String) : Type 0 where
    pub signed : String
    pub stamped : String
    pub has_signature : signature ≡ some signed
    pub has_timestamp : timestamp ≡ some stamped
    pub fresh : IsFresh now g.tolerance_seconds (number stamped)
    pub genuine : signed ≡ expected_signature crypto number now g request stamped

  -- The hash of a signature that is offered collides with the hash of the expected one only if the
  -- two are equal.
  abbrev pub NoCollision : Request → Type 0
  NoCollision request =
      (signed stamped : String)
      → crypto.sha256 signed
        ≡ crypto.sha256 (expected_signature crypto number now g request stamped)
      → signed ≡ expected_signature crypto number now g request stamped

  within-IsFresh :
      (o : Option Finite)
      → (within crypto number now g o ≡ true) ↔ IsFresh now g.tolerance_seconds o
  within-IsFresh none = ground arith
  within-IsFresh (some ts) = ground arith

  check_signature_iff :
      (request : Request) (s t : String)
      → (crypto.sha256 s ≡ crypto.sha256 (expected_signature crypto number now g request t)
          → s ≡ expected_signature crypto number now g request t)
      → (check_signature crypto number now g request s t ≡ ok true) ↔ (
          IsFresh now g.tolerance_seconds (number t)
          × (s ≡ expected_signature crypto number now g request t))
  unfolding check_signature within_tolerance
  check_signature_iff request s t no_collision =
      rw
        (timing_safe_equal_string-eq crypto s (expected_signature crypto number now g request t)
          no_collision)
        (ground (
          arith,
          within-IsFresh (number t),
          eq_iff s (expected_signature crypto number now g request t),
        ))

  check_headers-IsAuthentic :
      (request : Request) (s t : Option String)
      → NoCollision request
      → check_headers crypto number now g request s t ≡ ok true
      → IsAuthentic request s t
  unfolding check_headers
  check_headers-IsAuthentic request none t no_collision h = cc
  check_headers-IsAuthentic request (some s) none no_collision h = cc
  check_headers-IsAuthentic request (some s) (some t) no_collision h =
      let (fresh, genuine) = (check_signature_iff request s t (no_collision s t)).0 h in
      record {
        signed = s;
        stamped = t;
        has_signature = refl;
        has_timestamp = refl;
        fresh = fresh;
        genuine = genuine;
      }

  genuine-check_signature :
      (request : Request) (t : String)
      → IsFresh now g.tolerance_seconds (number t)
      → check_signature crypto number now g request
          (expected_signature crypto number now g request t)
          t
        ≡ ok true
  unfolding check_signature within_tolerance timing_safe_equal_string
  genuine-check_signature request t fresh =
      rw ((within-IsFresh (number t)).1 fresh, (crypto.timing_safe_equal_iff _ _).1 refl) refl

  authentic-check_headers :
      (request : Request) (s t : Option String)
      → IsAuthentic request s t
      → check_headers crypto number now g request s t ≡ ok true
  unfolding check_headers
  authentic-check_headers request s t a =
      rw (a.has_signature, a.has_timestamp, a.genuine)
        (genuine-check_signature request a.stamped a.fresh)

  -- An authentic request passes, whatever the hash.
  pub authentic-can_activate :
      (request : Request)
      → IsAuthentic request
          (truthy_text (header_value request "x-signature"))
          (truthy_text (header_value request "x-timestamp"))
      → can_activate crypto number now g request ≡ ok true
  unfolding can_activate
  authentic-can_activate request a = authentic-check_headers request _ _ a

  -- The signature guard lets a request pass exactly when it carries a non-empty signature and a
  -- non-empty timestamp, the timestamp is a finite number within the tolerance, and the signature is
  -- the HMAC of the timestamp and the raw body, provided that no hash of a signature collides.
  pub can_activate_iff :
      (request : Request)
      → NoCollision request
      → (can_activate crypto number now g request ≡ ok true)
        ↔ IsAuthentic request
            (truthy_text (header_value request "x-signature"))
            (truthy_text (header_value request "x-timestamp"))
  unfolding can_activate
  can_activate_iff request no_collision =
      (check_headers-IsAuthentic request _ _ no_collision, authentic-check_headers request _ _)
