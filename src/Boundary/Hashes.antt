-- ===== src/Boundary/Hashes.antt =====
-- The timing-safe comparison is the plain one, short of a collision.
use async_webhook_ingestion.Prelude.{String, ◌≡◌, sym, ap, ◌∙◌, inl, inr, Bool-cases, ◌==◌, eq_iff}
use async_webhook_ingestion.Boundary.{Crypto, timing_safe_equal_string}

pub timing_safe_equal_string-eq :
    (c : Crypto) (a b : String)
    → (c.sha256 a ≡ c.sha256 b → a ≡ b)
    → timing_safe_equal_string c a b ≡ (a == b)
unfolding timing_safe_equal_string
timing_safe_equal_string-eq c a b no_collision = elim (Bool-cases (a == b)) [
  | inl same ↦
      (c.timing_safe_equal_iff (c.sha256 a) (c.sha256 b)).1 (ap c.sha256 ((eq_iff a b).0 same))
      ∙ sym same
  | inr other ↦ elim (Bool-cases (c.timing_safe_equal (c.sha256 a) (c.sha256 b))) [
    | inl accepted ↦
        let same : a ≡ b =
          no_collision ((c.timing_safe_equal_iff (c.sha256 a) (c.sha256 b)).0 accepted) in
        accepted ∙ sym ((eq_iff a b).1 same)
    | inr rejected ↦ rejected ∙ sym other
  ]
]
