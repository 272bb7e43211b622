-- ===== src/Dlq/Listing/Paging.antt =====
-- Page after page of a list.
use async_webhook_ingestion.Prelude.{
  ℕ, zero, suc, ◌+◌, ◌*◌, ◌≡◌, refl, sym, ap, ◌∙◌, List, [], ◌∷◌, ◌++◌, take, drop, arith,
}

module _ {A : Type 0} where
  take-nil : (n : ℕ) → take {A = A} n [] ≡ []
  take-nil zero = refl
  take-nil (suc n) = refl

  drop-nil : (n : ℕ) → drop {A = A} n [] ≡ []
  drop-nil zero = refl
  drop-nil (suc n) = refl

  take-sum : (a b : ℕ) (xs : List A) → take (a + b) xs ≡ take a xs ++ take b (drop a xs)
  take-sum zero b xs = ap (λ i. take i xs) (omega arith)
  take-sum (suc a) b [] = take-nil (suc a + b) ∙ sym (take-nil b)
  take-sum (suc a) b (x ∷ xs) =
      let sums : suc a + b ≡ suc (a + b) = omega arith in
      ap (λ i. take i (x ∷ xs)) sums ∙ ap (λ ys. x ∷ ys) (take-sum a b xs)

  drop-sum : (a b : ℕ) (xs : List A) → drop (a + b) xs ≡ drop b (drop a xs)
  drop-sum zero b xs = ap (λ i. drop i xs) (omega arith)
  drop-sum (suc a) b [] = drop-nil (suc a + b) ∙ sym (drop-nil b)
  drop-sum (suc a) b (x ∷ xs) =
      let sums : suc a + b ≡ suc (a + b) = omega arith in
      ap (λ i. drop i (x ∷ xs)) sums ∙ drop-sum a b xs

one_more : (n k : ℕ) → suc n * k ≡ n * k + k
one_more n k = omega arith

-- Page after page.
pub page-sum :
    {A : Type 0} (n p k : ℕ) (xs : List A)
    → take k (drop (p * k) xs) ++ take (n * k) (drop (suc p * k) xs)
      ≡ take (suc n * k) (drop (p * k) xs)
page-sum n p k xs =
    ap (λ ys. take k (drop (p * k) xs) ++ take (n * k) ys)
      (ap (λ i. drop i xs) (one_more p k) ∙ drop-sum (p * k) k xs)
    ∙ sym (take-sum k (n * k) (drop (p * k) xs))
    ∙ ap (λ i. take i (drop (p * k) xs)) (omega (arith, one_more n k))
