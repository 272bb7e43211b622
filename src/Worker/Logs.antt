-- ===== src/Worker/Logs.antt =====
-- What a run adds to the log, and how a chain of actions ends.
use mathlib.Core.List.{append_assoc}
use async_webhook_ingestion.Prelude.{⊤, ◌≡◌, refl, ◌∙◌, ap, List, [], ◌∷◌, ◌++◌, Result, ok, err}
use async_webhook_ingestion.Errors.{Thrown}
use async_webhook_ingestion.Messaging.{Publication}
use async_webhook_ingestion.Worker.{World, Action, Effect, publish, and_then}

module _ {Db A B : Type 0} where
  pub and_then-ok :
      (t : Result Thrown A × World Db) (f : A → Action Db B) {a : A}
      → t.0 ≡ ok a
      → and_then t f ≡ f a t.1
  and_then-ok (r, w) f e = rw (e, and_then) refl

  pub and_then-err :
      (t : Result Thrown A × World Db) (f : A → Action Db B) {e : Thrown}
      → t.0 ≡ err e
      → and_then t f ≡ (err e, t.1)
  and_then-err (r, w) f e = rw (e, and_then) refl

abbrev pub Extends : (l l' : List Effect) → Type 0
Extends l l' = (es : List Effect) × (l' ≡ l ++ es)

pub Extends-trans : (l l₁ l₂ : List Effect) → Extends l l₁ → Extends l₁ l₂ → Extends l l₂
Extends-trans l l₁ l₂ (es, p) (fs, q) = (es ++ fs, q ∙ ap (λ k. k ++ fs) p ∙ append_assoc l es fs)

-- The run that took the log from the first list to the second published `p`, and the broker
-- confirmed it.
abbrev pub Sent : (Publication → Result Thrown ⊤) → Publication → (l l' : List Effect) → Type 0
Sent broker p l l' =
    (broker p ≡ ok tt) × (pre post : List Effect) × (l' ≡ l ++ (pre ++ publish p ∷ post))

pub Sent-after :
    (broker : Publication → Result Thrown ⊤) (p : Publication) (l l₁ l₂ : List Effect)
    → Extends l l₁
    → Sent broker p l₁ l₂
    → Sent broker p l l₂
Sent-after broker p l l₁ l₂ (es, e) (confirmed, pre, post, f) =
    (confirmed, es ++ pre, post, f ∙ ap (λ k. k ++ (pre ++ publish p ∷ post)) e ∙ simp append_assoc)

pub Extends-three :
    (l : List Effect) (a b c : Effect) → Extends l (((l ++ a ∷ []) ++ b ∷ []) ++ c ∷ [])
Extends-three l a b c = (a ∷ b ∷ c ∷ [], simp append_assoc)

pub Sent-before :
    (broker : Publication → Result Thrown ⊤) (p : Publication) (l l₁ : List Effect) (e : Effect)
    → Sent broker p l l₁
    → Sent broker p l (l₁ ++ e ∷ [])
Sent-before broker p l l₁ e (confirmed, pre, post, f) =
    (confirmed, pre, post ++ e ∷ [], ap (λ k. k ++ e ∷ []) f ∙ simp append_assoc)
