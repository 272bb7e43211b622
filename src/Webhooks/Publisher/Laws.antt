-- ===== src/Webhooks/Publisher/Laws.antt =====
-- Each publish learns of its own return and of no other, whatever happens while it waits.
use mathlib.Core.Option
use async_webhook_ingestion.Prelude.{
  ◌↔◌, sym, ◌<◌, ltb, Result, ok, err, ⊤, ℕ, String, ◌≡◌, refl, ◌∙◌, Bool, true, false, ◌||◌, none,
  some, List, [], ◌∷◌, lookup, insert, erase, lookup-insert, lookup-erase, ◌==◌, eq_iff, eq_refl,
  if◌then◌else◌, arith, Bool-cases, inl, inr,
}
use async_webhook_ingestion.Errors.{Thrown}
use async_webhook_ingestion.Timeout.{Pending, timer_delay, with_timeout}
use async_webhook_ingestion.Webhooks.Publisher.{
  PendingReturns, mark_returned, begin_publish, finish_publish, verdict,
}

mark_returned-lookup :
    (t k : String) (m : PendingReturns)
    → lookup k (mark_returned t m)
      ≡ (if t == k then Option.map (λ (b : Bool). true) (lookup k m) else lookup k m)
unfolding mark_returned
mark_returned-lookup t k [] = ground arith
mark_returned-lookup t k ((j, b) ∷ m) =
    ground (arith, eq_iff j t, eq_iff j k, eq_iff t k, mark_returned-lookup t k m)

-- What may happen to the map while a publish waits: returns, and other publishes that begin or finish.
pub data Meanwhile : Type 0 where
  returned : (token : String) → Meanwhile
  begun : (token : String) → Meanwhile
  finished : (token : String) → (confirm_timeout_ms : ℕ) → Pending ⊤ → Meanwhile

abbrev pub happen : Meanwhile → PendingReturns → PendingReturns
happen (returned t) m = mark_returned t m
happen (begun t) m = begin_publish t m
happen (finished t ms confirm) m = (finish_publish ms t confirm m).1

abbrev pub happen_all : List Meanwhile → PendingReturns → PendingReturns
happen_all [] m = m
happen_all (e ∷ es) m = happen_all es (happen e m)

-- Tokens are fresh: no other publish begins or finishes under this one.
abbrev pub AreAlien : String → List Meanwhile → Type 0
AreAlien token [] = ⊤
AreAlien token (returned t ∷ es) = AreAlien token es
AreAlien token (begun t ∷ es) = ((t == token) ≡ false) × AreAlien token es
AreAlien token (finished t ms confirm ∷ es) = ((t == token) ≡ false) × AreAlien token es

abbrev pub was_returned : String → List Meanwhile → Bool
was_returned token [] = false
was_returned token (returned t ∷ es) = (t == token) || was_returned token es
was_returned token (begun t ∷ es) = was_returned token es
was_returned token (finished t ms confirm ∷ es) = was_returned token es

abbrev FlagAfter : String → List Meanwhile → PendingReturns → Bool → Type 0
FlagAfter token es m b = lookup token (happen_all es m) ≡ some (b || was_returned token es)

happen_all-lookup :
    (token : String) (es : List Meanwhile) (m : PendingReturns) (b : Bool)
    → AreAlien token es
    → lookup token m ≡ some b
    → FlagAfter token es m b
unfolding begin_publish finish_publish
happen_all-lookup token [] m b alien h = rw h (ground arith)
happen_all-lookup token (returned t ∷ es) m b alien h = elim (Bool-cases (t == token)) [
  | inl mine ↦
      let marked : lookup token (mark_returned t m) ≡ some true =
        mark_returned-lookup t token m ∙ rw (mine, h) refl in
      happen_all-lookup token es (mark_returned t m) true alien marked ∙ rw mine (ground arith)
  | inr other ↦
      let kept : lookup token (mark_returned t m) ≡ some b =
        mark_returned-lookup t token m ∙ rw other h in
      rw other (happen_all-lookup token es (mark_returned t m) b alien kept)
]
happen_all-lookup token (begun t ∷ es) m b (other, alien) h =
    happen_all-lookup token es (insert t false m) b alien
      (lookup-insert t token false m ∙ rw other h)
happen_all-lookup token (finished t ms confirm ∷ es) m b (other, alien) h =
    happen_all-lookup token es (erase t m) b alien (lookup-erase t token m ∙ rw other h)

-- The flag that a publish reads is whether its own message was returned; its entry is gone then.
pub finish_publish-verdict :
    (token : String) (es : List Meanwhile) (m : PendingReturns) (ms : ℕ) (confirm : Pending ⊤)
    → AreAlien token es
    → let out = finish_publish ms token confirm (happen_all es (begin_publish token m)) in
      (out.0
        ≡ verdict (was_returned token es) (with_timeout confirm ms "publisher confirm timed out"))
      × (lookup token out.1 ≡ none)
unfolding begin_publish finish_publish
finish_publish-verdict token es m ms confirm alien =
    let flag =
      happen_all-lookup token es (insert token false m) false alien
        (lookup-insert token token false m ∙ rw (eq_refl token) refl) in
    (
      rw flag refl,
      lookup-erase token token (happen_all es (insert token false m)) ∙ rw (eq_refl token) refl,
    )

-- The confirm came before the timer.
abbrev pub ConfirmedIn : ℕ → Pending ⊤ → Type 0
ConfirmedIn ms confirm = (t : ℕ) × (confirm ≡ some (t, ok tt)) × (t < timer_delay ms)

with_timeout-ConfirmedIn :
    (confirm : Pending ⊤) (ms : ℕ) (message : String)
    → with_timeout confirm ms message ≡ ok tt
    → ConfirmedIn ms confirm
unfolding with_timeout
with_timeout-ConfirmedIn none ms message h = cc
with_timeout-ConfirmedIn (some (t, ok u)) ms message h =
    elim (Bool-cases (ltb t (timer_delay ms))) [
      | inl early ↦ (t, refl, ground (early, arith))
      | inr late ↦ cc (rw late at h)
    ]
with_timeout-ConfirmedIn (some (t, err e)) ms message h =
    elim (Bool-cases (ltb t (timer_delay ms))) [
      | inl early ↦ cc (rw early at h)
      | inr late ↦ cc (rw late at h)
    ]

ConfirmedIn-with_timeout :
    (confirm : Pending ⊤) (ms : ℕ) (message : String)
    → ConfirmedIn ms confirm
    → with_timeout confirm ms message ≡ ok tt
unfolding with_timeout
ConfirmedIn-with_timeout confirm ms message (t, h, early) =
    let earlier : ltb t (timer_delay ms) ≡ true = ground (early, arith) in rw (h, earlier) refl

verdict-eq-ok :
    (returned : Bool) (r : Result Thrown ⊤)
    → verdict returned r ≡ ok tt
    → (r ≡ ok tt) × (returned ≡ false)
verdict-eq-ok true (ok u) h = cc
verdict-eq-ok false (ok u) h = (refl, refl)
verdict-eq-ok true (err e) h = cc
verdict-eq-ok false (err e) h = cc

-- A publish that has waited succeeds exactly when the broker confirmed it before the timer and no
-- message with its own token was returned meanwhile; returns of other messages, and other publishes
-- that begin and finish, make no difference. Its entry is gone from the map, however it ends.
pub publish_isolated :
    (token : String) (es : List Meanwhile) (m : PendingReturns) (ms : ℕ) (confirm : Pending ⊤)
    → AreAlien token es
    → let out = finish_publish ms token confirm (happen_all es (begin_publish token m)) in
      ((out.0 ≡ ok tt) ↔ (ConfirmedIn ms confirm × (was_returned token es ≡ false)))
      × (lookup token out.1 ≡ none)
publish_isolated token es m ms confirm alien =
    let (verdict_is, gone) = finish_publish-verdict token es m ms confirm alien in
    let message : String = "publisher confirm timed out" in
    (
      (
        λ went.
            let (confirmed, kept) =
              verdict-eq-ok (was_returned token es) (with_timeout confirm ms message)
                (sym verdict_is ∙ went) in
            (with_timeout-ConfirmedIn confirm ms message confirmed, kept),
        λ (confirmed, kept).
            verdict_is ∙ rw (kept, ConfirmedIn-with_timeout confirm ms message confirmed) refl,
      ),
      gone,
    )
