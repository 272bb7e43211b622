-- ===== src/Service/Health/Laws.antt =====
-- When the health probe answers 200.
use async_webhook_ingestion.Prelude.{
  ⊤, ℕ, ◌<◌, Bool, true, false, ◌≡◌, ◌↔◌, refl, none, some, ok, err, ltb, arith, Bool-cases, inl,
  inr, if◌then◌else◌,
}
use async_webhook_ingestion.Timeout.{Pending}
use async_webhook_ingestion.Service.Health.{
  db_ping_timeout_ms, CheckState, Checks, report_on, up, down, healthy, postgres_state, check,
}

abbrev all_up : Checks
all_up = record { postgres = up; rabbitmq = up }

abbrev AnswersInTime : Pending ⊤ → Type 0
AnswersInTime ping = (t : ℕ) × (ping ≡ some (t, ok tt)) × (t < db_ping_timeout_ms)

postgres_state_iff : (ping : Pending ⊤) → (postgres_state ping ≡ up) ↔ AnswersInTime ping
unfolding postgres_state
postgres_state_iff none = (λ h. cc h, λ (t, e, l). cc e)
postgres_state_iff (some (t, ok u)) = elim (Bool-cases (ltb t db_ping_timeout_ms)) [
  | inl early ↦ (λ h. (t, refl, ground arith), λ a. rw early refl)
  | inr late ↦ (λ h. cc (rw late at h), λ a. ground arith)
]
postgres_state_iff (some (t, err e)) = elim (Bool-cases (ltb t db_ping_timeout_ms)) [
  | inl early ↦ (λ h. cc (rw early at h), λ a. ground arith)
  | inr late ↦ (λ h. cc (rw late at h), λ a. ground arith)
]

report_on_iff :
    (s : CheckState) (connected : Bool)
    → (report_on (record { postgres = s; rabbitmq = if connected then up else down })
        ≡ healthy all_up)
      ↔ ((s ≡ up) × (connected ≡ true))
report_on_iff up true = (λ h. (refl, refl), λ k. refl)
report_on_iff up false = (λ h. cc h, λ (a, c). cc c)
report_on_iff down true = (λ h. cc h, λ (a, c). cc a)
report_on_iff down false = (λ h. cc h, λ (a, c). cc c)

-- Exactly when the database answers the ping in time and the broker is connected.
check_iff :
    (ping : Pending ⊤) (connected : Bool)
    → (check ping connected ≡ healthy all_up) ↔ (AnswersInTime ping × (connected ≡ true))
unfolding check
check_iff ping connected =
    let (to, back) = report_on_iff (postgres_state ping) connected in
    let (answers, is_up_then) = postgres_state_iff ping in
    (λ h. let (s, c) = to h in (answers s, c), λ (a, c). back (is_up_then a, c))
