-- ===== src/Board/Walk/Laws.antt =====
-- How long a ball of web/src/components/Pipeline.tsx takes to the end of its path.
use async_webhook_ingestion.Prelude.{
  ℕ, ◌+◌, ◌-◌, ◌*◌, ◌≤◌, ◌<◌, min, ◌&&◌, ◌≡◌, sym, subst, ap, Option, none, some, List, [], ◌∷◌,
  get_elem?, leb, ltb, if◌then◌else◌, inl, inr, ◌⊎◌, Bool-cases, arith, ⊤,
}
use async_webhook_ingestion.Board.Graph.{
  NodeKey, post, guard, validate, exchange, work, worker_box, postgres, retry5s, retry30s,
  retry2min, dlq,
}
use async_webhook_ingestion.Board.Path.{PathStep}
use async_webhook_ingestion.Board.Walk.{tick_ms, dwell_ms, WalkEntry, dwell_of, target_of, advance}

-- Callbacks that come in order, none more than TICK_MS after the one before.
abbrev pub OnTime : ℕ → List ℕ → Type 0
OnTime prev [] = ⊤
OnTime prev (now ∷ times) = (prev ≤ now) × ((now ≤ prev + tick_ms) × OnTime now times)

abbrev pub last_time : ℕ → List ℕ → ℕ
last_time prev [] = prev
last_time prev (now ∷ times) = last_time now times

-- A ball after the callbacks at the given times.
abbrev pub advances : List ℕ → List PathStep → WalkEntry → WalkEntry
advances [] path entry = entry
advances (now ∷ times) path entry = advances times path (advance now path entry)

pub dwell_of-bounded : (s : Option PathStep) → (1 ≤ dwell_of s) × (dwell_of s ≤ 120000)
dwell_of-bounded none = (omega arith, omega arith)
dwell_of-bounded (some s) = dwell_ms-bounded s.node
  where
    dwell_ms-bounded : (n : NodeKey) → (1 ≤ dwell_ms n) × (dwell_ms n ≤ 120000)
    dwell_ms-bounded post = (omega arith, omega arith)
    dwell_ms-bounded guard = (omega arith, omega arith)
    dwell_ms-bounded validate = (omega arith, omega arith)
    dwell_ms-bounded exchange = (omega arith, omega arith)
    dwell_ms-bounded work = (omega arith, omega arith)
    dwell_ms-bounded worker_box = (omega arith, omega arith)
    dwell_ms-bounded postgres = (omega arith, omega arith)
    dwell_ms-bounded retry5s = (omega arith, omega arith)
    dwell_ms-bounded retry30s = (omega arith, omega arith)
    dwell_ms-bounded retry2min = (omega arith, omega arith)
    dwell_ms-bounded dlq = (omega arith, omega arith)

-- Where the ball stands: on its path, and since less than its box's time.
abbrev pub Dwelling : ℕ → List PathStep → WalkEntry → Type 0
Dwelling prev path entry =
    (entry.index ≤ target_of path)
    × ((entry.at ≤ prev)
        × (prev < entry.at + dwell_of (get_elem? path entry.index)
            ⊎ (entry.index ≡ target_of path)))

-- What is left of the longest walk.
abbrev pub due : List PathStep → WalkEntry → ℕ
due path entry = entry.at + (target_of path - entry.index) * 120200

abbrev moved : ℕ → ℕ → WalkEntry → ℕ → ℕ → WalkEntry
moved now target entry index d =
    if ltb index target && leb d (now - entry.at)
    then record { index = index + 1; at = now }
    else record { index = index; at = entry.at }

moved-cases :
    (now target d : ℕ) (entry : WalkEntry)
    → 1 ≤ d
    → entry.index ≤ target
    → ((entry.index ≡ target) × (moved now target entry entry.index d ≡ entry))
      ⊎ (((now < entry.at + d) × (moved now target entry entry.index d ≡ entry))
          ⊎ ((entry.index < target)
              × ((entry.at + d ≤ now)
                  × (moved now target entry entry.index d
                      ≡ record { index = entry.index + 1; at = now }))))
moved-cases now target d entry h k = elim (Bool-cases (ltb entry.index target)) [
  | inr last ↦ inl (ground arith, ground arith)
  | inl under ↦ elim (Bool-cases (leb d (now - entry.at))) [
    | inr early ↦ inr (inl (ground arith, ground arith))
    | inl over ↦ inr (inr (ground arith, (ground arith, ground arith)))
  ]
]

advance-moved :
    (now : ℕ) (path : List PathStep) (entry : WalkEntry)
    → entry.index ≤ target_of path
    → advance now path entry
      ≡ moved now (target_of path) entry entry.index (dwell_of (get_elem? path entry.index))
unfolding advance
advance-moved now path entry h =
    let same : min entry.index (target_of path) ≡ entry.index = omega arith in
    ap (λ i. moved now (target_of path) entry i (dwell_of (get_elem? path i))) same

advance-Dwelling :
    (prev now : ℕ) (path : List PathStep) (entry : WalkEntry)
    → prev ≤ now
    → now ≤ prev + tick_ms
    → Dwelling prev path entry
    → Dwelling now path (advance now path entry)
      × (due path (advance now path entry) ≤ due path entry)
advance-Dwelling prev now path entry h k (i, (a, d)) =
    let n = dwell_of (get_elem? path entry.index) in
    let (n1, n2) = dwell_of-bounded (get_elem? path entry.index) in
    subst (λ e. Dwelling now path e × (due path e ≤ due path entry))
      (sym (advance-moved now path entry i))
      (elim (moved-cases now (target_of path) n entry n1 i) [
        | inl (end_, eq) ↦
            subst (λ e. Dwelling now path e × (due path e ≤ due path entry)) (sym eq)
              ((i, (omega arith, inr end_)), omega arith)
        | inr (inl (early, eq)) ↦
            subst (λ e. Dwelling now path e × (due path e ≤ due path entry)) (sym eq)
              ((i, (omega arith, inl early)), omega arith)
        | inr (inr (under, (over, eq))) ↦
            subst (λ e. Dwelling now path e × (due path e ≤ due path entry)) (sym eq)
              (
                (
                  omega arith,
                  (
                    omega arith,
                    inl (omega (arith, dwell_of-bounded (get_elem? path (entry.index + 1)))),
                  ),
                ),
                elim d [ inl waiting ↦ omega arith | inr end_ ↦ omega arith ],
              )
      ])

pub advances-arrive :
    (prev : ℕ) (times : List ℕ) (path : List PathStep) (entry : WalkEntry)
    → OnTime prev times
    → Dwelling prev path entry
    → due path entry ≤ last_time prev times
    → (advances times path entry).index ≡ target_of path
advances-arrive prev [] path entry t (i, (a, d)) h =
    let bound = dwell_of-bounded (get_elem? path entry.index) in
    elim d [ inl waiting ↦ omega arith | inr end_ ↦ end_ ]
advances-arrive prev (now ∷ times) path entry (t1, (t2, t3)) d h =
    let (d', less) = advance-Dwelling prev now path entry t1 t2 d in
    advances-arrive now times path (advance now path entry) t3 d' (omega arith)
