-- ===== src/Board/Store/Laws.antt =====
-- What a sequential run of web/src/state/useDemoStore.ts may still send after a reset.
use async_webhook_ingestion.Prelude.{
  ℕ, suc, ◌+◌, ◌≤◌, ◌<◌, String, Bool, true, false, ◌≡◌, refl, ◌∙◌, Option, none, some, List, [],
  ◌∷◌, ◌++◌, eqb, member, ◌==◌, if◌then◌else◌, Bool-cases, inl, inr, arith,
}
use async_webhook_ingestion.Board.Reducer.{
  Action, TriggerResult, trigger_started, http_result, envelope, reset,
}
use async_webhook_ingestion.Board.Scenarios.{TriggerSpec, ScenarioDef}
use async_webhook_ingestion.Board.Store.{
  Run, posting, waiting, over, Store, StoreEvent, answered, settled_now, timed_out, reset_pressed,
  on_event, on_events, result_action, go_on, resolve_run, after_answer, answer_run, settle_waiter,
}

abbrev is_start : Action → Bool
is_start (trigger_started s) = true
is_start (http_result r ts) = false
is_start (envelope e now) = false
is_start reset = false

-- How many requests were started.
abbrev pub starts : List Action → ℕ
starts [] = 0
starts (a ∷ as_) = if is_start a then suc (starts as_) else starts as_

starts-append : (as_ bs : List Action) → starts (as_ ++ bs) ≡ starts as_ + starts bs
starts-append [] bs = omega arith
starts-append (a ∷ as_) bs = elim (Bool-cases (is_start a)) [
  | inl start ↦ ground (arith, starts-append as_ bs)
  | inr other ↦ ground (arith, starts-append as_ bs)
]

-- Nothing more was started, and the run is as old as it was.
abbrev Quiet : Store → Store → Type 0
Quiet s t =
    (starts t.dispatched ≡ starts s.dispatched)
    × ((t.started_in ≡ s.started_in) × (s.generation ≤ t.generation))

module _ (scenario : ScenarioDef) where
  go_on-Quiet :
      (ts : String) (rest : List TriggerSpec) (s : Store)
      → s.started_in < s.generation
      → Quiet s (go_on scenario ts rest s)
  go_on-Quiet ts rest s h = elim (Bool-cases (eqb s.generation s.started_in)) [
    | inl same ↦ absurd (clash s.generation s.started_in same h)
    | inr other ↦ rw other (refl, (refl, omega arith))
  ]
    where
      clash : (m n : ℕ) → eqb m n ≡ true → n < m → ⊥
      clash m n e l = ground arith

  after_answer-Quiet :
      (ts : String) (rest : List TriggerSpec) (id : String) (settled : Bool) (s : Store)
      → s.started_in < s.generation
      → Quiet s (after_answer scenario ts rest id settled s)
  after_answer-Quiet ts [] id settled s h = (refl, (refl, omega arith))
  after_answer-Quiet ts (next ∷ rest) id true s h = go_on-Quiet ts (next ∷ rest) s h
  after_answer-Quiet ts (next ∷ rest) id false s h = (refl, (refl, omega arith))

  resolve_run-Quiet :
      (ts id : String) (run : Run) (s : Store)
      → s.started_in < s.generation
      → Quiet s (resolve_run scenario ts id run s)
  resolve_run-Quiet ts id (posting spec rest settled) s h =
      elim (Bool-cases (spec.correlation_id == id)) [
        | inl same ↦ rw same (refl, (refl, omega arith))
        | inr other ↦ rw other (refl, (refl, omega arith))
      ]
  resolve_run-Quiet ts id (waiting other rest) s h = elim (Bool-cases (other == id)) [
    | inl same ↦ rw same (go_on-Quiet ts rest s h)
    | inr different ↦ rw different (refl, (refl, omega arith))
  ]
  resolve_run-Quiet ts id over s h = (refl, (refl, omega arith))

  settle_waiter-Quiet :
      (ts id : String) (s : Store)
      → s.started_in < s.generation
      → Quiet s (settle_waiter scenario ts id s)
  settle_waiter-Quiet ts id s h = elim (Bool-cases (member id s.waiters)) [
    | inl there ↦ rw there (resolve_run-Quiet ts id s.run _ h)
    | inr gone ↦ rw gone (refl, (refl, omega arith))
  ]

  result_action-starts :
      (ts : String) (spec : TriggerSpec) (o : Option TriggerResult) (as_ : List Action)
      → starts (as_ ++ result_action ts spec o ∷ []) ≡ starts as_
  result_action-starts ts spec none as_ = starts-append as_ _ ∙ omega arith
  result_action-starts ts spec (some r) as_ = starts-append as_ _ ∙ omega arith

  answer_run-Quiet :
      (ts : String) (o : Option TriggerResult) (run : Run) (s : Store)
      → s.started_in < s.generation
      → Quiet s (answer_run scenario ts o run s)
  answer_run-Quiet ts o (posting spec rest settled) s h =
      let (p, (q, r)) =
        after_answer-Quiet ts rest spec.correlation_id settled
          (record s { dispatched = s.dispatched ++ result_action ts spec o ∷ [] }) h in
      (p ∙ result_action-starts ts spec o s.dispatched, (q, r))
  answer_run-Quiet ts o (waiting id rest) s h = (refl, (refl, omega arith))
  answer_run-Quiet ts o over s h = (refl, (refl, omega arith))

  on_event-Quiet :
      (event : StoreEvent) (s : Store)
      → s.started_in < s.generation
      → Quiet s (on_event scenario event s)
  unfolding on_event
  on_event-Quiet (answered ts o) s h = answer_run-Quiet ts o s.run s h
  on_event-Quiet (settled_now ts id) s h = settle_waiter-Quiet ts id s h
  on_event-Quiet (timed_out ts id) s h = settle_waiter-Quiet ts id s h
  on_event-Quiet reset_pressed s h =
      (starts-append s.dispatched _ ∙ omega arith, (refl, omega arith))

  on_events-Quiet :
      (events : List StoreEvent) (s : Store)
      → s.started_in < s.generation
      → Quiet s (on_events scenario events s)
  on_events-Quiet [] s h = (refl, (refl, omega arith))
  on_events-Quiet (event ∷ events) s h =
      let (p, (q, r)) = on_event-Quiet event s h in
      let (p', (q', r')) = on_events-Quiet events (on_event scenario event s) (omega arith) in
      (p' ∙ p, (q' ∙ q, omega arith))

  -- After a reset, a run that was started before it starts no further request, whatever is answered,
  -- settles, times out or is reset then.
  pub reset-silent :
      (events : List StoreEvent) (s : Store)
      → s.started_in ≤ s.generation
      → starts (on_events scenario (reset_pressed ∷ events) s).dispatched ≡ starts s.dispatched
  unfolding on_event
  reset-silent events s h =
      (on_events-Quiet events (on_event scenario reset_pressed s) (omega arith)).0
      ∙ starts-append s.dispatched _
      ∙ omega arith
