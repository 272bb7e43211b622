-- ===== src/Board/Tokens/Laws.antt =====
-- The stage that a token shows.
use async_webhook_ingestion.Prelude.{
  ⊤, ℕ, ◌≤◌, ◌≡◌, refl, some, List, [], ◌∷◌, ◌++◌, inl, inr, Bool-cases, arith,
}
use async_webhook_ingestion.Board.Stages.{Stage, stage_rank, is_terminal}
use async_webhook_ingestion.Board.Tokens.{
  Browser, StageEvent, Token, goes_before, sort_in, sort, without_same, insert_stage, higher,
  highest_from, highest_stage, set_stages, with_stage,
}

-- Every stage ranks at most `n`.
abbrev pub AllBelow : ℕ → List StageEvent → Type 0
AllBelow n [] = ⊤
AllBelow n (event ∷ events) = (stage_rank event.stage ≤ n) × AllBelow n events

-- A token shows a stage of the highest rank that it has reached, and is terminal as that stage is.
pub record IsConsistent (token : Token) : Type 0 where
  pub highest : AllBelow (stage_rank token.current_stage) token.stages
  pub ended : token.terminal ≡ is_terminal token.current_stage

higher_upper :
    (a b : Stage)
    → (stage_rank a ≤ stage_rank (higher a b)) × (stage_rank b ≤ stage_rank (higher a b))
higher_upper a b = ground arith

highest_from-AllBelow :
    (top : Stage) (events : List StageEvent)
    → (stage_rank top ≤ stage_rank (highest_from top events))
      × AllBelow (stage_rank (highest_from top events)) events
highest_from-AllBelow top [] = (omega arith, tt)
highest_from-AllBelow top (event ∷ events) =
    let (here, rest) = highest_from-AllBelow (higher top event.stage) events in
    let (left, right) = higher_upper top event.stage in
    (omega (arith, here, left), (omega (arith, here, right), rest))

sort_in-cons :
    (browser : Browser) (a : StageEvent) (events : List StageEvent)
    → (b : StageEvent) × (bs : List StageEvent) × (sort_in browser a events ≡ b ∷ bs)
sort_in-cons browser a [] = (a, [], refl)
sort_in-cons browser a (b ∷ bs) = elim (Bool-cases (goes_before browser b a)) [
  | inl before ↦ (b, sort_in browser a bs, rw before refl)
  | inr after ↦ (a, b ∷ bs, rw after refl)
]

sort_last-cons :
    (browser : Browser) (events : List StageEvent) (last : StageEvent)
    → (b : StageEvent) × (bs : List StageEvent) × (sort browser (events ++ last ∷ []) ≡ b ∷ bs)
sort_last-cons browser [] last = (last, [], refl)
sort_last-cons browser (event ∷ events) last =
    sort_in-cons browser event (sort browser (events ++ last ∷ []))

set_stages-IsConsistent :
    (token : Token) (event : StageEvent) (stages : List StageEvent) (b : StageEvent)
    (bs : List StageEvent)
    → stages ≡ b ∷ bs
    → (after : Token) × (set_stages token event stages (highest_stage stages) ≡ some after)
      × IsConsistent after
set_stages-IsConsistent token event [] b bs h = cc
set_stages-IsConsistent token event (c ∷ cs) b bs h =
    let (here, rest) = highest_from-AllBelow c.stage cs in
    (_, refl, record { highest = (here, rest); ended = refl })

-- Recording a stage never fails: the array whose highest stage is taken is never empty. The token
-- then shows a stage of the highest rank among those that it has reached.
pub with_stage-IsConsistent :
    (browser : Browser) (token : Token) (event : StageEvent)
    → (after : Token) × (with_stage browser token event ≡ some after) × IsConsistent after
unfolding with_stage insert_stage
with_stage-IsConsistent browser token event =
    let (b, bs, h) = sort_last-cons browser (without_same token.stages event) event in
    set_stages-IsConsistent token event (insert_stage browser token.stages event) b bs h
