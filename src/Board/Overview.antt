-- ===== src/Board/Overview.antt =====
-- web/src/App.tsx: what it hands to its panels and keeps itself, with `percentile` of
-- web/src/state/reducer.ts, web/src/components/ResponsePanel.tsx, web/src/components/TokenDetail.tsx
-- and web/src/lib/useTheme.ts. `Math.ceil((p / 100) * n)` on floating-point numbers is an argument.
pub mod Laws
use Prim.Native.String
use async_webhook_ingestion.Prelude.{
  ℕ, zero, suc, ◌-◌, min, max, String, Bool, true, false, Option, none, some, List, [], ◌∷◌, map,
  keep, length, lookup, get_or, leb, ltb, eqb, ◌==◌, if◌then◌else◌,
}
use async_webhook_ingestion.Board.Tokens.{Browser, Token, processing_ms}
use async_webhook_ingestion.Board.Reducer.{DemoState}

-- `state.order.map((id) => state.tokens[id])`; `none` is `undefined`, which no panel could draw.
unfoldable pub tokens_of : DemoState → List (Option Token)
tokens_of state = map (λ id. lookup id state.tokens) state.order

abbrev pub latest_of : List Token → Option Token
latest_of [] = none
latest_of (token ∷ []) = some token
latest_of (token ∷ other ∷ tokens) = latest_of (other ∷ tokens)

abbrev same_event : String → Option String → Bool
same_event event_id none = false
same_event event_id (some other) = other == event_id

abbrev group_of : List Token → Option String → ℕ
group_of tokens none = 1
group_of tokens (some event_id) =
    if event_id == "" then 1 else length (keep (λ token. same_event event_id token.event_id) tokens)

unfoldable pub group_size : List Token → (selected : Option Token) → ℕ
group_size tokens none = 1
group_size tokens (some selected) = group_of tokens selected.event_id

-- With how many other tokens the panel says that the event is shared, if it says so.
abbrev pub shared_with : Token → (group : ℕ) → Option ℕ
shared_with token group =
    if get_or token.event_id "" == "" then none else if ltb 1 group then some (group - 1) else none

abbrev pub shown_signature : Option Token → (example : String × String) → String × String
shown_signature none example = example
shown_signature (some token) example =
    if get_or token.raw_body "" == ""
    then example
    else (get_or token.signed_timestamp "", get_or token.raw_body "")

-- `selected ?? latest`
abbrev pub answer_of : (selected : Option Token) → (latest : Option Token) → Option Token
answer_of none latest = latest
answer_of (some selected) latest = some selected

data Theme : Type 0 where
  dark light : Theme

abbrev toggle : Theme → Theme
toggle dark = light
toggle light = dark

pub record Overview : Type 0 where
  pub selected_id : Option String
  pub busy : Bool

abbrev pub is_selected : Option String → String → Bool
is_selected none id = false
is_selected (some current) id = current == id

unfoldable pub handle_select : String → Overview → Overview
handle_select id overview = record overview {
  selected_id = if is_selected overview.selected_id id then none else some id;
}

-- `handleReset` beside the reset of the store, and `handleRun` before and after its `await`, whose
-- `finally` runs however the scenario ends.
abbrev pub handle_reset : Overview → Overview
handle_reset overview = record overview { selected_id = none }

abbrev pub run_begin : Overview → Overview
run_begin overview = record overview { busy = true }

abbrev pub run_end : Overview → Overview
run_end overview = record overview { busy = false }

-- The duration of the processing, as the panel of the answer words it; `formatMs` is an argument.
abbrev pub no_duration : Option ℕ → String
no_duration none = "not queued"
no_duration (some status) = if eqb status 202 then "pending" else "not queued"

abbrev pub worded : (ℕ → String) → Option ℕ → Option ℕ → String
worded format_ms status none = no_duration status
worded format_ms status (some ms) = format_ms ms

unfoldable pub processing_text : Browser → (format_ms : ℕ → String) → Token → String
processing_text browser format_ms token =
    worded format_ms token.http_status (processing_ms browser token)

-- `[...values].sort((a, b) => a - b)`
abbrev pub place : ℕ → List ℕ → List ℕ
place v [] = v ∷ []
place v (w ∷ ws) = let rest = place v ws in if ltb w v then w ∷ rest else v ∷ w ∷ ws

abbrev pub sorted : List ℕ → List ℕ
sorted [] = []
sorted (v ∷ vs) = place v (sorted vs)

abbrev pub nth : List ℕ → ℕ → Option ℕ
nth [] i = none
nth (v ∷ vs) zero = some v
nth (v ∷ vs) (suc i) = nth vs i

-- `none` is null, and also an index out of range.
unfoldable pub percentile : (ceil_share : ℕ → ℕ → ℕ) → List ℕ → (p : ℕ) → Option ℕ
percentile ceil_share [] p = none
percentile ceil_share (v ∷ vs) p =
    let values = sorted (v ∷ vs) in
    nth values (min (length values - 1) (max 0 (ceil_share p (length values) - 1)))
