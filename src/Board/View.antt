-- ===== src/Board/View.antt =====
-- web/src/components/Pipeline.tsx: what the board draws of a walk.
pub mod Laws
use async_webhook_ingestion.Prelude.{
  ℕ, suc, ◌+◌, ◌-◌, ◌/◌, max, String, Bool, true, false, not, ◌&&◌, ◌||◌, Option, none, some, List,
  [], ◌∷◌, ◌++◌, map, keep, lookup, insert, get_or, is_none, is_some, ltb, leb, eqb, ◌==◌,
  if◌then◌else◌,
}
use async_webhook_ingestion.Board.Tokens.{Token}
use async_webhook_ingestion.Board.Graph.{NodeKey, node_number, stage_meta}
use async_webhook_ingestion.Board.Path.{same_node, is_retry_node}
use async_webhook_ingestion.Board.Walk.{WalkEntry, Walk, Visual, visual_of}

abbrev pub caption_linger_ms : ℕ
caption_linger_ms = 10000

abbrev pub token_color : Token → String
token_color token = (stage_meta token.current_stage).color

-- `grouped`: the boxes in the order in which they are first filled, each with its tokens in order.
abbrev pub Grouped : Type 0
Grouped = List (NodeKey × List Token)

abbrev pub put_in : NodeKey → Token → Grouped → Grouped
put_in key token [] = (key, token ∷ []) ∷ []
put_in key token ((other, here) ∷ groups) =
    let rest = put_in key token groups in
    if same_node other key then (other, here ++ token ∷ []) ∷ groups else (other, here) ∷ rest

-- `retryArrival.current`, which real-time mode alone writes.
pub record Arrival : Type 0 where
  pub node : NodeKey
  pub at : ℕ

abbrev pub is_arrived : Option Arrival → NodeKey → Bool
is_arrived none key = false
is_arrived (some arrival) key = same_node arrival.node key

abbrev pub stamp : Bool → ℕ → NodeKey → String → List (String × Arrival) → List (String × Arrival)
stamp paced now key id arrivals =
    if not paced && (is_retry_node key && not (is_arrived (lookup id arrivals) key))
    then insert id (record { node = key; at = now }) arrivals
    else arrivals

abbrev arrival_at : Option Arrival → NodeKey → Option ℕ
arrival_at none node = none
arrival_at (some arrival) node = if same_node arrival.node node then some arrival.at else none

abbrev entry_at : Option WalkEntry → Option ℕ
entry_at none = none
entry_at (some entry) = some entry.at

abbrev pub arrived_at : Bool → Walk → List (String × Arrival) → String → NodeKey → Option ℕ
arrived_at paced walk arrivals id node =
    if paced then entry_at (lookup id walk) else arrival_at (lookup id arrivals) node

abbrev seconds_since : ℕ → Option ℕ → Option ℕ
seconds_since clock none = none
seconds_since clock (some at) = some ((clock - at) / 1000)

-- The stopwatch over a retry box, whose clock stands while the walk is paused.
unfoldable pub elapsed_of : Bool → Option ℕ → ℕ → NodeKey → Option ℕ → Option ℕ
elapsed_of paced paused_at now node arrived =
    let clock = if paced then get_or paused_at now else now in
    if is_retry_node node then seconds_since clock arrived else none

abbrev lingered : ℕ → Option ℕ → Bool
lingered now none = false
lingered now (some at) = leb (at + caption_linger_ms) now

unfoldable pub show_caption : Bool → Option ℕ → ℕ → Visual → Option ℕ → Bool
show_caption paced paused_at now visual settled_at =
    paced
    && (not (visual.caption == "")
        && not (visual.at_end && (is_none paused_at && lingered now settled_at)))

abbrev pub is_at_end : Option Visual → Bool
is_at_end none = false
is_at_end (some visual) = visual.at_end

-- `settledRef.current`: when each token settled.
abbrev pub Settled : Type 0
Settled = List (String × ℕ)

module _ (text_of : ℕ → String) where
  abbrev pub settles : Bool → Walk → Settled → Token → Bool
  settles paced walk settled token =
      token.terminal
      && (is_at_end (visual_of text_of paced walk token)
          && is_none (lookup token.correlation_id settled))

  unfoldable pub settled_now : Bool → Walk → Settled → List Token → List String
  settled_now paced walk settled tokens =
      map (λ token. token.correlation_id) (keep (settles paced walk settled) tokens)

-- The effect: each id is recorded, and `onSettled` is called with it.
unfoldable pub settle : ℕ → List String → Settled → Settled
settle now [] settled = settled
settle now (id ∷ ids) settled = settle now ids (insert id now settled)
