-- ===== src/Board/Walk.antt =====
-- web/src/components/Pipeline.tsx: the walk of the balls over the board, tick by tick.
pub mod Laws
pub mod Arrival
use async_webhook_ingestion.Prelude.{
  ℕ, suc, ◌+◌, ◌-◌, min, max, String, Bool, true, false, not, ◌&&◌, ◌||◌, Option, none, some, List,
  [], ◌∷◌, map, keep, length, get_elem?, lookup, insert, get_or, is_none, is_some, ltb, leb, eqb,
  ◌==◌, if◌then◌else◌,
}
use async_webhook_ingestion.Board.Tokens.{Token}
use async_webhook_ingestion.Board.Graph.{
  NodeKey, post, guard, validate, exchange, work, worker_box, postgres, retry5s, retry30s,
  retry2min, dlq,
}
use async_webhook_ingestion.Board.Path.{PathStep, path_of}

abbrev pub tick_ms : ℕ
tick_ms = 200

abbrev pub hop_ms : ℕ
hop_ms = 750

-- `RETRY_BOX_MS[node] ?? HOP_MS`
abbrev pub dwell_ms : NodeKey → ℕ
dwell_ms retry5s = 5000
dwell_ms retry30s = 30000
dwell_ms retry2min = 120000
dwell_ms post = hop_ms
dwell_ms guard = hop_ms
dwell_ms validate = hop_ms
dwell_ms exchange = hop_ms
dwell_ms work = hop_ms
dwell_ms worker_box = hop_ms
dwell_ms postgres = hop_ms
dwell_ms dlq = hop_ms

pub record WalkEntry : Type 0 where
  pub index : ℕ
  pub at : ℕ

abbrev pub Walk : Type 0
Walk = List (String × WalkEntry)

-- `path[index].node` is read below the last index only.
abbrev pub dwell_of : Option PathStep → ℕ
dwell_of none = hop_ms
dwell_of (some s) = dwell_ms s.node

abbrev pub target_of : List PathStep → ℕ
target_of path = length path - 1

-- One ball at one tick. A clock that reads less than `at` has not waited, as `now - at` being 0 says.
unfoldable pub advance : ℕ → List PathStep → WalkEntry → WalkEntry
advance now path entry =
    let index = min entry.index (target_of path) in
    if ltb index (target_of path) && leb (dwell_of (get_elem? path index)) (now - entry.at)
    then record { index = index + 1; at = now }
    else record { index = index; at = entry.at }

abbrev pub entry_of : ℕ → Token → Walk → WalkEntry
entry_of now token walk = get_or (lookup token.correlation_id walk) (record { index = 0; at = now })

-- `!(id in prev) || index !== entry.index || at !== entry.at`
abbrev pub is_moved : Walk → Token → WalkEntry → WalkEntry → Bool
is_moved prev token entry moved =
    is_none (lookup token.correlation_id prev)
    || (not (eqb moved.index entry.index) || not (eqb moved.at entry.at))

pub data Direction : Type 0 where
  forward backward : Direction

-- `walk[id]?.index ?? 0`
abbrev pub index_of : Option WalkEntry → ℕ
index_of none = 0
index_of (some entry) = entry.index

module _ (text_of : ℕ → String) where
  -- One round of the loop: `prev` is read, `next` is written.
  abbrev pub tick_token : ℕ → Walk → Walk → Token → Walk
  tick_token now prev next token =
      let entry = entry_of now token prev in
      let moved = advance now (path_of text_of token) entry in
      if is_moved prev token entry moved then insert token.correlation_id moved next else next

  abbrev pub tick_from : ℕ → Walk → Walk → List Token → Walk
  tick_from now prev next [] = next
  tick_from now prev next (token ∷ tokens) =
      tick_from now prev (tick_token now prev next token) tokens

  -- The interval's callback.
  unfoldable pub tick : ℕ → List Token → Walk → Walk
  tick now tokens walk = tick_from now walk walk tokens

  -- The callbacks at the times `now`, in this order, while the tokens stay as they are.
  abbrev pub ticks : List ℕ → List Token → Walk → Walk
  ticks [] tokens walk = walk
  ticks (now ∷ times) tokens walk = ticks times tokens (tick now tokens walk)

  -- `Math.min(Math.max(entry.index + direction, 0), target)`
  abbrev pub stepped : Direction → ℕ → ℕ → ℕ
  stepped forward index target = min (index + 1) target
  stepped backward index target = min (index - 1) target

  abbrev pub step_from : Direction → ℕ → Walk → Walk → List Token → Walk
  step_from direction at prev next [] = next
  step_from direction at prev next (token ∷ tokens) =
      let entry = entry_of at token prev in
      let index = stepped direction entry.index (target_of (path_of text_of token)) in
      step_from direction at prev
        (insert token.correlation_id (record { index = index; at = at }) next) tokens

pub record Playback : Type 0 where
  pub walk : Walk
  pub paused_at : Option ℕ

abbrev is_selected : Option String → Token → Bool
is_selected none token = false
is_selected (some id) token = token.correlation_id == id

-- `stepping`: the selected token, or all when none is.
abbrev stepping : Option String → List Token → List Token
stepping id tokens =
    let selected = keep (is_selected id) tokens in elim selected [ [] ↦ tokens | t ∷ ts ↦ t ∷ ts ]

module _ (text_of : ℕ → String) where
  abbrev pause_at : Direction → ℕ → Option ℕ → Option ℕ
  pause_at forward at paused = paused
  pause_at backward at none = some at
  pause_at backward at (some t) = some t

  -- `step`, with `Date.now()` passed in.
  unfoldable pub step : Direction → ℕ → Option String → List Token → Playback → Playback
  step direction now selected tokens state =
      let at = get_or state.paused_at now in
      record {
        walk = step_from text_of direction at state.walk state.walk (stepping selected tokens);
        paused_at = pause_at direction at state.paused_at;
      }

abbrev later : ℕ → Walk → Walk
later delta [] = []
later delta ((id, entry) ∷ walk) = (id, record entry { at = entry.at + delta }) ∷ later delta walk

abbrev toggle : ℕ → Walk → Option ℕ → Playback
toggle now walk none = record { walk = walk; paused_at = some now }
toggle now walk (some t) = record { walk = later (now - t) walk; paused_at = none }

-- `togglePause`
unfoldable pub toggle_pause : ℕ → Playback → Playback
toggle_pause now state = toggle now state.walk state.paused_at

-- The index a token is shown at: of the walk when paced, the last when not.
abbrev pub shown_index : Bool → Walk → Token → List PathStep → ℕ
shown_index paced walk token path =
    if paced
    then min (index_of (lookup token.correlation_id walk)) (length path - 1)
    else length path - 1

pub record Visual : Type 0 where
  pub node : NodeKey
  pub color : String
  pub caption : String
  pub at_end : Bool

abbrev pub visual_at : List PathStep → ℕ → Option PathStep → Option Visual
visual_at path index none = none
visual_at path index (some s) = some (record {
  node = s.node;
  color = s.color;
  caption = s.caption;
  at_end = eqb index (length path - 1);
})

module _ (text_of : ℕ → String) where
  -- What `visual` holds for a token.
  unfoldable pub visual_of : Bool → Walk → Token → Option Visual
  visual_of paced walk token =
      let path = path_of text_of token in
      let index = shown_index paced walk token path in visual_at path index (get_elem? path index)
