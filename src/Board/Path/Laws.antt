-- ===== src/Board/Path/Laws.antt =====
-- What holds of the paths of web/src/components/Pipeline.tsx: forward in the main row they go box by box, and they end at the last stage.
use async_webhook_ingestion.Prelude.{
  ℕ, ◌+◌, String, Bool, true, false, not, ◌&&◌, ◌||◌, ◌≡◌, refl, Option, none, some, List, [], ◌∷◌,
  ◌++◌, all, ltb, if◌then◌else◌, arith,
}
use async_webhook_ingestion.Board.Stages.{api, received}
use async_webhook_ingestion.Board.Tokens.{StageEvent, Token}
use async_webhook_ingestion.Board.Graph.{
  NodeKey, post, guard, validate, exchange, work, worker_box, postgres, retry5s, retry30s,
  retry2min, dlq, all_nodes,
}
use async_webhook_ingestion.Board.Path.{
  PathStep, main_index, same_node, between, step_for, path_from, path_of_stages, path_of,
}

-- Whether a step within the main row goes further forward than to the next box of it.
abbrev skips : Option ℕ → Option ℕ → Bool
skips none to = false
skips (some from) none = false
skips (some from) (some to) = ltb (from + 1) to

-- A step to another box, and to the next one if it goes forward within the main row.
abbrev pub adjacent : NodeKey → NodeKey → Bool
adjacent a b = not (same_node a b) && not (skips (main_index a) (main_index b))

abbrev pub connected_from : NodeKey → List PathStep → Bool
connected_from a [] = true
connected_from a (s ∷ steps) = adjacent a s.node && connected_from s.node steps

abbrev pub connected : List PathStep → Bool
connected [] = true
connected (s ∷ steps) = connected_from s.node steps

abbrev pub last : List PathStep → Option PathStep
last [] = none
last (s ∷ []) = some s
last (s ∷ (t ∷ steps)) = last (t ∷ steps)

-- The stage that a token shows last, `received` before any.
abbrev latest_from : StageEvent → List StageEvent → StageEvent
latest_from event [] = event
latest_from event (next ∷ events) = latest_from next events

abbrev pub latest : List StageEvent → StageEvent
latest [] = record { stage = api received; ts = ""; status = none; attempts = none }
latest (event ∷ events) = latest_from event events

-- From `a` through the steps to `b`.
abbrev leads : NodeKey → List PathStep → NodeKey → Bool
leads a [] b = adjacent a b
leads a (s ∷ steps) b = adjacent a s.node && leads s.node steps b

abbrev bridged : Token → String → NodeKey → NodeKey → Bool
bridged token color a b = same_node a b || leads a (between token color a b) b

every_node : (p : NodeKey → Bool) → all p all_nodes ≡ true → (a : NodeKey) → p a ≡ true
every_node p h post = ground arith
every_node p h guard = ground arith
every_node p h validate = ground arith
every_node p h exchange = ground arith
every_node p h work = ground arith
every_node p h worker_box = ground arith
every_node p h postgres = ground arith
every_node p h retry5s = ground arith
every_node p h retry30s = ground arith
every_node p h retry2min = ground arith
every_node p h dlq = ground arith

bridged-all :
    (token : Token) (color : String)
    → all (λ a. all (bridged token color a) all_nodes) all_nodes ≡ true
bridged-all token color = refl

other_one : (x y : Bool) → x || y ≡ true → x ≡ false → y ≡ true
other_one x y h k = ground arith

between-leads :
    (token : Token) (color : String) (a b : NodeKey)
    → same_node a b ≡ false
    → leads a (between token color a b) b ≡ true
between-leads token color a b h =
    other_one (same_node a b) (leads a (between token color a b) b)
      (every_node (bridged token color a)
        (every_node (λ a'. all (bridged token color a') all_nodes) (bridged-all token color) a) b)
      h

same_node-adjacent :
    (n a b : NodeKey) → same_node a b ≡ true → adjacent n a ≡ true → adjacent n b ≡ true
same_node-adjacent n a b same h =
    if_both (same_node a b) (adjacent n a) (adjacent n b)
      (every_node (λ b'. not (same_node a b' && adjacent n a) || adjacent n b')
        (every_node
          (λ a'. all (λ b'. not (same_node a' b' && adjacent n a') || adjacent n b') all_nodes)
          (every_node
            (λ n'.
              all
                (λ a'.
                  all (λ b'. not (same_node a' b' && adjacent n' a') || adjacent n' b') all_nodes)
                all_nodes)
            refl n)
          a)
        b)
      same h
  where
    if_both : (x y z : Bool) → not (x && y) || z ≡ true → x ≡ true → y ≡ true → z ≡ true
    if_both x y z h p q = ground arith

-- Steps that lead from `a` to a box where the rest connects.
leads-connected :
    (a b : NodeKey) (steps rest : List PathStep)
    → leads a steps b ≡ true
    → ((n : NodeKey) → adjacent n b ≡ true → connected_from n rest ≡ true)
    → connected_from a (steps ++ rest) ≡ true
leads-connected a b [] rest h k = k a h
leads-connected a b (s ∷ steps) rest h k =
    let (h1, h2) = both (adjacent a s.node) (leads s.node steps b) h in
    ground (arith, leads-connected s.node b steps rest h2 k)
  where
    both : (x y : Bool) → x && y ≡ true → (x ≡ true) × (y ≡ true)
    both x y h = ground arith

connected-if :
    (b : Bool) (n : NodeKey) (xs ys : List PathStep)
    → (b ≡ true → connected_from n xs ≡ true)
    → (b ≡ false → connected_from n ys ≡ true)
    → connected_from n (if b then xs else ys) ≡ true
connected-if true n xs ys h k = h refl
connected-if false n xs ys h k = k refl

last-cons :
    (s p : PathStep) (steps : List PathStep) → last steps ≡ some p → last (s ∷ steps) ≡ some p
last-cons s p [] h = cc h
last-cons s p (t ∷ steps) h = h

last-append :
    (p : PathStep) (steps rest : List PathStep) → last rest ≡ some p → last (steps ++ rest) ≡ some p
last-append p [] rest h = h
last-append p (s ∷ steps) rest h = last-cons s p (steps ++ rest) (last-append p steps rest h)

last-if :
    (b : Bool) (p s : PathStep) (steps rest : List PathStep)
    → last rest ≡ some p
    → last (if b then rest else s ∷ (steps ++ rest)) ≡ some p
last-if true p s steps rest h = h
last-if false p s steps rest h = last-append p (s ∷ steps) rest h

connected_from-connected :
    (n : NodeKey) (steps : List PathStep) → connected_from n steps ≡ true → connected steps ≡ true
connected_from-connected n [] h = refl
connected_from-connected n (s ∷ steps) h =
    second (adjacent n s.node) (connected_from s.node steps) h
  where
    second : (x y : Bool) → x && y ≡ true → y ≡ true
    second x y h = ground arith

-- A box from which every path can start.
abbrev before : NodeKey → NodeKey
before a = if same_node a retry5s then retry30s else retry5s

before-adjacent : (a : NodeKey) → adjacent (before a) a ≡ true
before-adjacent a = every_node (λ a'. adjacent (before a') a') refl a

module _ (text_of : ℕ → String) where
  path_from-connected :
      (token : Token) (tail : PathStep) (events : List StageEvent) (n : NodeKey)
      → adjacent n tail.node ≡ true
      → connected_from n (path_from text_of token tail events) ≡ true
  path_from-connected token tail [] n h = ground arith
  path_from-connected token tail (event ∷ events) n h =
      let new = step_for text_of token event in
      let bridge = between token tail.color tail.node new.node in
      let rest = path_from text_of token new events in
      connected-if (same_node tail.node new.node) n rest (tail ∷ (bridge ++ rest))
        (λ same.
          path_from-connected token new events n (same_node-adjacent n tail.node new.node same h))
        (λ other. and_true h (
          leads-connected tail.node new.node bridge rest
            (between-leads token tail.color tail.node new.node other)
            (path_from-connected token new events)))
    where
      and_true : {x y : Bool} → x ≡ true → y ≡ true → x && y ≡ true
      and_true {x} {y} p q = ground arith

  connected_start :
      (token : Token) (tail : PathStep) (events : List StageEvent)
      → connected (path_from text_of token tail events) ≡ true
  connected_start token tail events =
      connected_from-connected (before tail.node) (path_from text_of token tail events)
        (path_from-connected token tail events (before tail.node) (before-adjacent tail.node))

  path_from-last :
      (token : Token) (event : StageEvent) (events : List StageEvent)
      → last (path_from text_of token (step_for text_of token event) events)
        ≡ some (step_for text_of token (latest_from event events))
  path_from-last token event [] = refl
  path_from-last token event (next ∷ events) =
      let tail = step_for text_of token event in
      let new = step_for text_of token next in
      last-if (same_node tail.node new.node) (step_for text_of token (latest_from next events)) tail
        (between token tail.color tail.node new.node) (path_from text_of token new events)
        (path_from-last token next events)

  -- Whatever the stages of a token are, each step of its path goes to another box, a step forward
  -- within the main row goes to the next box of it, and the path ends at the box, colour and caption
  -- of the latest stage. A step into the row, out of it (to a retry box or the dead-letter box) or
  -- back along it may be of any length.
  pub path_of-connected :
      (token : Token)
      → (connected (path_of text_of token) ≡ true)
        × (last (path_of text_of token) ≡ some (step_for text_of token (latest token.stages)))
  unfolding path_of
  path_of-connected token = path_of_stages-connected token token.stages
    where
      path_of_stages-connected :
          (token : Token) (events : List StageEvent)
          → (connected (path_of_stages text_of token events) ≡ true)
            × (last (path_of_stages text_of token events)
                ≡ some (step_for text_of token (latest events)))
      path_of_stages-connected token [] = (refl, refl)
      path_of_stages-connected token (event ∷ events) = (
        connected_start token (step_for text_of token event) events,
        path_from-last token event events,
      )
