-- ===== src/Board/Overview/Laws.antt =====
-- What the panels of the board find of the state that the reducer leaves.
use async_webhook_ingestion.Prelude.{
  any, ◌||◌, eqb, ⊤, ℕ, zero, suc, ◌<◌, String, Bool, true, ◌≡◌, refl, ap, ◌∙◌, sym, Option, none,
  some, List, [], ◌∷◌, ◌++◌, map, length, lookup, insert, lookup-insert, ◌==◌, eq_iff, arith, inl,
  inr, Bool-cases,
}
use async_webhook_ingestion.Board.Tokens.{Browser, Token}
use async_webhook_ingestion.Board.Tokens.Laws.{with_stage-IsConsistent}
use async_webhook_ingestion.Board.Reducer.{
  Existing, own, inherited, absent, existing_token, DemoState, Action, TriggerResult,
  TelemetryEnvelope, trigger_started, http_result, envelope, reset, reducer, initial_state,
  started_token, answered, countdown, envelope_event, after_result, after_envelope, result_into,
  envelope_into, count_stage,
}
use async_webhook_ingestion.Board.Reducer.Laws.{
  IsOrdinary, IsFound, is_own, is_absent, existing_token-IsFound, http_stages-IsConsistent,
}
use async_webhook_ingestion.Board.Overview.{tokens_of, place, sorted, nth, percentile}

abbrev pub id_of : Option Token → Option String
id_of none = none
id_of (some token) = some token.correlation_id

-- Each of these ids has a token, which carries it.
abbrev AllShown : List String → List (String × Token) → Type 0
AllShown [] tokens = ⊤
AllShown (id ∷ ids) tokens = (id_of (lookup id tokens) ≡ some id) × AllShown ids tokens

insert-shown :
    (id : String) (token : Token) (tokens : List (String × Token))
    → id_of (lookup id tokens) ≡ some id
    → id_of (lookup id (insert token.correlation_id token tokens)) ≡ some id
insert-shown id token tokens h = elim (Bool-cases (token.correlation_id == id)) [
  | inl same ↦
      rw (lookup-insert token.correlation_id id token tokens, same)
        (ap some ((eq_iff token.correlation_id id).0 same))
  | inr differ ↦ rw (lookup-insert token.correlation_id id token tokens, differ) h
]

insert-AllShown :
    (ids : List String) (token : Token) (tokens : List (String × Token))
    → AllShown ids tokens
    → AllShown ids (insert token.correlation_id token tokens)
insert-AllShown [] token tokens all = tt
insert-AllShown (id ∷ ids) token tokens (h, all) =
    (insert-shown id token tokens h, insert-AllShown ids token tokens all)

append-AllShown :
    (ids : List String) (id : String) (tokens : List (String × Token))
    → id_of (lookup id tokens) ≡ some id
    → AllShown ids tokens
    → AllShown (ids ++ id ∷ []) tokens
append-AllShown [] id tokens h all = (h, tt)
append-AllShown (other ∷ ids) id tokens h (k, all) = (k, append-AllShown ids id tokens h all)

started-shown :
    (id : String) (token : Token) (tokens : List (String × Token))
    → token.correlation_id ≡ id
    → id_of (lookup id (insert id token tokens)) ≡ some id
started-shown id token tokens h =
    rw (lookup-insert id id token tokens, (eq_iff id id).1 refl) (ap some h)

result_into-AllShown :
    (browser : Browser) (text_of : ℕ → String) (r : TriggerResult) (ts : String) (s : DemoState)
    (o : Existing)
    → IsFound o
    → AllShown s.order s.tokens
    → (s' : DemoState) × (result_into browser text_of r ts s o ≡ some s')
      × AllShown s'.order s'.tokens
result_into-AllShown browser text_of r ts s absent is_absent all = (s, refl, all)
result_into-AllShown browser text_of r ts s inherited f all = elim f [ ]
result_into-AllShown browser text_of r ts s (own token) (is_own t) all =
    let (after, h, c) = http_stages-IsConsistent browser text_of token r ts in
    (_, ap (after_result r s) h, insert-AllShown s.order (answered r after) s.tokens all)

envelope_into-AllShown :
    (browser : Browser) (e : TelemetryEnvelope) (now : ℕ) (s : DemoState) (o : Existing)
    → IsFound o
    → AllShown s.order s.tokens
    → (s' : DemoState) × (envelope_into browser e now s o ≡ some s') × AllShown s'.order s'.tokens
envelope_into-AllShown browser e now s absent is_absent all = (s, refl, all)
envelope_into-AllShown browser e now s inherited f all = elim f [ ]
envelope_into-AllShown browser e now s (own token) (is_own t) all =
    let (after, h, c) = with_stage-IsConsistent browser token (envelope_event e) in
    (_, ap (after_envelope e now s) h, insert-AllShown s.order (countdown e now after) s.tokens all)

reducer-AllShown :
    (browser : Browser) (text_of : ℕ → String) (s : DemoState) (a : Action)
    → IsOrdinary a
    → AllShown s.order s.tokens
    → (s' : DemoState) × (reducer browser text_of s a ≡ some s') × AllShown s'.order s'.tokens
unfolding reducer
reducer-AllShown browser text_of s (trigger_started a) plain all =
    let token = started_token browser a in
    (
      _,
      refl,
      append-AllShown s.order a.correlation_id (insert a.correlation_id token s.tokens)
          (started-shown a.correlation_id token s.tokens refl)
          (insert-AllShown s.order token s.tokens all),
    )
reducer-AllShown browser text_of s (http_result r ts) plain all =
    result_into-AllShown browser text_of r ts s (existing_token r.correlation_id s)
      (existing_token-IsFound r.correlation_id s plain) all
reducer-AllShown browser text_of s (envelope e now) plain all =
    envelope_into-AllShown browser e now (record s { counters = count_stage e.stage s.counters })
      (existing_token e.correlation_id s) (existing_token-IsFound e.correlation_id s plain) all
reducer-AllShown browser text_of s reset plain all = (initial_state, refl, tt)

abbrev pub AreOrdinary : List Action → Type 0
AreOrdinary [] = ⊤
AreOrdinary (a ∷ actions) = IsOrdinary a × AreOrdinary actions

-- The actions that are dispatched, one after another.
abbrev reduce_into : Option DemoState → (DemoState → Option DemoState) → Option DemoState
reduce_into none k = none
reduce_into (some s) k = k s

abbrev pub dispatch_all : Browser → (ℕ → String) → List Action → DemoState → Option DemoState
dispatch_all browser text_of [] s = some s
dispatch_all browser text_of (a ∷ actions) s =
    reduce_into (reducer browser text_of s a) (dispatch_all browser text_of actions)

dispatch_all-AllShown :
    (browser : Browser) (text_of : ℕ → String) (actions : List Action) (s : DemoState)
    → AreOrdinary actions
    → AllShown s.order s.tokens
    → (s' : DemoState) × (dispatch_all browser text_of actions s ≡ some s')
      × AllShown s'.order s'.tokens
dispatch_all-AllShown browser text_of [] s plain all = (s, refl, all)
dispatch_all-AllShown browser text_of (a ∷ actions) s (plain, plains) all =
    let (next, h, kept) = reducer-AllShown browser text_of s a plain all in
    let (last, k, end) = dispatch_all-AllShown browser text_of actions next plains kept in
    (last, rw h k, end)

map-AllShown :
    (ids : List String) (tokens : List (String × Token))
    → AllShown ids tokens
    → map id_of (map (λ id. lookup id tokens) ids) ≡ map some ids
map-AllShown [] tokens all = refl
map-AllShown (id ∷ ids) tokens (h, all) = rw (h, map-AllShown ids tokens all) refl

-- Whatever is dispatched from the empty board on, as long as no action names a key which every object
-- inherits, the reducer never throws, and the board finds for each id of its order, in that order, a token, and the one that carries this id.
pub tokens_of_complete :
    (browser : Browser) (text_of : ℕ → String) (actions : List Action)
    → AreOrdinary actions
    → (s : DemoState) × (dispatch_all browser text_of actions initial_state ≡ some s)
      × (map id_of (tokens_of s) ≡ map some s.order)
unfolding tokens_of
tokens_of_complete browser text_of actions plain =
    let (s, h, all) = dispatch_all-AllShown browser text_of actions initial_state plain tt in
    (s, h, map-AllShown s.order s.tokens all)

any-place : (q : ℕ → Bool) (v : ℕ) (vs : List ℕ) → any q (place v vs) ≡ (q v || any q vs)
any-place q v [] = refl
any-place q v (w ∷ ws) = ground (any-place q v ws, arith)

length-place : (v : ℕ) (vs : List ℕ) → length (place v vs) ≡ suc (length vs)
length-place v [] = refl
length-place v (w ∷ ws) = ground (length-place v ws, arith)

any-sorted : (q : ℕ → Bool) (vs : List ℕ) → any q (sorted vs) ≡ any q vs
any-sorted q [] = refl
any-sorted q (v ∷ vs) = any-place q v (sorted vs) ∙ ap (λ b. q v || b) (any-sorted q vs)

nth_among :
    (vs : List ℕ) (i : ℕ) → i < length vs → (m : ℕ) × (nth vs i ≡ some m) × (any (eqb m) vs ≡ true)
nth_among [] i h = absurd (omega arith)
nth_among (v ∷ vs) zero h = (v, refl, ground arith)
nth_among (v ∷ vs) (suc i) h =
    let (m, found, there) = nth_among vs i (omega (arith, h)) in (m, found, ground (there, arith))

-- However the share is rounded, a percentile of values is one of them: the index is never out of
-- range.
percentile_among :
    (ceil_share : ℕ → ℕ → ℕ) (v : ℕ) (vs : List ℕ) (p : ℕ)
    → (m : ℕ) × (percentile ceil_share (v ∷ vs) p ≡ some m) × (any (eqb m) (v ∷ vs) ≡ true)
unfolding percentile
percentile_among ceil_share v vs p =
    let (m, found, there) =
      nth_among (sorted (v ∷ vs)) _ (omega (arith, length-place v (sorted vs))) in
    (m, found, sym (any-sorted (eqb m) (v ∷ vs)) ∙ there)
