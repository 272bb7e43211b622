-- ===== src/Board/Reducer/Laws.antt =====
-- What the board's reducer keeps.
use async_webhook_ingestion.Prelude.{
  ⊤, ℕ, String, ◌≡◌, refl, ap, true, false, Option, none, some, List, [], ◌∷◌, lookup, member, inl,
  inr, Bool-cases, get_or,
}
use async_webhook_ingestion.Board.Stages.{
  received, published, signature_verified, api, same_stage, is_terminal,
}
use async_webhook_ingestion.Board.Tokens.{Browser, Token}
use async_webhook_ingestion.Board.Tokens.Laws.{IsConsistent, with_stage-IsConsistent}
use async_webhook_ingestion.Board.Reducer.{
  TriggerResult, TelemetryEnvelope, DemoState, Action, trigger_started, http_result, envelope,
  reset, http_stages, envelope_event, bare, Existing, own, inherited, absent, existing_from,
  existing_token, inherited_keys, after_envelope, count_stage, envelope_into, reducer,
}

-- Every token of the map is consistent.
abbrev pub AllConsistent : List (String × Token) → Type 0
AllConsistent [] = ⊤
AllConsistent ((id, token) ∷ tokens) = IsConsistent token × AllConsistent tokens

-- A token starts at `received` or `injected`, as the types of the source say.
abbrev pub IsStart : Action → Type 0
IsStart (trigger_started a) = is_terminal (api (get_or a.initial_stage received)) ≡ false
IsStart (http_result r ts) = ⊤
IsStart (envelope e now) = ⊤
IsStart reset = ⊤

-- An action that names no key which a plain object inherits.
abbrev pub IsOrdinary : Action → Type 0
IsOrdinary (trigger_started a) = ⊤
IsOrdinary (http_result r ts) = member r.correlation_id inherited_keys ≡ false
IsOrdinary (envelope e now) = member e.correlation_id inherited_keys ≡ false
IsOrdinary reset = ⊤

pub data IsFound : Existing → Type 0 where
  is_own : (token : Token) → IsFound (own token)
  is_absent : IsFound absent

existing_from-IsFound : (o : Option Token) → IsFound (existing_from false o)
existing_from-IsFound none = is_absent
existing_from-IsFound (some token) = is_own token

-- A key that is not inherited reads a token or nothing.
pub existing_token-IsFound :
    (id : String) (s : DemoState) → member id inherited_keys ≡ false → IsFound (existing_token id s)
existing_token-IsFound id s h = rw h (existing_from-IsFound (lookup id s.tokens))

pub http_stages-IsConsistent :
    (browser : Browser) (text_of : ℕ → String) (token : Token) (r : TriggerResult) (ts : String)
    → (after : Token) × (http_stages browser text_of token r ts ≡ some after) × IsConsistent after
http_stages-IsConsistent browser text_of token r ts =
    elim (Bool-cases (same_stage (api r.api_stage) (api published))) [
      | inl same ↦
          let (verified, h, _) =
            with_stage-IsConsistent browser token (bare signature_verified ts) in
          let (after, k, c) = with_stage-IsConsistent browser verified (bare published ts) in
          (after, rw (same, h) k, c)
      | inr differ ↦
          let (after, k, c) = with_stage-IsConsistent browser token (record {
            stage = api r.api_stage;
            ts = ts;
            status = some (text_of r.status);
            attempts = none;
          }) in
          (after, rw differ k, c)
    ]

envelope_into-counters :
    (browser : Browser) (e : TelemetryEnvelope) (now : ℕ) (s : DemoState) (o : Existing)
    → IsFound o
    → (s' : DemoState) × (envelope_into browser e now s o ≡ some s') × (s'.counters ≡ s.counters)
envelope_into-counters browser e now s absent is_absent = (s, refl, refl)
envelope_into-counters browser e now s inherited f = elim f [ ]
envelope_into-counters browser e now s (own token) (is_own t) =
    let (after, h, c) = with_stage-IsConsistent browser token (envelope_event e) in
    (_, ap (after_envelope e now s) h, refl)

-- An envelope counts its stage, whether or not its token is on the board, if its correlation id is no
-- key that every object inherits.
pub reducer-counters :
    (browser : Browser) (text_of : ℕ → String) (s : DemoState) (e : TelemetryEnvelope) (now : ℕ)
    → IsOrdinary (envelope e now)
    → (s' : DemoState) × (reducer browser text_of s (envelope e now) ≡ some s')
      × (s'.counters ≡ count_stage e.stage s.counters)
unfolding reducer
reducer-counters browser text_of s e now plain =
    envelope_into-counters browser e now (record s { counters = count_stage e.stage s.counters })
      (existing_token e.correlation_id s) (existing_token-IsFound e.correlation_id s plain)

-- An envelope whose correlation id is such a key, and is on the board of no token, makes the reducer
-- throw.
reducer-inherited :
    (browser : Browser) (text_of : ℕ → String) (s : DemoState) (e : TelemetryEnvelope) (now : ℕ)
    → member e.correlation_id inherited_keys ≡ true
    → lookup e.correlation_id s.tokens ≡ none
    → reducer browser text_of s (envelope e now) ≡ none
unfolding reducer
reducer-inherited browser text_of s e now h k = rw (h, k) refl
