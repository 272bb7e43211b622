-- ===== src/Board/Feed.antt =====
-- The worker's telemetry as the board reads it: the envelopes of src/telemetry/telemetry-emitter.ts
-- pass the tests of web/src/lib/telemetry.ts, and a series of them adds up in the counters.
use async_webhook_ingestion.Prelude.{
  ⊤, ℕ, suc, ◌+◌, String, ◌≡◌, refl, ap, ◌∙◌, true, Option, none, some, List, [], ◌∷◌,
  if◌then◌else◌, arith,
}
use async_webhook_ingestion.Telemetry.{TelemetryStage, TelemetryStageInput}
use async_webhook_ingestion.Telemetry
use async_webhook_ingestion.Board.Stages.{is_telemetry_envelope, is_supported_version, same_worker}
use async_webhook_ingestion.Board.Tokens.{Browser}
use async_webhook_ingestion.Board.Reducer.{
  TelemetryEnvelope, Counters, DemoState, envelope, count_stage, reducer,
}
use async_webhook_ingestion.Board.Reducer.Laws.{IsOrdinary, reducer-counters}

stage_accepted :
    (ts : String) (stage : TelemetryStage) (correlation_id event_type status : String)
    (event_id : Option String) (attempts : ℕ)
    → is_telemetry_envelope (
        Telemetry.envelope ts (record {
          stage = stage;
          correlation_id = correlation_id;
          event_id = event_id;
          event_type = event_type;
          status = status;
          attempts = attempts;
        }))
      ≡ true
unfolding is_telemetry_envelope
stage_accepted ts TelemetryStage.consuming c t s e a = refl
stage_accepted ts TelemetryStage.processing_decision c t s e a = refl
stage_accepted ts TelemetryStage.processed c t s e a = refl
stage_accepted ts TelemetryStage.duplicate c t s e a = refl
stage_accepted ts TelemetryStage.retry c t s e a = refl
stage_accepted ts TelemetryStage.dead c t s e a = refl

-- Every envelope that the worker publishes passes the board's type guard and its version check.
pub envelope-accepted :
    (ts : String) (input : TelemetryStageInput)
    → (is_telemetry_envelope (Telemetry.envelope ts input) ≡ true)
      × (is_supported_version (Telemetry.envelope ts input) ≡ true)
unfolding is_supported_version
envelope-accepted ts input = (
  stage_accepted ts input.stage input.correlation_id input.event_type input.status input.event_id
      input.attempts,
  refl,
)

abbrev then_feed : Option DemoState → (DemoState → Option DemoState) → Option DemoState
then_feed none k = none
then_feed (some s) k = k s

-- The envelopes of a feed, each with the time at which it is reduced, one after another.
abbrev pub feed :
    Browser → (ℕ → String) → List (TelemetryEnvelope × ℕ) → DemoState → Option DemoState
feed browser text_of [] s = some s
feed browser text_of ((e, now) ∷ es) s =
    then_feed (reducer browser text_of s (envelope e now)) (feed browser text_of es)

-- How many envelopes of a feed have this stage.
abbrev pub times_in : TelemetryStage → List (TelemetryEnvelope × ℕ) → ℕ
times_in stage [] = 0
times_in stage ((e, now) ∷ es) =
    if same_worker e.stage stage then suc (times_in stage es) else times_in stage es

abbrev pub plus_feed : Counters → List (TelemetryEnvelope × ℕ) → Counters
plus_feed c es = record {
  processed = c.processed + times_in TelemetryStage.processed es;
  duplicate = c.duplicate + times_in TelemetryStage.duplicate es;
  retry = c.retry + times_in TelemetryStage.retry es;
  dead = c.dead + times_in TelemetryStage.dead es;
  rejected = c.rejected;
}

plus_feed-step :
    (c : Counters) (e : TelemetryEnvelope) (now : ℕ) (es : List (TelemetryEnvelope × ℕ))
    → plus_feed (count_stage e.stage c) es ≡ plus_feed c ((e, now) ∷ es)
plus_feed-step c e now es = ground arith

-- Each correlation id is no key that every object inherits.
abbrev pub AreOrdinary : List (TelemetryEnvelope × ℕ) → Type 0
AreOrdinary [] = ⊤
AreOrdinary ((e, now) ∷ es) = IsOrdinary (envelope e now) × AreOrdinary es

-- A feed of envelopes whose correlation ids are no keys that every object inherits never makes the
-- reducer throw, and adds to the counters of processed, duplicate, retried and dead messages the
-- number of its envelopes with that stage, however the feed is ordered and whichever tokens are on
-- the board. It does not count rejections.
pub feed-plus_feed :
    (browser : Browser) (text_of : ℕ → String) (es : List (TelemetryEnvelope × ℕ)) (s : DemoState)
    → AreOrdinary es
    → (s' : DemoState) × (feed browser text_of es s ≡ some s')
      × (s'.counters ≡ plus_feed s.counters es)
feed-plus_feed browser text_of [] s plain = (s, refl, ground arith)
feed-plus_feed browser text_of ((e, now) ∷ es) s (plain, plains) =
    let (s₁, h, c) = reducer-counters browser text_of s e now plain in
    let (s₂, k, d) = feed-plus_feed browser text_of es s₁ plains in
    (s₂, rw h k, d ∙ ap (λ x. plus_feed x es) c ∙ plus_feed-step s.counters e now es)
