-- ===== src/Board/Stages.antt =====
-- web/src/lib/telemetry.ts, and `apiStageForStatus` of web/src/lib/api.ts: the stages of a token.
use async_webhook_ingestion.Prelude.{
  ℕ, String, Bool, true, false, not, ◌&&◌, Option, none, some, [], ◌∷◌, member, is_some, eqb,
  if◌then◌else◌,
}
use async_webhook_ingestion.Json.{
  Json, null, bool, num, str, arr, obj, Number, nat, other, property, as_string, as_number,
  is_object_type,
}
use async_webhook_ingestion.Telemetry.{TelemetryStage}

pub data ApiStage : Type 0 where
  received signature_verified published injected rejected malformed unavailable : ApiStage

-- `WorkerStage` is the type that the worker's own code has for its stages.
pub data Stage : Type 0 where
  api : ApiStage → Stage
  worker : TelemetryStage → Stage

abbrev pub api_rank : ApiStage → ℕ
api_rank received = 0
api_rank signature_verified = 1
api_rank malformed = 1
api_rank rejected = 1
api_rank published = 2
api_rank injected = 2
api_rank unavailable = 2

abbrev pub worker_rank : TelemetryStage → ℕ
worker_rank TelemetryStage.consuming = 3
worker_rank TelemetryStage.processing_decision = 4
worker_rank TelemetryStage.retry = 5
worker_rank TelemetryStage.processed = 6
worker_rank TelemetryStage.duplicate = 6
worker_rank TelemetryStage.dead = 6

-- `STAGE_RANK`
abbrev pub stage_rank : Stage → ℕ
stage_rank (api s) = api_rank s
stage_rank (worker s) = worker_rank s

abbrev pub is_terminal_api : ApiStage → Bool
is_terminal_api received = false
is_terminal_api signature_verified = false
is_terminal_api published = false
is_terminal_api injected = false
is_terminal_api rejected = true
is_terminal_api malformed = true
is_terminal_api unavailable = true

abbrev pub is_terminal_worker : TelemetryStage → Bool
is_terminal_worker TelemetryStage.consuming = false
is_terminal_worker TelemetryStage.processing_decision = false
is_terminal_worker TelemetryStage.retry = false
is_terminal_worker TelemetryStage.processed = true
is_terminal_worker TelemetryStage.duplicate = true
is_terminal_worker TelemetryStage.dead = true

abbrev pub is_terminal : Stage → Bool
is_terminal (api s) = is_terminal_api s
is_terminal (worker s) = is_terminal_worker s

-- `STAGE_RANK` compares stages; this is `===` on them.
abbrev pub same_worker : TelemetryStage → TelemetryStage → Bool
same_worker TelemetryStage.consuming s = elim s [ TelemetryStage.consuming ↦ true | _ ↦ false ]
same_worker TelemetryStage.processing_decision s = elim s [
  | TelemetryStage.processing_decision ↦ true
  | _ ↦ false
]
same_worker TelemetryStage.retry s = elim s [ TelemetryStage.retry ↦ true | _ ↦ false ]
same_worker TelemetryStage.processed s = elim s [ TelemetryStage.processed ↦ true | _ ↦ false ]
same_worker TelemetryStage.duplicate s = elim s [ TelemetryStage.duplicate ↦ true | _ ↦ false ]
same_worker TelemetryStage.dead s = elim s [ TelemetryStage.dead ↦ true | _ ↦ false ]

abbrev same_api : ApiStage → ApiStage → Bool
same_api received s = elim s [ received ↦ true | _ ↦ false ]
same_api signature_verified s = elim s [ signature_verified ↦ true | _ ↦ false ]
same_api published s = elim s [ published ↦ true | _ ↦ false ]
same_api injected s = elim s [ injected ↦ true | _ ↦ false ]
same_api rejected s = elim s [ rejected ↦ true | _ ↦ false ]
same_api malformed s = elim s [ malformed ↦ true | _ ↦ false ]
same_api unavailable s = elim s [ unavailable ↦ true | _ ↦ false ]

abbrev pub same_stage : Stage → Stage → Bool
same_stage (api s) (api t) = same_api s t
same_stage (worker s) (worker t) = same_worker s t
same_stage (api s) (worker t) = false
same_stage (worker s) (api t) = false

abbrev worker_stages_has : Option String → Bool
worker_stages_has none = false
worker_stages_has (some s) =
    member s
      ("consuming" ∷ "processing_decision" ∷ "processed" ∷ "duplicate" ∷ "retry" ∷ "dead" ∷ [])

abbrev pub is_null : Json → Bool
is_null null = true
is_null (bool b) = false
is_null (num n) = false
is_null (str s) = false
is_null (arr vs) = false
is_null (obj fs) = false

unfoldable pub is_telemetry_envelope : Json → Bool
is_telemetry_envelope value =
    is_object_type value
    && (not (is_null value)
        && (is_some (as_number (property "version" value))
            && (worker_stages_has (as_string (property "stage" value))
                && (is_some (as_string (property "correlation_id" value))
                    && (is_some (as_string (property "event_type" value))
                        && (is_some (as_string (property "status" value))
                            && (is_some (as_number (property "attempts" value))
                                && is_some (as_string (property "ts" value)))))))))

abbrev pub telemetry_version : ℕ
telemetry_version = 1

abbrev is_version : Option Number → Bool
is_version none = false
is_version (some (nat n)) = eqb n telemetry_version
is_version (some (other t)) = false

unfoldable pub is_supported_version : Json → Bool
is_supported_version envelope = is_version (as_number (property "version" envelope))

unfoldable pub api_stage_for_status : ℕ → ApiStage
api_stage_for_status status =
    if eqb status 202
    then published
    else if eqb status 400
    then malformed
    else if eqb status 503
    then unavailable
    else rejected
