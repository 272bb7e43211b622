-- ===== src/Environment.antt =====
-- `validateEnv` of src/config/env.validation.ts, on the environment as its entries.
pub mod Laws
use Prim.Native.String
use Prim.Native.Char.{code}
use async_webhook_ingestion.Prelude.{
  String, Bool, true, false, ◌&&◌, Option, none, some, List, [], ◌∷◌, ◌++◌, Result, ok, err, lookup,
  member, leb, ◌==◌, if◌then◌else◌, get_or,
}
use async_webhook_ingestion.Json.{Json, as_nonempty, as_string}
use async_webhook_ingestion.Errors.{Thrown, other_error}

abbrev pub Env : Type 0
Env = List (String × Json)

abbrev pub app_roles : List String
app_roles = "api" ∷ "worker" ∷ []

abbrev pub log_levels : List String
log_levels = "error" ∷ "warn" ∷ "log" ∷ "debug" ∷ "verbose" ∷ []

abbrev pub positive_int_vars : List String
positive_int_vars =
    "PORT" ∷ "POSTGRES_PORT" ∷ "RABBITMQ_PORT" ∷ "PUBLISH_CONFIRM_TIMEOUT_MS"
    ∷ "WEBHOOK_TIMESTAMP_TOLERANCE_SECONDS" ∷ "MAX_PROCESSING_ATTEMPTS" ∷ "RABBITMQ_PREFETCH"
    ∷ "POSTGRES_POOL_SIZE" ∷ "RATE_LIMIT_TTL_SECONDS" ∷ "RATE_LIMIT_MAX" ∷ "WORKER_METRICS_PORT"
    ∷ []

abbrev pub api_secret_vars : List String
api_secret_vars = "WEBHOOK_HMAC_SECRET" ∷ "ADMIN_API_KEY" ∷ []

abbrev pub present : Env → String → Option String
present env key = as_nonempty (lookup key env)

abbrev pub all_digits : String → Bool
all_digits String.[] = true
all_digits (String.◌∷◌ c s) = leb 48 (code c) && (leb (code c) 57 && all_digits s)

-- `/^[1-9]\d*$/.test(value)`
abbrev pub is_positive_int : String → Bool
is_positive_int String.[] = false
is_positive_int (String.◌∷◌ c s) = leb 49 (code c) && (leb (code c) 57 && all_digits s)

infixr 6 ◌+++◌
abbrev ◌+++◌ : String → String → String
a +++ b = String.◌++◌ a b

abbrev pub role_of : Env → String
role_of env = get_or (present env "APP_ROLE") "api"

abbrev pub role_errors : String → List String
role_errors role =
    if member role app_roles
    then []
    else ("APP_ROLE must be one of [api, worker], got \"" +++ role +++ "\"") ∷ []

abbrev pub secret_error : String → Option String → List String
secret_error key none =
    (key +++ " must be set to a non-empty value; an empty secret would leave the boundary open")
    ∷ []
secret_error key (some value) = []

abbrev pub secret_errors : Env → List String → List String
secret_errors env [] = []
secret_errors env (key ∷ keys) = secret_error key (present env key) ++ secret_errors env keys

abbrev pub int_error : String → Option String → List String
int_error key none = []
int_error key (some value) =
    if is_positive_int value
    then []
    else (key +++ " must be a positive integer, got \"" +++ value +++ "\"") ∷ []

abbrev pub int_errors : Env → List String → List String
int_errors env [] = []
int_errors env (key ∷ keys) = int_error key (present env key) ++ int_errors env keys

abbrev pub level_errors : Option String → List String
level_errors none = []
level_errors (some level) =
    if member level log_levels
    then []
    else ("LOG_LEVEL must be one of [error, warn, log, debug, verbose], got \"" +++ level +++ "\"")
      ∷ []

abbrev pub api_errors : Env → List String
api_errors env = if role_of env == "worker" then [] else secret_errors env api_secret_vars

abbrev pub value_errors : Env → List String
value_errors env = int_errors env positive_int_vars ++ level_errors (present env "LOG_LEVEL")

unfoldable pub env_errors : Env → List String
env_errors env = role_errors (role_of env) ++ (api_errors env ++ value_errors env)

abbrev join : List String → String
join [] = ""
join (e ∷ []) = e
join (e ∷ f ∷ es) = e +++ "\n- " +++ join (f ∷ es)

abbrev pub is_empty_text : Option String → Bool
is_empty_text none = false
is_empty_text (some s) = s == ""

-- The entries that are not the empty text.
abbrev pub drop_empty : Env → Env
drop_empty [] = []
drop_empty ((key, value) ∷ env) =
    if is_empty_text (as_string (some value)) then drop_empty env else (key, value) ∷ drop_empty env

abbrev pub report : Env → List String → Result Thrown Env
report env [] = ok (drop_empty env)
report env (e ∷ es) = err (other_error ("Invalid environment:\n- " +++ join (e ∷ es)))

unfoldable pub validate_env : Env → Result Thrown Env
unfolding env_errors
validate_env env = report env (env_errors env)
