-- ===== src/Examples/Setup.antt =====
-- The validation of concrete environments.
use async_webhook_ingestion.Prelude.{◌≡◌, refl, [], ◌∷◌, err}
use async_webhook_ingestion.Json.{str}
use async_webhook_ingestion.Errors.{other_error}
use async_webhook_ingestion.Environment.{Env, env_errors, validate_env}
use async_webhook_ingestion.Environment.Laws.{IsSafe, validate_env-IsSafe}

abbrev api_env : Env
api_env =
    ("WEBHOOK_HMAC_SECRET", str "key")
    ∷ ("ADMIN_API_KEY", str "admin")
    ∷ ("PORT", str "3000")
    ∷ ("RABBITMQ_URL", str "")
    ∷ []

abbrev clean_env : Env
clean_env =
    ("WEBHOOK_HMAC_SECRET", str "key") ∷ ("ADMIN_API_KEY", str "admin") ∷ ("PORT", str "3000") ∷ []

validate_env-IsSafe_example : IsSafe api_env clean_env
unfolding validate_env env_errors
validate_env-IsSafe_example = validate_env-IsSafe api_env refl

refuses_zero :
    validate_env (("APP_ROLE", str "worker") ∷ ("PORT", str "0") ∷ [])
    ≡ err (other_error "Invalid environment:\n- PORT must be a positive integer, got \"0\"")
unfolding validate_env env_errors
refuses_zero = refl
