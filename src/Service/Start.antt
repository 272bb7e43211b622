-- ===== src/Service/Start.antt =====
-- How a process starts: src/main.ts, the modules of its role in src/app.module.ts, the address of the
-- broker in src/messaging/messaging.module.ts, the metrics server of the worker in
-- src/metrics/worker-metrics-server.ts, and the label of a request's route in
-- src/metrics/http-metrics.middleware.ts. The variables of the environment are arguments.
use Prim.Native.String
use async_webhook_ingestion.Prelude.{
  ⊤, ℕ, String, Bool, false, ◌&&◌, Option, none, some, List, [], ◌∷◌, ◌++◌, Result, ok, err, get_or,
  ◌==◌, if◌then◌else◌,
}
use async_webhook_ingestion.Errors.{Thrown, other_error}
use async_webhook_ingestion.Webhooks.Poison.{is_demo_mode, assert_demo_mode_allowed}

pub data Process : Type 0 where
  api_process worker_process : Process

abbrev unknown_role : String → Thrown
unknown_role role =
    other_error
      (String.◌++◌ "Unknown APP_ROLE \"" (String.◌++◌ role "\" (expected \"api\" or \"worker\")"))

abbrev started_as : String → Result Thrown ⊤ → Result Thrown Process
started_as role (err e) = err e
started_as role (ok u) =
    if role == "worker"
    then ok worker_process
    else if role == "api"
    then ok api_process
    else err (unknown_role role)

-- `bootstrap`: which of the two it goes on with, or what it throws.
unfoldable pub bootstrap : (demo_mode node_env app_role : Option String) → Result Thrown Process
bootstrap demo_mode node_env app_role =
    started_as (get_or app_role "api") (assert_demo_mode_allowed (is_demo_mode demo_mode) node_env)

pub data RoleModule : Type 0 where
  consumer_module events_module health_module webhooks_module dlq_module telemetry_gateway_module :
      RoleModule

abbrev is_worker : Option String → Bool
is_worker none = false
is_worker (some role) = role == "worker"

unfoldable pub resolve_role_modules : (demo_mode app_role : Option String) → List RoleModule
resolve_role_modules demo_mode app_role =
    let api_modules = events_module ∷ health_module ∷ webhooks_module ∷ dlq_module ∷ [] in
    if is_worker app_role
    then consumer_module ∷ []
    else if is_demo_mode demo_mode
    then api_modules ++ telemetry_gateway_module ∷ []
    else api_modules

abbrev join_uri : (user password host port : String) → String
join_uri user password host port = String.◌++◌ "amqp://" (
    String.◌++◌ user (
      String.◌++◌ ":"
        (String.◌++◌ password (String.◌++◌ "@" (String.◌++◌ host (String.◌++◌ ":" port))))))

abbrev explicit_or : String → Option String → String
explicit_or built none = built
explicit_or built (some uri) = if uri == "" then built else uri

-- `buildAmqpUri`
unfoldable pub build_amqp_uri : (config : String → Option String) → String
build_amqp_uri config =
    explicit_or
      (join_uri (get_or (config "RABBITMQ_USER") "guest")
        (get_or (config "RABBITMQ_PASSWORD") "guest") (get_or (config "RABBITMQ_HOST") "localhost")
        (get_or (config "RABBITMQ_PORT") "5672"))
      (config "RABBITMQ_URL")

pub record MetricsAnswer : Type 0 where
  pub status : ℕ
  pub content_type : Option String
  pub body : String

abbrev metrics_body : (content_type : String) → Result Thrown String → MetricsAnswer
metrics_body content_type (ok body) = record {
  status = 200;
  content_type = some content_type;
  body = body;
}
metrics_body content_type (err e) = record { status = 500; content_type = none; body = "" }

-- One request to the metrics server of the worker, with what the registry renders.
unfoldable pub serve_metrics :
    (content_type : String) → Result Thrown String → (method url : String) → MetricsAnswer
serve_metrics content_type rendered method url =
    if method == "GET" && url == "/metrics"
    then metrics_body content_type rendered
    else record { status = 404; content_type = none; body = "" }

-- The template of the route, not its URL.
abbrev pub route_label : (base_url : String) → (path : Option String) → String
route_label base_url none = "unmatched"
route_label base_url (some path) = String.◌++◌ base_url path
