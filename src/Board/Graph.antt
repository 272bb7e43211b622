-- ===== src/Board/Graph.antt =====
-- web/src/lib/stages.ts: the boxes of the board, the edges between them, and what a stage looks like.
use Prim.Native.String
use async_webhook_ingestion.Prelude.{ℕ, ◌+◌, ◌*◌, String, Option, some, List, [], ◌∷◌}
use async_webhook_ingestion.Telemetry.{TelemetryStage}
use async_webhook_ingestion.Board.Stages.{
  ApiStage, received, signature_verified, published, injected, rejected, malformed, unavailable,
  Stage, api, worker,
}

pub data NodeKey : Type 0 where
  post guard validate exchange work worker_box postgres retry5s retry30s retry2min dlq : NodeKey

abbrev pub node_text : NodeKey → String
node_text post = "post"
node_text guard = "guard"
node_text validate = "validate"
node_text exchange = "exchange"
node_text work = "work"
node_text worker_box = "worker"
node_text postgres = "postgres"
node_text retry5s = "retry5s"
node_text retry30s = "retry30s"
node_text retry2min = "retry2min"
node_text dlq = "dlq"

-- Keys are compared by `===`: by their number here.
abbrev pub node_number : NodeKey → ℕ
node_number post = 0
node_number guard = 1
node_number validate = 2
node_number exchange = 3
node_number work = 4
node_number worker_box = 5
node_number postgres = 6
node_number retry5s = 7
node_number retry30s = 8
node_number retry2min = 9
node_number dlq = 10

pub record StageMeta : Type 0 where
  pub label : String
  pub color : String
  pub node : NodeKey

abbrev meta_of : String → String → NodeKey → StageMeta
meta_of label color node = record {
  label = label;
  color = String.◌++◌ "var(--color-stage-" (String.◌++◌ color ")");
  node = node;
}

abbrev api_meta : ApiStage → StageMeta
api_meta received = meta_of "received" "received" post
api_meta signature_verified = meta_of "signature verified" "signature" guard
api_meta rejected = meta_of "rejected (401)" "rejected" guard
api_meta malformed = meta_of "malformed (400)" "malformed" validate
api_meta published = meta_of "published" "published" exchange
api_meta injected = meta_of "injected past the API" "published" exchange
api_meta unavailable = meta_of "unavailable (503)" "unavailable" exchange

abbrev worker_meta : TelemetryStage → StageMeta
worker_meta TelemetryStage.consuming = meta_of "consuming" "consuming" worker_box
worker_meta TelemetryStage.processing_decision = meta_of "processing" "decision" worker_box
worker_meta TelemetryStage.processed = meta_of "processed" "processed" postgres
worker_meta TelemetryStage.duplicate = meta_of "duplicate" "duplicate" worker_box
worker_meta TelemetryStage.retry = meta_of "retry" "retry" retry5s
worker_meta TelemetryStage.dead = meta_of "dead-lettered" "dead" dlq

-- `STAGE_META`
abbrev pub stage_meta : Stage → StageMeta
stage_meta (api s) = api_meta s
stage_meta (worker s) = worker_meta s

pub record NodeSpec : Type 0 where
  pub key : NodeKey
  pub label : String
  pub sub : Option String
  pub x : ℕ
  pub y : ℕ
  pub w : ℕ
  pub h : ℕ

abbrev pub node_w : ℕ
node_w = 116

abbrev pub node_h : ℕ
node_h = 56

-- A box of the main row, and one of the row below.
abbrev row_box : NodeKey → String → String → ℕ → NodeSpec
row_box key label sub x = record {
  key = key;
  label = label;
  sub = some sub;
  x = x;
  y = 92;
  w = node_w;
  h = node_h;
}

abbrev low_box : NodeKey → String → String → ℕ → ℕ → NodeSpec
low_box key label sub x w = record {
  key = key;
  label = label;
  sub = some sub;
  x = x;
  y = 208;
  w = w;
  h = 44;
}

-- `NODES`, and `NODE_INDEX` by key.
abbrev pub node_spec : NodeKey → NodeSpec
node_spec post = row_box post "POST /orders" "HTTP" 24
node_spec guard = row_box guard "HMAC guard" "SHA-256" 176
node_spec validate = row_box validate "validation" "DTO pipe" 328
node_spec exchange = row_box exchange "exchange" "webhooks" 480
node_spec work = row_box work "work queue" "orders" 632
node_spec worker_box = row_box worker_box "worker" "idempotent" 784
node_spec postgres = row_box postgres "PostgreSQL" "events" 936
node_spec retry5s = low_box retry5s "retry 5s" "TTL+DLX" 588 96
node_spec retry30s = low_box retry30s "retry 30s" "TTL+DLX" 704 96
node_spec retry2min = low_box retry2min "retry 2min" "TTL+DLX" 820 96
node_spec dlq = low_box dlq "DLQ" "dlq_messages" 936 node_w

abbrev pub all_nodes : List NodeKey
all_nodes =
    post ∷ guard ∷ validate ∷ exchange ∷ work ∷ worker_box ∷ postgres ∷ retry5s ∷ retry30s
    ∷ retry2min ∷ dlq ∷ []

-- `nodeCenter`, in halves of a unit.
abbrev pub node_center : NodeKey → ℕ × ℕ
node_center key = let node = node_spec key in (2 * node.x + node.w, 2 * node.y + node.h)

abbrev pub edges : List (NodeKey × NodeKey)
edges =
    (post, guard)
    ∷ (guard, validate)
    ∷ (validate, exchange)
    ∷ (exchange, work)
    ∷ (work, worker_box)
    ∷ (worker_box, postgres)
    ∷ (worker_box, retry5s)
    ∷ (retry5s, retry30s)
    ∷ (retry30s, retry2min)
    ∷ (worker_box, dlq)
    ∷ []

abbrev pub viewbox_w : ℕ
viewbox_w = 1076

abbrev pub viewbox_h : ℕ
viewbox_h = 284
