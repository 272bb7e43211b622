-- ===== src/Messaging.antt =====
-- src/messaging/messaging.constants.ts, the topology of src/messaging/messaging.module.ts, and what
-- the code hands to `AmqpConnection.publish`. The exchange names are the members of one type.
pub mod Tiers
pub mod Topology
use Prim.Native.String
use async_webhook_ingestion.Prelude.{
  ℕ, ◌-◌, String, Bool, true, false, Option, none, some, List, [], ◌∷◌, map, ◌++◌, min, max, length,
  get_elem?, get_or, if◌then◌else◌,
}
use async_webhook_ingestion.Json.{Json, str}

abbrev pub webhook_exchange : String
webhook_exchange = "webhooks"

abbrev pub retry_exchange : String
retry_exchange = "webhooks.retry"

abbrev pub dead_letter_exchange : String
dead_letter_exchange = "webhooks.dlx"

abbrev pub telemetry_exchange : String
telemetry_exchange = "webhook.telemetry"

abbrev pub telemetry_envelope_version : ℕ
telemetry_envelope_version = 1

abbrev pub telemetry_routing_key : String → String
telemetry_routing_key stage = String.◌++◌ "telemetry." stage

abbrev pub order_received_routing_key : String
order_received_routing_key = "orders.received"

abbrev pub dead_letter_routing_key : String
dead_letter_routing_key = "orders.dead"

abbrev pub work_queue : String
work_queue = "webhooks.orders"

abbrev pub dead_letter_queue : String
dead_letter_queue = "webhooks.dead"

abbrev pub attempt_header : String
attempt_header = "x-attempt"

pub record RetryTier : Type 0 where
  pub queue : String
  pub routing_key : String
  pub ttl_ms : ℕ

abbrev pub retry_tiers : List RetryTier
retry_tiers =
    record { queue = "webhooks.retry.5s"; routing_key = "orders.retry.5s"; ttl_ms = 5000 }
    ∷ record { queue = "webhooks.retry.30s"; routing_key = "orders.retry.30s"; ttl_ms = 30000 }
    ∷ record { queue = "webhooks.retry.2m"; routing_key = "orders.retry.2m"; ttl_ms = 120000 }
    ∷ []

-- `Math.max(attempts - 1, 0)` is the truncated subtraction. Reading outside the array is `undefined`,
-- which is `none`.
unfoldable pub retry_tier_for_attempt : ℕ → Option RetryTier
retry_tier_for_attempt attempts =
    let index = min (max (attempts - 1) 0) (length retry_tiers - 1) in get_elem? retry_tiers index

-- What is published: an object, which the client serialises, or bytes.
pub data Content : Type 0 where
  json : Json → Content
  bytes : String → Content

pub record Publication : Type 0 where
  pub exchange : String
  pub routing_key : String
  pub content : Content
  pub persistent : Bool
  pub mandatory : Bool
  pub message_id : Option String
  pub correlation_id : Option String
  pub content_type : Option String
  pub headers : List (String × Json)

-- A delivered message: `content.toString('utf8')`, the properties that the code reads, which may be
-- of any type, and `fields.redelivered`.
pub record Delivery : Type 0 where
  pub raw : String
  pub correlation_id : Option Json
  pub message_id : Option Json
  pub headers : List (String × Json)
  pub redelivered : Bool

abbrev body_text : (Json → String) → Content → String
body_text stringify (json j) = stringify j
body_text stringify (bytes b) = b

abbrev json_option : Option String → Option Json
json_option none = none
json_option (some s) = some (str s)

-- How a publication arrives: its body, an object serialised by the client's `JSON.stringify`, and its
-- properties.
abbrev pub delivery_of : (Json → String) → (redelivered : Bool) → Publication → Delivery
delivery_of stringify redelivered p = record {
  raw = body_text stringify p.content;
  correlation_id = json_option p.correlation_id;
  message_id = json_option p.message_id;
  headers = p.headers;
  redelivered = redelivered;
}

pub record Queue : Type 0 where
  pub name : String
  pub exchange : String
  pub routing_key : String
  pub durable : Bool
  pub message_ttl : Option ℕ
  pub dead_letter_to : Option (String × String)

abbrev retry_queue : RetryTier → Queue
retry_queue tier = record {
  name = tier.queue;
  exchange = retry_exchange;
  routing_key = tier.routing_key;
  durable = true;
  message_ttl = some tier.ttl_ms;
  dead_letter_to = some (webhook_exchange, order_received_routing_key);
}

abbrev plain_queue : String → String → String → Queue
plain_queue name exchange key = record {
  name = name;
  exchange = exchange;
  routing_key = key;
  durable = true;
  message_ttl = none;
  dead_letter_to = none;
}

unfoldable pub queues : List Queue
queues =
    plain_queue work_queue webhook_exchange order_received_routing_key ∷ map retry_queue retry_tiers
    ++ plain_queue dead_letter_queue dead_letter_exchange dead_letter_routing_key ∷ []

-- The declared exchanges, with `durable`; the last only in demo mode.
unfoldable pub exchanges : Bool → List (String × Bool)
exchanges demo =
    (webhook_exchange, true)
    ∷ (retry_exchange, true)
    ∷ (dead_letter_exchange, true)
    ∷ (if demo then (telemetry_exchange, false) ∷ [] else [])
