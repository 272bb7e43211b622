-- ===== src/Service/Logger.antt =====
-- `JsonLogger` of src/common/json-logger.ts: which lines are written, what they hold and where they go.
-- The time, the correlation id of the context and `JSON.stringify` are arguments.
pub mod Laws
use async_webhook_ingestion.Prelude.{
  ℕ, String, Bool, true, false, ◌&&◌, Option, none, some, List, [], ◌∷◌, lookup, insert, get_or,
  is_none, leb, ltb, ◌==◌, if◌then◌else◌,
}
use async_webhook_ingestion.Json.{Json, str, Fields, end, field}

pub data LogLevel : Type 0 where
  error warn log debug verbose : LogLevel

-- `LEVEL_ORDER.indexOf(level)`
abbrev pub level_index : LogLevel → ℕ
level_index error = 0
level_index warn = 1
level_index log = 2
level_index debug = 3
level_index verbose = 4

abbrev pub level_text : LogLevel → String
level_text error = "error"
level_text warn = "warn"
level_text log = "log"
level_text debug = "debug"
level_text verbose = "verbose"

-- By LOG_LEVEL; a level that is none of the list counts as `log`.
unfoldable pub threshold_index : Option String → ℕ
threshold_index configured =
    let level = get_or configured "log" in
    if level == "error"
    then 0
    else if level == "warn"
    then 1
    else if level == "debug"
    then 3
    else if level == "verbose"
    then 4
    else 2

-- A parameter after the message, by the tests on it.
pub data Param : Type 0 where
  error_param : (stack : Option String) → Param
  text_param : String → Param
  other_param : Param

pub record Split : Type 0 where
  pub context : Option String
  pub stack : Option String

abbrev take_text : String → Option String → Option String → Split
take_text text none stack = record { context = some text; stack = stack }
take_text text (some context) stack = record { context = some text; stack = some context }

abbrev pub split_from : Split → List Param → Split
split_from s [] = s
split_from s (error_param stack ∷ params) = split_from (record s { stack = stack }) params
split_from s (text_param text ∷ params) = split_from (take_text text s.context s.stack) params
split_from s (other_param ∷ params) = split_from s params

-- `split`
unfoldable pub split : List Param → Split
split params = split_from (record { context = none; stack = none }) params

pub data Message : Type 0 where
  error_message : (message : String) → (stack : Option String) → Message
  object_message : Fields → Message
  value_message : Json → Message

abbrev pub LogRecord : Type 0
LogRecord = List (String × Json)

-- `if (value) record[key] = value`
abbrev put_text : String → Option String → LogRecord → LogRecord
put_text key none entries = entries
put_text key (some text) entries = if text == "" then entries else insert key (str text) entries

-- `record[key] = value`, where an undefined value is no entry.
abbrev put_stack : Option String → LogRecord → LogRecord
put_stack none entries = entries
put_stack (some text) entries = insert "stack" (str text) entries

-- `Object.assign(record, message)`
abbrev assign : Fields → LogRecord → LogRecord
assign end entries = entries
assign (field key value fields) entries = assign fields (insert key value entries)

abbrev put_message : Message → LogRecord → LogRecord
put_message (error_message message stack) entries =
    put_stack stack (insert "message" (str message) entries)
put_message (object_message fields) entries = assign fields entries
put_message (value_message value) entries = insert "message" value entries

abbrev put_split_stack : Option String → LogRecord → LogRecord
put_split_stack stack entries =
    if is_none (lookup "stack" entries) then put_text "stack" stack entries else entries

unfoldable pub record_of :
    (time : String) → LogLevel → (correlation_id : Option String) → Message → List Param → LogRecord
record_of time level correlation_id message params =
    let parts = split params in
    put_split_stack parts.stack (
      put_message message (
        put_text "context" parts.context (
          put_text "correlation_id" correlation_id
            (("time", str time) ∷ ("level", str (level_text level)) ∷ []))))

pub data Stream : Type 0 where
  stdout stderr : Stream

abbrev pub stream_of : LogLevel → Stream
stream_of error = stderr
stream_of warn = stdout
stream_of log = stdout
stream_of debug = stdout
stream_of verbose = stdout

-- `emit`: the record that is written, and where; `none` below the threshold.
unfoldable pub emit :
    (threshold : ℕ) (time : String)
    → LogLevel
    → (correlation_id : Option String) → Message
    → List Param
    → Option (Stream × LogRecord)
emit threshold time level correlation_id message params =
    if ltb threshold (level_index level)
    then none
    else some (stream_of level, record_of time level correlation_id message params)
