-- ===== src/Bus/FailureHandler.antt =====
-- What becomes of a message whose handler throws (src/shared/bus/failure-handler.ts).
pub mod Reports
pub mod Retries
use ais_tracking_system.Prelude.{
  ℕ, ◌*◌, String, ◌<>◌, Bool, Option, none, some, ltb, if◌then◌else◌, ite, str_discrete,
  get_or_else,
}
use ais_tracking_system.Prelude.Double.{of_nat}
use ais_tracking_system.Prelude.StringMap
use ais_tracking_system.Prelude.StringMap.{StringMap}
use ais_tracking_system.Contracts.Json.{Json, Fields, null, num, str, obj, end, field}
use ais_tracking_system.Bus.{
  Thrown, error, other, Outcome, Async, await, ◌>>=◌, ◌>>◌, resolve, StreamRedis,
}

pub record SerializedError : Type 0 where
  pub name : String
  pub message : String
  pub stack : Option String

-- The functions of JavaScript that the bus calls: `encodeURIComponent`, `slice(0, n)` and
-- `JSON.stringify`.
pub record Texts : Type 0 where
  pub encode : String → String
  pub slice : String → ℕ → String
  pub stringify : Json → String

-- `text || fallback`, where an absent text counts as empty.
unfoldable pub or_text : Option String → String → String
or_text none fallback = fallback
or_text (some t) fallback = ite (str_discrete t "") fallback t

-- `stack ? { stack } : {}`
abbrev pub non_empty : String → Option String
non_empty t = ite (str_discrete t "") none (some t)

abbrev pub stack_max_bytes : ℕ
stack_max_bytes = 2048

abbrev pub sliced_stack : Texts → Option String → Option String
sliced_stack texts none = none
sliced_stack texts (some stack) = non_empty (texts.slice stack stack_max_bytes)

unfoldable pub serialize_error : Texts → Thrown → SerializedError
unfolding or_text
serialize_error texts (error name message stack) = record {
  name = or_text (some name) "Error";
  message = message;
  stack = sliced_stack texts stack;
}
serialize_error texts (other text) = record {
  name = "NonError";
  message = get_or_else text "[unserializable error]";
  stack = none;
}

abbrev pub stack_fields : Option String → Fields
stack_fields none = end
stack_fields (some stack) = field "stack" (str stack) end

abbrev pub error_json : SerializedError → Json
error_json e =
    obj (field "name" (str e.name) (field "message" (str e.message) (stack_fields e.stack)))

pub data FailureAction : Type 0 where
  leave_unacked : (attempts : ℕ) → FailureAction
  deadletter_and_ack : (attempts : ℕ) (deadletter_id : String) → FailureAction

pub record BusConfig : Type 0 where
  pub stream_retry_limit : ℕ
  pub stream_maxlen : ℕ

pub record OnHandlerErrorArgs : Type 0 where
  pub stream : String
  pub group : String
  pub message_id : String
  pub payload : Json
  pub thrown : Thrown

abbrev pub ais_deadletter_stream : String
ais_deadletter_stream = "ais.deadletter"

abbrev pub counter_ttl_seconds : ℕ
counter_ttl_seconds = 24 * 60 * 60

unfoldable pub counter_key : Texts → String → String → String → String
counter_key texts stream group message_id =
    "dlq:retry:" <> texts.encode stream <> ":" <> texts.encode group <> ":" <> message_id

unfoldable pub dlq_payload : OnHandlerErrorArgs → ℕ → String → String → SerializedError → Json
dlq_payload args attempts first_failed_at last_failed_at serialized = obj (
    field "originalMessageId" (str args.message_id) (
      field "originalStream" (str args.stream) (
        field "consumerGroup" (str args.group) (
          field "originalEvent" args.payload (
            field "attempts" (num (of_nat attempts)) (
              field "firstFailedAt" (str first_failed_at) (
                field "lastFailedAt" (str last_failed_at)
                  (field "error" (error_json serialized) end))))))))

module _ {W : Type 0} (redis : StreamRedis W) (texts : Texts) (config : BusConfig) where
  abbrev pub dead_letter_text : OnHandlerErrorArgs → String → ℕ → StringMap String → String
  dead_letter_text args now attempts meta = texts.stringify (
      dlq_payload args attempts (or_text (StringMap.get "firstFailedAt" meta) now)
        (or_text (StringMap.get "lastFailedAt" meta) now) (serialize_error texts args.thrown))

  -- The part of `onHandlerError` after the limit is reached.
  unfoldable pub deadletter : OnHandlerErrorArgs → String → String → ℕ → Async W FailureAction
  deadletter args key now attempts = do
    meta ← redis.hgetall key
    id ←
        redis.xadd ais_deadletter_stream config.stream_maxlen
          (dead_letter_text args now attempts meta)
    redis.del key
    resolve (deadletter_and_ack attempts (get_or_else id ""))

  -- The part of `onHandlerError` after the clock is read.
  unfoldable pub count_failure : OnHandlerErrorArgs → String → String → Async W FailureAction
  unfolding deadletter
  count_failure args key now = do
    attempts ← redis.hincrby key "attempts" 1
    redis.hsetnx key "firstFailedAt" now
    redis.hset key "lastFailedAt" now
    redis.expire key counter_ttl_seconds
    if ltb attempts config.stream_retry_limit
        then resolve (leave_unacked attempts)
        else deadletter args key now attempts

  unfoldable pub on_handler_error : OnHandlerErrorArgs → Async W FailureAction
  unfolding counter_key count_failure
  on_handler_error args w =
      count_failure args (counter_key texts args.stream args.group args.message_id) (redis.now w) w
