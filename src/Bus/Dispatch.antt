-- ===== src/Bus/Dispatch.antt =====
-- The dispatch of a message to its handler, and the consumer's loop over what it reads
-- (src/shared/bus/redis-streams.event-bus.ts). The counter of handler errors and that of dead
-- letters stand in the state; timers and logging are left out.
pub mod Acknowledge
pub mod Refused
pub mod Loop
use ais_tracking_system.Prelude.{
  ℕ, ◌+◌, suc, String, Bool, Option, none, some, List, [], ◌∷◌, ite, str_discrete,
}
use ais_tracking_system.Contracts.Json.{Json, str, num, obj, end, field}
use ais_tracking_system.Prelude.Double.{of_nat}
use ais_tracking_system.Bus.{
  Thrown, Outcome, returned, threw, Async, await, ◌>>=◌, ◌>>◌, resolve, attempt, StreamRedis,
}
use ais_tracking_system.Bus.FailureHandler.{
  Texts, BusConfig, FailureAction, leave_unacked, deadletter_and_ack, SerializedError,
  serialize_error, error_json, on_handler_error, ais_deadletter_stream,
}

pub data DeadletterReason : Type 0 where
  handler_error invalid_json : DeadletterReason

pub record BusState (W : Type 0) : Type 0 where
  pub world : W
  pub handler_errors : ℕ
  pub deadletters : List DeadletterReason

-- What `dispatch` reads of a `ConsumerLoop`.
pub record ConsumerLoop (W : Type 0) : Type 0 where
  pub stream : String
  pub group : String
  pub handler : String → Json → Async W (Unit {0})

-- `fields[fields.indexOf('data') + 1]`: no such field, no value after it, or the value.
pub data DataField : Type 0 where
  missing empty : DataField
  value : String → DataField

abbrev pub next_value : List String → DataField
next_value [] = empty
next_value (v ∷ fields) = value v

unfoldable pub data_field : List String → DataField
data_field [] = missing
data_field (f ∷ fields) = ite (str_discrete f "data") (next_value fields) (data_field fields)

unfoldable pub malformed_payload :
    String → String → String → String → String → SerializedError → Json
malformed_payload id stream group raw now serialized = obj (
    field "originalMessageId" (str id) (
      field "originalStream" (str stream) (
        field "consumerGroup" (str group) (
          field "originalRawData" (str raw) (
            field "attempts" (num (of_nat 1)) (
              field "firstFailedAt" (str now) (
                field "lastFailedAt" (str now) (
                  field "error" (error_json serialized)
                    (field "reason" (str "invalid-json") end)))))))))

module _ {W : Type 0} where
  abbrev pub on_world : {A : Type 0} → Async W A → Async (BusState W) A
  on_world m s = let (o, w) = m s.world in (o, record s { world = w })

  abbrev pub count_handler_error : Async (BusState W) (Unit {0})
  count_handler_error s = (returned tt, record s { handler_errors = suc s.handler_errors })

  abbrev pub count_deadletter : DeadletterReason → Async (BusState W) (Unit {0})
  count_deadletter reason s = (returned tt, record s { deadletters = reason ∷ s.deadletters })

  -- A `catch` that logs.
  abbrev pub swallow : Outcome (Unit {0}) → Async (BusState W) (Unit {0})
  swallow o = resolve tt

module _ {W : Type 0} (redis : StreamRedis W) (texts : Texts) (parse : String → Outcome Json)
    (config : BusConfig) (loop : ConsumerLoop W) where
  unfoldable pub ack : String → Async (BusState W) (Unit {0})
  ack id = on_world (redis.xack loop.stream loop.group id)

  abbrev pub malformed_text : String → String → Thrown → W → String
  malformed_text id raw e w =
      texts.stringify
        (malformed_payload id loop.stream loop.group raw (redis.now w) (serialize_error texts e))

  unfoldable pub deadletter_malformed : String → String → Thrown → Async (BusState W) (Unit {0})
  unfolding ack
  deadletter_malformed id raw e s =
      (attempt (
            on_world (
              redis.xadd ais_deadletter_stream config.stream_maxlen
                (malformed_text id raw e s.world))
            >> count_deadletter invalid_json
            >> ack id)
          >>= swallow)
        s

  -- After `onHandlerError` has returned or thrown.
  unfoldable pub after_failure : String → Outcome FailureAction → Async (BusState W) (Unit {0})
  unfolding ack
  after_failure id (threw e) = resolve tt
  after_failure id (returned (leave_unacked attempts)) = resolve tt
  after_failure id (returned (deadletter_and_ack attempts letter)) =
      count_deadletter handler_error >> ack id

  -- After the handler and the acknowledgement that follows it, which are in one `try`.
  unfoldable pub after_handler : String → Json → Outcome (Unit {0}) → Async (BusState W) (Unit {0})
  unfolding after_failure
  after_handler id payload (returned done) = resolve tt
  after_handler id payload (threw e) =
      count_handler_error
      >> attempt (
          on_world (
            on_handler_error redis texts config (record {
              stream = loop.stream;
              group = loop.group;
              message_id = id;
              payload = payload;
              thrown = e;
            })))
      >>= after_failure id

  unfoldable pub handle_payload : String → String → Outcome Json → Async (BusState W) (Unit {0})
  unfolding deadletter_malformed after_handler
  handle_payload id raw (threw e) = deadletter_malformed id raw e
  handle_payload id raw (returned payload) =
      attempt (on_world (loop.handler id payload) >> ack id) >>= after_handler id payload

  abbrev pub dispatch_data : String → DataField → Async (BusState W) (Unit {0})
  dispatch_data id missing = ack id
  dispatch_data id empty = ack id
  dispatch_data id (value raw) = handle_payload id raw (parse raw)

  unfoldable pub dispatch : String → List String → Async (BusState W) (Unit {0})
  unfolding handle_payload
  dispatch id fields = dispatch_data id (data_field fields)

  -- The entries of one reply, as `runLoop` goes over them.
  unfoldable pub dispatch_all : List (String × List String) → Async (BusState W) (Unit {0})
  unfolding dispatch
  dispatch_all [] = resolve tt
  dispatch_all ((id, fields) ∷ entries) = dispatch id fields >> dispatch_all entries
