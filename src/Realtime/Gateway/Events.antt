-- ===== src/Realtime/Gateway/Events.antt =====
-- The rest of the gateway's handlers (messages from clients, the heartbeat, the shutdown), and the
-- events that drive it (src/realtime/realtime.gateway.ts).
use ais_tracking_system.Prelude.{
  ◌+◌, String, Bool, true, false, Option, some, none, List, [], ◌∷◌, ◌++◌, if◌then◌else◌, ite,
  str_discrete, get_or_else,
}
use ais_tracking_system.Prelude.StringMap
use ais_tracking_system.Prelude.StringMap.{StringMap}
use ais_tracking_system.Contracts.Json.{Json, str, obj, end, field}
use ais_tracking_system.Realtime.SendQueue.{ServerMessage}
use ais_tracking_system.Realtime.Gateway.{
  Gateway, Config, Sockets, Connection, Action, close, terminate, ping, count_dropped,
  invalid_payload, write, add_subscription, cleanup, send_error, enqueue, handle_connection,
  handle_pong,
}

-- ClientMessageSchema: an object whose one field is `type`, with the value "subscribe".
unfoldable pub is_subscribe : Json → Bool
is_subscribe (obj (field key (str value) end)) =
    ite (str_discrete key "type") (ite (str_discrete value "subscribe") true false) false
is_subscribe _ = false

-- `JSON.parse`, which throws on a text that is no JSON, and what zod says of a value that it refuses:
-- the first issue's message, if there is an issue, and the list of them.
pub record Parsing : Type 0 where
  pub parse_json : String → Option Json
  pub issue_message : Json → Option String
  pub issues : Json → Json

module _ (parsing : Parsing) (sockets : Sockets) where
  unfoldable pub handle_parsed : Config → Gateway → String → Json → Gateway
  handle_parsed config g id parsed =
      if is_subscribe parsed
      then record g {
        subscriptions = add_subscription id g.subscriptions;
        subscriptions_accepted = g.subscriptions_accepted + 1;
      }
      else send_error config sockets (write g (count_dropped invalid_payload)) id (record {
        code = "INVALID_MESSAGE";
        message = get_or_else (parsing.issue_message parsed) "invalid message";
        details = some (parsing.issues parsed);
      })

  unfoldable pub handle_message : Config → Gateway → String → String → Gateway
  unfolding handle_parsed
  handle_message config g id raw = elim (parsing.parse_json raw) [
    | none ↦
        send_error config sockets (write g (count_dropped invalid_payload)) id
          (record { code = "INVALID_PAYLOAD"; message = "message must be JSON"; details = none })
    | some parsed ↦ handle_parsed config g id parsed
  ]

-- One round of the loop in `tickHeartbeat`. A `Map` may lose the entry that its iterator is at, so
-- the loop runs over the connections there are at its start.
unfoldable pub tick_connection : Sockets → Gateway → Connection → Gateway
tick_connection sockets g conn =
    if conn.alive
    then (let pinged =
          write
            (record g {
              connections = StringMap.put conn.id (record conn { alive = false }) g.connections;
            })
            (ping conn.id) in
        if sockets.ping_throws conn.id then cleanup pinged conn.id else pinged)
    else cleanup (write g (terminate conn.id)) conn.id

unfoldable pub tick_connections : Sockets → Gateway → StringMap Connection → Gateway
tick_connections sockets g [] = g
tick_connections sockets g ((_, conn) ∷ conns) =
    tick_connections sockets (tick_connection sockets g conn) conns

unfoldable pub tick_heartbeat : Sockets → Gateway → Gateway
unfolding tick_connections tick_connection
tick_heartbeat sockets g = tick_connections sockets g g.connections

unfoldable pub close_all : StringMap Connection → List Action
close_all [] = []
close_all ((_, conn) ∷ conns) = close conn.id 1001 "server shutdown" ∷ close_all conns

-- The gauge and the subscriptions stay as they are.
unfoldable pub on_module_destroy : Gateway → Gateway
unfolding close_all
on_module_destroy g = record g { connections = []; log = g.log ++ close_all g.connections }

-- What may happen to a gateway that is up; its shutdown, `on_module_destroy`, is not among this. The
-- fanout sends a message to one connection.
pub data Event : Type 0 where
  connects sends_pong closes fails : String → Event
  says : String → String → Event
  fans_out : String → ServerMessage → Event
  heartbeat : Event

module _ (parsing : Parsing) (config : Config) where
  unfoldable pub step : Sockets → Gateway → Event → Gateway
  step sockets g (connects id) = handle_connection config g id
  step sockets g (sends_pong id) = handle_pong g id
  step sockets g (closes id) = cleanup g id
  step sockets g (fails id) = cleanup g id
  step sockets g (says id raw) = handle_message parsing sockets config g id raw
  step sockets g (fans_out id msg) = enqueue config sockets g id msg
  step sockets g heartbeat = tick_heartbeat sockets g

  unfoldable pub run : Gateway → List (Sockets × Event) → Gateway
  run g [] = g
  run g ((sockets, event) ∷ events) = run (step sockets g event) events
