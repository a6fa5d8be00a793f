-- ===== src/Realtime/Gateway/Leak.antt =====
-- The subscription that outlives its connection.
use ais_tracking_system.Prelude.{
  ◌≡◌, ap, ◌≢◌, String, true, false, some, List, [], ◌∷◌, arith, str_discrete, Option-cases, inl,
  inr, All,
}
use ais_tracking_system.Prelude.StringMap
use ais_tracking_system.Prelude.StringMap.{has-put, has-delete, has-is_some}
use ais_tracking_system.Contracts.Json.{Json}
use ais_tracking_system.Realtime.SendQueue
use ais_tracking_system.Realtime.SendQueue.{ServerMessage}
use ais_tracking_system.Realtime.Gateway.{
  Gateway, Config, Sockets, cleanup, send_error, enqueue, handle_connection, handle_pong,
}
use ais_tracking_system.Realtime.Gateway.Events.{
  Parsing, is_subscribe, handle_message, tick_heartbeat, Event, connects, sends_pong, closes, fails,
  says, fans_out, heartbeat, step, run,
}
use ais_tracking_system.Realtime.Gateway.Consistency.{IsConsistent}
use ais_tracking_system.Realtime.Gateway.Runs.{
  AllFresh, step-IsConsistent, handle_message-IsConsistent,
}
use ais_tracking_system.Realtime.Gateway.Isolation.{
  AgreeOn, enqueue-AgreeOn, tick_connections-AgreeOn,
}

-- Connection `id` is forgotten, and yet subscribed.
abbrev pub IsLeaked : String → Gateway → Type 0
IsLeaked id g = (StringMap.has id g.connections ≡ false) × (StringMap.has id g.subscriptions ≡ true)

AgreeOn-IsLeaked : (id : String) (g h : Gateway) → AgreeOn id g h → IsLeaked id g → IsLeaked id h
AgreeOn-IsLeaked id g h agree l =
    ground (arith, has-is_some id g.connections, has-is_some id h.connections)

enqueue-IsLeaked :
    (config : Config) (sockets : Sockets) (g : Gateway) (id j : String) (msg : ServerMessage)
    → IsConsistent config g
    → IsLeaked id g
    → IsLeaked id (enqueue config sockets g j msg)
unfolding enqueue
enqueue-IsLeaked config sockets g id j msg v l = elim (str_discrete j id) [
  | yes same ↦ ground (arith, has-is_some id g.connections)
  | no other ↦
      AgreeOn-IsLeaked id g (enqueue config sockets g j msg)
        (enqueue-AgreeOn config sockets g j id msg v other) l
]

module _ (parsing : Parsing) (config : Config) where
  step-IsLeaked :
      (sockets : Sockets) (g : Gateway) (id : String) (event : Event)
      → event ≢ connects id
      → IsConsistent config g
      → IsLeaked id g
      → IsLeaked id (step parsing config sockets g event)
  unfolding step tick_heartbeat handle_connection handle_pong cleanup handle_message send_error
  step-IsLeaked sockets g id (connects j) ne v l = elim (str_discrete j id) [
    | yes same ↦ absurd (ne (ap connects same))
    | no other ↦ ground (
      arith,
      has-put j id (record { id = j; queue = SendQueue.new config.send_queue_max; alive = true })
          g.connections,
    )
  ]
  step-IsLeaked sockets g id (sends_pong j) ne v l =
      elim (Option-cases (StringMap.get j g.connections)) [
        | inl missing ↦ rw (missing, handle_pong) l
        | inr (conn, found) ↦
            rw (found, handle_pong)
              (ground (
                arith,
                has-put j id (record conn { alive = true }) g.connections,
                has-is_some j g.connections,
              ))
      ]
  step-IsLeaked sockets g id (closes j) ne v l =
      ground (arith, has-delete j id g.connections, has-delete j id g.subscriptions)
  step-IsLeaked sockets g id (fails j) ne v l =
      ground (arith, has-delete j id g.connections, has-delete j id g.subscriptions)
  step-IsLeaked sockets g id (says j raw) ne v l = ground (arith, has-put j id tt g.subscriptions)
  step-IsLeaked sockets g id (fans_out j msg) ne v l =
      enqueue-IsLeaked config sockets g id j msg v l
  step-IsLeaked sockets g id heartbeat ne v l =
      AgreeOn-IsLeaked id g (tick_heartbeat sockets g)
        (tick_connections-AgreeOn config sockets g g.connections id v.sound l.0) l

  run-IsLeaked :
      (g : Gateway) (id : String) (events : List (Sockets × Event))
      → All (λ e. e.1 ≢ connects id) events
      → AllFresh config parsing g events
      → IsConsistent config g
      → IsLeaked id g
      → IsLeaked id (run parsing config g events)
  unfolding run
  run-IsLeaked g id [] ne fresh v l = l
  run-IsLeaked g id ((sockets, event) ∷ events) ne fresh v l =
      run-IsLeaked (step parsing config sockets g event) id events ne.1 fresh.1
        (step-IsConsistent config parsing sockets g event fresh.0 v)
        (step-IsLeaked sockets g id event ne.0 v l)

-- A subscribe message that arrives when its connection has been forgotten already, as it may while
-- the close handshake of a slow client is under way, leaves a subscription for good: no later event
-- removes it, the socket's own `close` included, unless a connection comes with the same id.
pub late_message_leaks :
    (parsing : Parsing) (config : Config) (sockets : Sockets) (g : Gateway) (id raw : String)
    (parsed : Json) (events : List (Sockets × Event))
    → IsConsistent config g
    → StringMap.has id g.connections ≡ false
    → parsing.parse_json raw ≡ some parsed
    → is_subscribe parsed ≡ true
    → All (λ e. e.1 ≢ connects id) events
    → AllFresh config parsing (handle_message parsing sockets config g id raw) events
    → IsLeaked id (run parsing config (handle_message parsing sockets config g id raw) events)
unfolding handle_message
late_message_leaks parsing config sockets g id raw parsed events v gone e valid ne fresh =
    run-IsLeaked parsing config (handle_message parsing sockets config g id raw) id events ne fresh
      (handle_message-IsConsistent config parsing sockets g id raw v)
      (ground (arith, has-put id id tt g.subscriptions))
