-- ===== src/Realtime/Gateway.antt =====
-- The WebSocket gateway (src/realtime/realtime.gateway.ts) and the subscriptions that it keeps
-- (src/realtime/subscription.service.ts). The sockets of the `ws` package are the environment: what
-- the gateway reads of them is the argument `Sockets`, and what it does to them stands in the log,
-- with the counters that it steps. A connection is known by its id, a random UUID.
pub mod Events
pub mod Consistency
pub mod Leak
pub mod Subscriptions
pub mod Isolation
pub mod Delivery
pub mod Runs
use ais_tracking_system.Prelude.{
  ℕ, ◌+◌, String, Bool, true, false, ◌&&◌, not, Option, some, none, List, [], ◌∷◌, ◌++◌, length,
  leb, if◌then◌else◌, ite, str_discrete,
}
use ais_tracking_system.Prelude.StringMap
use ais_tracking_system.Prelude.StringMap.{StringMap}
use ais_tracking_system.Contracts.Json.{Json, Fields, null, bool, num, str, arr, obj, end, field}
use ais_tracking_system.Realtime.SendQueue
use ais_tracking_system.Realtime.SendQueue.{
  SendQueue, ServerMessage, ErrorBody, EnqueueResult, position, static, vessel_enriched, error,
  accepted, queue_overflow,
}

pub record Connection : Type 0 where
  pub id : String
  pub queue : SendQueue
  pub alive : Bool

pub data MessageKind : Type 0 where
  position_kind static_kind enriched_kind error_kind : MessageKind

pub data DropReason : Type 0 where
  overflow superseded invalid_payload : DropReason

pub data Action : Type 0 where
  send : String → ServerMessage → Action
  close : String → ℕ → String → Action
  terminate ping : String → Action
  count_sent : MessageKind → Action
  count_dropped : DropReason → Action

pub record Config : Type 0 where
  pub send_queue_max : ℕ
  pub buffered_amount_limit_bytes : ℕ

-- What the gateway reads of the sockets.
pub record Sockets : Type 0 where
  pub is_open : String → Bool
  pub buffered_amount : String → ℕ
  pub ping_throws : String → Bool

-- The gauge of active connections is kept by the numbers of its `inc` and `dec` calls.
pub record Gateway : Type 0 where
  pub connections : StringMap Connection
  pub subscriptions : StringMap (Unit {0})
  pub active_incs : ℕ
  pub active_decs : ℕ
  pub subscriptions_accepted : ℕ
  pub log : List Action

unfoldable pub start : Gateway
start = record {
  connections = [];
  subscriptions = [];
  active_incs = 0;
  active_decs = 0;
  subscriptions_accepted = 0;
  log = [];
}

-- SubscriptionService
abbrev pub add_subscription : String → StringMap (Unit {0}) → StringMap (Unit {0})
add_subscription id subs = StringMap.put id tt subs

abbrev pub remove_subscription : String → StringMap (Unit {0}) → StringMap (Unit {0})
remove_subscription id subs = StringMap.delete id subs

abbrev pub write : Gateway → Action → Gateway
write g action = record g { log = g.log ++ action ∷ [] }

abbrev pub kind_of : ServerMessage → MessageKind
kind_of (position event) = position_kind
kind_of (static event) = static_kind
kind_of (vessel_enriched event) = enriched_kind
kind_of (error body) = error_kind

unfoldable pub cleanup : Gateway → String → Gateway
cleanup g id =
    if StringMap.has id g.connections
    then record g {
      connections = StringMap.delete id g.connections;
      subscriptions = remove_subscription id g.subscriptions;
      active_decs = g.active_decs + 1;
    }
    else g

-- The loop of `flush`.
unfoldable pub send_all : String → List ServerMessage → List Action
send_all id [] = []
send_all id (msg ∷ msgs) = send id msg ∷ count_sent (kind_of msg) ∷ send_all id msgs

module _ (config : Config) (sockets : Sockets) where
  unfoldable pub send_error : Gateway → String → ErrorBody → Gateway
  send_error g id body =
      if sockets.is_open id
      then write (write g (send id (error body))) (count_sent error_kind)
      else g

  unfoldable pub flush : Gateway → Connection → Gateway
  flush g conn =
      if not (sockets.is_open conn.id)
      then g
      else if leb config.buffered_amount_limit_bytes (sockets.buffered_amount conn.id)
      then g
      else (let (queue, drained) = SendQueue.drain conn.queue in
          record g {
            connections = StringMap.put conn.id (record conn { queue = queue }) g.connections;
            log = g.log ++ send_all conn.id drained;
          })

  unfoldable pub disconnect_slow : Gateway → String → Gateway
  unfolding cleanup send_error
  disconnect_slow g id =
      let g₁ = write g (count_dropped overflow) in
      let g₂ = send_error g₁ id (record {
        code = "QUEUE_OVERFLOW";
        message = "send queue overflowed; client too slow";
        details = none;
      }) in
      cleanup (write g₂ (close id 1013 "queue overflow")) id

  abbrev pub count_outcome : Bool → Bool → Gateway → Gateway
  count_outcome was_superseded evicted g =
      let g₁ = if was_superseded then write g (count_dropped superseded) else g in
      if evicted then write g₁ (count_dropped overflow) else g₁

  -- What follows the queue's answer, for a connection whose queue it has changed.
  unfoldable pub after_enqueue : Gateway → Connection → EnqueueResult → Gateway
  unfolding disconnect_slow flush
  after_enqueue g conn queue_overflow = disconnect_slow g conn.id
  after_enqueue g conn (accepted was_superseded evicted) =
      flush (count_outcome was_superseded evicted g) conn

  unfoldable pub enqueue_on : Gateway → ServerMessage → Connection → Gateway
  unfolding after_enqueue
  enqueue_on g msg conn =
      let (queue, result) = SendQueue.enqueue conn.queue msg in
      let conn' : Connection = record conn { queue = queue } in
      after_enqueue (record g { connections = StringMap.put conn.id conn' g.connections }) conn'
        result

  unfoldable pub enqueue : Gateway → String → ServerMessage → Gateway
  unfolding enqueue_on
  enqueue g id msg = elim (StringMap.get id g.connections) [
    | none ↦ g
    | some conn ↦ enqueue_on g msg conn
  ]

unfoldable pub handle_connection : Config → Gateway → String → Gateway
handle_connection config g id = record g {
  connections =
      StringMap.put id
        (record { id = id; queue = SendQueue.new config.send_queue_max; alive = true })
        g.connections;
  active_incs = g.active_incs + 1;
}

-- The listener of `pong` keeps the connection's object, which may have been forgotten.
unfoldable pub handle_pong : Gateway → String → Gateway
handle_pong g id = elim (StringMap.get id g.connections) [
  | none ↦ g
  | some conn ↦ record g {
    connections = StringMap.put id (record conn { alive = true }) g.connections;
  }
]
