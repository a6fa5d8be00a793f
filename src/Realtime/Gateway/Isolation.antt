-- ===== src/Realtime/Gateway/Isolation.antt =====
-- One connection's troubles are not another's; the heartbeat; and the subscription that outlives its
-- connection.
use ais_tracking_system.Prelude.{
  ◌≡◌, refl, ◌≢◌, String, true, false, not, ◌&&◌, Option, some, none, [], ◌∷◌, All, arith,
  str_discrete, Option-cases, inl, inr, if◌then◌else◌,
}
use ais_tracking_system.Prelude.StringMap
use ais_tracking_system.Prelude.StringMap.{
  StringMap, IsDistinct, get-put, get-delete, has-put, has-delete, has_of_get,
}
use ais_tracking_system.Realtime.SendQueue
use ais_tracking_system.Realtime.SendQueue.{
  SendQueue, ServerMessage, EnqueueResult, accepted, queue_overflow,
}
use ais_tracking_system.Realtime.Gateway.{
  Gateway, Config, Sockets, Connection, cleanup, flush, disconnect_slow, count_outcome,
  after_enqueue, enqueue_on, enqueue,
}
use ais_tracking_system.Realtime.Gateway.Events.{tick_connection, tick_connections, tick_heartbeat}
use ais_tracking_system.Realtime.Gateway.Consistency.{IsSound, IsConsistent, get-IsSound}

-- The tables have the same to say of connection `j`.
abbrev pub AgreeOn : String → Gateway → Gateway → Type 0
AgreeOn j g h =
    (StringMap.get j h.connections ≡ StringMap.get j g.connections)
    × (StringMap.has j h.subscriptions ≡ StringMap.has j g.subscriptions)

cleanup-AgreeOn : (g : Gateway) (id j : String) → id ≢ j → AgreeOn j g (cleanup g id)
unfolding cleanup
cleanup-AgreeOn g id j ne =
    ground (arith, get-delete id j g.connections, has-delete id j g.subscriptions)

module _ (config : Config) (sockets : Sockets) where
  flush-AgreeOn :
      (g : Gateway) (conn : Connection) (j : String)
      → conn.id ≢ j
      → AgreeOn j g (flush config sockets g conn)
  unfolding flush
  flush-AgreeOn g conn j ne = ground (
    arith,
    get-put conn.id j (record conn { queue = (SendQueue.drain conn.queue).0 }) g.connections,
  )

  disconnect_slow-AgreeOn :
      (g : Gateway) (id j : String) → id ≢ j → AgreeOn j g (disconnect_slow config sockets g id)
  unfolding disconnect_slow
  disconnect_slow-AgreeOn g id j ne =
      ground (arith, get-delete id j g.connections, has-delete id j g.subscriptions)

  after_enqueue-AgreeOn :
      (g : Gateway) (conn : Connection) (j : String) (result : EnqueueResult)
      → conn.id ≢ j
      → AgreeOn j g (after_enqueue config sockets g conn result)
  unfolding after_enqueue
  after_enqueue-AgreeOn g conn j queue_overflow ne = disconnect_slow-AgreeOn g conn.id j ne
  after_enqueue-AgreeOn g conn j (accepted s e) ne =
      ground (arith, flush-AgreeOn (count_outcome config sockets s e g) conn j)

  -- A message for one connection, even one that closes it, leaves every other connection, its queue
  -- and its subscription as they were.
  pub enqueue-AgreeOn :
      (g : Gateway) (id j : String) (msg : ServerMessage)
      → IsConsistent config g
      → id ≢ j
      → AgreeOn j g (enqueue config sockets g id msg)
  unfolding enqueue enqueue_on
  enqueue-AgreeOn g id j msg v ne = elim (Option-cases (StringMap.get id g.connections)) [
    | inl missing ↦ rw (missing, enqueue) (refl, refl)
    | inr (conn, found) ↦
        let conn' : Connection = record conn { queue = (SendQueue.enqueue conn.queue msg).0 } in
        let g₁ : Gateway = record g { connections = StringMap.put conn.id conn' g.connections } in
        rw (found, enqueue)
          (ground (
            arith,
            get-IsSound config id g.connections conn v.sound found,
            after_enqueue-AgreeOn g₁ conn' j (SendQueue.enqueue conn.queue msg).1,
            get-put conn.id j conn' g.connections,
          ))
  ]

tick_connection-AgreeOn :
    (sockets : Sockets) (g : Gateway) (conn : Connection) (j : String)
    → conn.id ≢ j
    → AgreeOn j g (tick_connection sockets g conn)
unfolding tick_connection cleanup
tick_connection-AgreeOn sockets g conn j ne = ground (
  arith,
  get-put conn.id j (record conn { alive = false }) g.connections,
  get-delete conn.id j g.connections,
  get-delete conn.id j (StringMap.put conn.id (record conn { alive = false }) g.connections),
  has-delete conn.id j g.subscriptions,
)

-- What a heartbeat leaves of a connection: nothing, if it has not answered the one before or cannot
-- be pinged, and else the connection, marked as silent.
abbrev pub ticked : Sockets → Connection → Option Connection
ticked sockets conn =
    if conn.alive && not (sockets.ping_throws conn.id)
    then some (record conn { alive = false })
    else none

tick_connection_lem :
    (sockets : Sockets) (g : Gateway) (conn : Connection)
    → StringMap.has conn.id g.connections ≡ true
    → StringMap.get conn.id (tick_connection sockets g conn).connections ≡ ticked sockets conn
unfolding tick_connection cleanup
tick_connection_lem sockets g conn h = ground (
  arith,
  get-put conn.id conn.id (record conn { alive = false }) g.connections,
  has-put conn.id conn.id (record conn { alive = false }) g.connections,
  get-delete conn.id conn.id g.connections,
  get-delete conn.id conn.id (StringMap.put conn.id (record conn { alive = false }) g.connections),
)

pub tick_connections-AgreeOn :
    (config : Config) (sockets : Sockets) (g : Gateway) (m : StringMap Connection) (j : String)
    → All (IsSound config) m
    → StringMap.has j m ≡ false
    → AgreeOn j g (tick_connections sockets g m)
unfolding tick_connections StringMap.has
tick_connections-AgreeOn config sockets g [] j s absent = (refl, refl)
tick_connections-AgreeOn config sockets g ((k, conn) ∷ m) j s absent = ground (
  arith,
  tick_connection-AgreeOn sockets g conn j,
  tick_connections-AgreeOn config sockets (tick_connection sockets g conn) m j s.1,
)

tick_connections_lem :
    (config : Config) (sockets : Sockets) (g : Gateway) (m : StringMap Connection)
    (conn : Connection)
    → All (IsSound config) m
    → IsDistinct m
    → StringMap.get conn.id m ≡ some conn
    → StringMap.get conn.id g.connections ≡ some conn
    → StringMap.get conn.id (tick_connections sockets g m).connections ≡ ticked sockets conn
unfolding tick_connections StringMap.get
tick_connections_lem config sockets g [] conn s d found h = cc
tick_connections_lem config sockets g ((k, c) ∷ m) conn s d found h =
    elim (str_discrete k conn.id) [
      | yes same ↦ ground (
        arith,
        has_of_get conn.id conn g.connections h,
        tick_connections-AgreeOn config sockets (tick_connection sockets g c) m conn.id s.1,
        tick_connection_lem sockets g c,
      )
      | no other ↦ ground (
        arith,
        tick_connection-AgreeOn sockets g c conn.id,
        tick_connections_lem config sockets (tick_connection sockets g c) m conn s.1 d.1,
      )
    ]

-- A heartbeat drops each connection that has not answered the one before, or cannot be pinged, and
-- marks each other one as silent until it answers.
pub tick_heartbeat_lem :
    (config : Config) (sockets : Sockets) (g : Gateway) (id : String) (conn : Connection)
    → IsConsistent config g
    → StringMap.get id g.connections ≡ some conn
    → StringMap.get id (tick_heartbeat sockets g).connections ≡ ticked sockets conn
unfolding tick_heartbeat
tick_heartbeat_lem config sockets g id conn v found = ground (
  arith,
  get-IsSound config id g.connections conn v.sound found,
  tick_connections_lem config sockets g g.connections conn v.sound v.distinct,
)
