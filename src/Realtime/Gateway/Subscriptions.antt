-- ===== src/Realtime/Gateway/Subscriptions.antt =====
-- The subscriptions of a gateway that is up are those of its connections.
use ais_tracking_system.Prelude.{
  ◌≡◌, refl, String, true, false, List, [], ◌∷◌, arith, Option-cases, inl, inr, ◌⊎◌,
}
use ais_tracking_system.Prelude.StringMap
use ais_tracking_system.Prelude.StringMap.{StringMap, has-put, has-delete, has_of_get}
use ais_tracking_system.Realtime.SendQueue
use ais_tracking_system.Realtime.SendQueue.{ServerMessage, EnqueueResult, accepted, queue_overflow}
use ais_tracking_system.Realtime.Gateway.{
  start, ping, terminate, Gateway, Config, Sockets, Connection, write, cleanup, send_error, flush,
  disconnect_slow, after_enqueue, enqueue_on, enqueue, handle_connection, handle_pong,
}
use ais_tracking_system.Realtime.Gateway.Events.{
  Parsing, handle_message, tick_connection, tick_connections, tick_heartbeat, Event, connects,
  sends_pong, closes, fails, says, fans_out, heartbeat, step, run,
}

-- If connection `j` is subscribed, it is there.
abbrev pub IsLinked : String → Gateway → Type 0
IsLinked j g = (StringMap.has j g.subscriptions ≡ false) ⊎ (StringMap.has j g.connections ≡ true)

cleanup-IsLinked : (g : Gateway) (id j : String) → IsLinked j g → IsLinked j (cleanup g id)
unfolding cleanup
cleanup-IsLinked g id j l =
    ground (arith, has-delete id j g.connections, has-delete id j g.subscriptions)

tick_connection-IsLinked :
    (sockets : Sockets) (g : Gateway) (conn : Connection) (j : String)
    → IsLinked j g
    → IsLinked j (tick_connection sockets g conn)
unfolding tick_connection
tick_connection-IsLinked sockets g conn j l =
    let asleep : Connection = record conn { alive = false } in
    let marked =
      write (record g { connections = StringMap.put conn.id asleep g.connections })
        (ping conn.id) in
    ground (
      arith,
      has-put conn.id j asleep g.connections,
      cleanup-IsLinked marked conn.id j,
      cleanup-IsLinked (write g (terminate conn.id)) conn.id j,
    )

tick_connections-IsLinked :
    (sockets : Sockets) (g : Gateway) (m : StringMap Connection) (j : String)
    → IsLinked j g
    → IsLinked j (tick_connections sockets g m)
unfolding tick_connections
tick_connections-IsLinked sockets g [] j l = l
tick_connections-IsLinked sockets g ((k, conn) ∷ m) j l =
    tick_connections-IsLinked sockets (tick_connection sockets g conn) m j
      (tick_connection-IsLinked sockets g conn j l)

module _ (config : Config) (sockets : Sockets) where
  after_enqueue-IsLinked :
      (g : Gateway) (conn : Connection) (j : String) (result : EnqueueResult)
      → IsLinked j g
      → IsLinked j (after_enqueue config sockets g conn result)
  unfolding after_enqueue disconnect_slow flush
  after_enqueue-IsLinked g conn j queue_overflow l =
      ground (arith, has-delete conn.id j g.connections, has-delete conn.id j g.subscriptions)
  after_enqueue-IsLinked g conn j (accepted s e) l = ground (
    arith,
    has-put conn.id j (record conn { queue = (SendQueue.drain conn.queue).0 }) g.connections,
  )

  enqueue-IsLinked :
      (g : Gateway) (id j : String) (msg : ServerMessage)
      → IsLinked j g
      → IsLinked j (enqueue config sockets g id msg)
  unfolding enqueue enqueue_on
  enqueue-IsLinked g id j msg l = elim (Option-cases (StringMap.get id g.connections)) [
    | inl missing ↦ rw (missing, enqueue) l
    | inr (conn, found) ↦
        let conn' : Connection = record conn { queue = (SendQueue.enqueue conn.queue msg).0 } in
        let g₁ : Gateway = record g { connections = StringMap.put conn.id conn' g.connections } in
        rw (found, enqueue)
          (after_enqueue-IsLinked g₁ conn' j (SendQueue.enqueue conn.queue msg).1
            (ground (arith, has-put conn.id j conn' g.connections)))
  ]

  handle_message-IsLinked :
      (parsing : Parsing) (g : Gateway) (id raw j : String)
      → StringMap.has id g.connections ≡ true
      → IsLinked j g
      → IsLinked j (handle_message parsing sockets config g id raw)
  unfolding handle_message send_error
  handle_message-IsLinked parsing g id raw j timely l =
      ground (arith, has-put id j tt g.subscriptions)

-- A client's message comes while its connection is there.
abbrev pub IsTimely : Gateway → Event → Type 0
IsTimely g (connects id) = Unit {0}
IsTimely g (sends_pong id) = Unit {0}
IsTimely g (closes id) = Unit {0}
IsTimely g (fails id) = Unit {0}
IsTimely g (says id raw) = StringMap.has id g.connections ≡ true
IsTimely g (fans_out id msg) = Unit {0}
IsTimely g heartbeat = Unit {0}

module _ (parsing : Parsing) (config : Config) where
  step-IsLinked :
      (sockets : Sockets) (g : Gateway) (event : Event) (j : String)
      → IsTimely g event
      → IsLinked j g
      → IsLinked j (step parsing config sockets g event)
  unfolding step tick_heartbeat handle_connection handle_pong
  step-IsLinked sockets g (connects id) j timely l = ground (
    arith,
    has-put id j (record { id = id; queue = SendQueue.new config.send_queue_max; alive = true })
        g.connections,
  )
  step-IsLinked sockets g (sends_pong id) j timely l =
      elim (Option-cases (StringMap.get id g.connections)) [
        | inl missing ↦ rw (missing, handle_pong) l
        | inr (conn, found) ↦
            rw (found, handle_pong)
              (ground (arith, has-put id j (record conn { alive = true }) g.connections))
      ]
  step-IsLinked sockets g (closes id) j timely l = cleanup-IsLinked g id j l
  step-IsLinked sockets g (fails id) j timely l = cleanup-IsLinked g id j l
  step-IsLinked sockets g (says id raw) j timely l =
      handle_message-IsLinked config sockets parsing g id raw j timely l
  step-IsLinked sockets g (fans_out id msg) j timely l =
      enqueue-IsLinked config sockets g id j msg l
  step-IsLinked sockets g heartbeat j timely l =
      tick_connections-IsLinked sockets g g.connections j l

  abbrev pub AllTimely : Gateway → List (Sockets × Event) → Type 0
  AllTimely g [] = Unit {0}
  AllTimely g ((sockets, event) ∷ events) =
      IsTimely g event × AllTimely (step parsing config sockets g event) events

  run-IsLinked :
      (g : Gateway) (events : List (Sockets × Event)) (j : String)
      → AllTimely g events
      → IsLinked j g
      → IsLinked j (run parsing config g events)
  unfolding run
  run-IsLinked g [] j timely l = l
  run-IsLinked g ((sockets, event) ∷ events) j timely l =
      run-IsLinked (step parsing config sockets g event) events j timely.1
        (step-IsLinked sockets g event j timely.0 l)

-- After any events of a gateway that is up, of which its shutdown is none: as long as every client's
-- message comes while its connection is there, each subscribed id is that of a connection.
pub run-start-IsLinked :
    (parsing : Parsing) (config : Config) (events : List (Sockets × Event)) (j : String)
    → AllTimely parsing config start events
    → IsLinked j (run parsing config start events)
unfolding start StringMap.has
run-start-IsLinked parsing config events j timely =
    run-IsLinked parsing config start events j timely (inl refl)
