-- ===== src/Realtime/Gateway/Runs.antt =====
-- The gateway's tables over any run of events.
use ais_tracking_system.Prelude.{
  ◌≡◌, refl, ◌≢◌, String, true, false, List, [], ◌∷◌, All, arith, ite, str_discrete, Bool-cases,
  Option-cases, inl, inr,
}
use ais_tracking_system.Prelude.StringMap
use ais_tracking_system.Prelude.StringMap.{
  StringMap, IsDistinct, put-IsDistinct, length-put_absent, has-put, has-delete,
}
use ais_tracking_system.Contracts.Json.{Json}
use ais_tracking_system.Realtime.SendQueue
use ais_tracking_system.Realtime.SendQueue.{SendQueue, ServerMessage}
use ais_tracking_system.Realtime.Gateway.{
  Gateway, Config, Sockets, Connection, write, cleanup, handle_connection, ping, terminate,
  handle_pong, start,
}
use ais_tracking_system.Realtime.Gateway.Events.{
  is_subscribe, Parsing, handle_parsed, handle_message, tick_connection, tick_connections,
  tick_heartbeat, Event, connects, sends_pong, closes, fails, says, fans_out, heartbeat, step, run,
}
use ais_tracking_system.Realtime.Gateway.Consistency.{
  IsSound, IsConsistent, put-IsSound, get-IsSound, cleanup-IsConsistent, replace-IsConsistent,
  send_error-IsConsistent, enqueue-IsConsistent,
}

-- Every entry's id has a connection in the gateway.
abbrev IsPresent : Gateway → String × Connection → Type 0
IsPresent g (k, conn) = StringMap.has k g.connections ≡ true

cleanup-has :
    (g : Gateway) (id j : String)
    → StringMap.has j (cleanup g id).connections
      ≡ ite (str_discrete id j) false (StringMap.has j g.connections)
unfolding cleanup
cleanup-has g id j = ground (arith, has-delete id j g.connections)

tick_connection-has :
    (sockets : Sockets) (g : Gateway) (conn : Connection) (j : String)
    → j ≢ conn.id
    → StringMap.has j (tick_connection sockets g conn).connections ≡ StringMap.has j g.connections
unfolding tick_connection
tick_connection-has sockets g conn j ne =
    let marked =
      write
        (record g {
          connections = StringMap.put conn.id (record conn { alive = false }) g.connections;
        })
        (ping conn.id) in
    ground (
      arith,
      has-put conn.id j (record conn { alive = false }) g.connections,
      cleanup-has marked conn.id j,
      cleanup-has (write g (terminate conn.id)) conn.id j,
    )

tick_connection-IsPresent :
    (sockets : Sockets) (g : Gateway) (conn : Connection) (m : StringMap Connection)
    → StringMap.has conn.id m ≡ false
    → All (IsPresent g) m
    → All (IsPresent (tick_connection sockets g conn)) m
unfolding StringMap.has
tick_connection-IsPresent sockets g conn [] absent h = tt
tick_connection-IsPresent sockets g conn ((k, c) ∷ m) absent h =
    ground (arith, tick_connection-IsPresent sockets g conn m, tick_connection-has sockets g conn k)

module _ (config : Config) where
  tick_connection-IsConsistent :
      (sockets : Sockets) (g : Gateway) (conn : Connection)
      → IsConsistent config g
      → IsSound config (conn.id, conn)
      → StringMap.has conn.id g.connections ≡ true
      → IsConsistent config (tick_connection sockets g conn)
  unfolding tick_connection
  tick_connection-IsConsistent sockets g conn v s h =
      let asleep : Connection = record conn { alive = false } in
      let marked =
        write (record g { connections = StringMap.put conn.id asleep g.connections })
          (ping conn.id) in
      ground (
        arith,
        replace-IsConsistent config g conn.id asleep v h,
        cleanup-IsConsistent config marked conn.id,
        cleanup-IsConsistent config (write g (terminate conn.id)) conn.id,
      )

  tick_connections-IsConsistent :
      (sockets : Sockets) (g : Gateway) (m : StringMap Connection)
      → IsConsistent config g
      → IsDistinct m
      → All (IsSound config) m
      → All (IsPresent g) m
      → IsConsistent config (tick_connections sockets g m)
  unfolding tick_connections
  tick_connections-IsConsistent sockets g [] v d s h = v
  tick_connections-IsConsistent sockets g ((k, conn) ∷ m) v d s h =
      tick_connections-IsConsistent sockets (tick_connection sockets g conn) m
        (tick_connection-IsConsistent sockets g conn v (ground arith) (ground arith)) d.1 s.1
        (tick_connection-IsPresent sockets g conn m (ground arith) h.1)

  IsPresent-self :
      (g : Gateway) (m : StringMap Connection)
      → ((j : String) → StringMap.has j m ≡ true → StringMap.has j g.connections ≡ true)
      → All (IsPresent g) m
  unfolding StringMap.has
  IsPresent-self g [] h = tt
  IsPresent-self g ((k, conn) ∷ m) h =
      (h k (ground arith), IsPresent-self g m (λ j e. h j (ground arith)))

  -- A connection comes with a new id.
  abbrev pub IsFresh : Gateway → Event → Type 0
  IsFresh g (connects id) = StringMap.has id g.connections ≡ false
  IsFresh g (sends_pong id) = Unit {0}
  IsFresh g (closes id) = Unit {0}
  IsFresh g (fails id) = Unit {0}
  IsFresh g (says id raw) = Unit {0}
  IsFresh g (fans_out id msg) = Unit {0}
  IsFresh g heartbeat = Unit {0}

  abbrev newcomer : String → Connection
  newcomer id = record { id = id; queue = SendQueue.new config.send_queue_max; alive = true }

  newcomer-IsSound : (id : String) → IsSound config (id, newcomer id)
  unfolding SendQueue.new
  newcomer-IsSound id = (refl, record { bounded = omega arith; distinct = tt; filed = tt }, refl)

  handle_connection-IsConsistent :
      (g : Gateway) (id : String)
      → StringMap.has id g.connections ≡ false
      → IsConsistent config g
      → IsConsistent config (handle_connection config g id)
  unfolding handle_connection
  handle_connection-IsConsistent g id fresh v = ground (
    arith,
    newcomer-IsSound id,
    put-IsDistinct id (newcomer id) g.connections,
    put-IsSound config id (newcomer id) g.connections,
    length-put_absent id (newcomer id) g.connections,
  )

  handle_pong-IsConsistent :
      (g : Gateway) (id : String) → IsConsistent config g → IsConsistent config (handle_pong g id)
  unfolding handle_pong
  handle_pong-IsConsistent g id v = elim (Option-cases (StringMap.get id g.connections)) [
    | inl missing ↦ rw (missing, handle_pong) v
    | inr (conn, found) ↦
        let (s, h) = get-IsSound config id g.connections conn v.sound found in
        rw (found, handle_pong)
          (replace-IsConsistent config g id (record conn { alive = true }) v h s)
  ]

  module _ (parsing : Parsing) (sockets : Sockets) where
    handle_parsed-IsConsistent :
        (g : Gateway) (id : String) (parsed : Json)
        → IsConsistent config g
        → IsConsistent config (handle_parsed parsing sockets config g id parsed)
    unfolding handle_parsed
    handle_parsed-IsConsistent g id parsed v = elim (Bool-cases (is_subscribe parsed)) [
      | inl e ↦ rw (e, handle_parsed) (ground arith)
      | inr e ↦ rw (e, handle_parsed) (send_error-IsConsistent config sockets _ id _ (ground arith))
    ]

    pub handle_message-IsConsistent :
        (g : Gateway) (id raw : String)
        → IsConsistent config g
        → IsConsistent config (handle_message parsing sockets config g id raw)
    unfolding handle_message
    handle_message-IsConsistent g id raw v = elim (Option-cases (parsing.parse_json raw)) [
      | inl e ↦
          rw (e, handle_message) (send_error-IsConsistent config sockets _ id _ (ground arith))
      | inr (parsed, e) ↦ rw (e, handle_message) (handle_parsed-IsConsistent g id parsed v)
    ]

    pub step-IsConsistent :
        (g : Gateway) (event : Event)
        → IsFresh g event
        → IsConsistent config g
        → IsConsistent config (step parsing config sockets g event)
    unfolding step tick_heartbeat
    step-IsConsistent g (connects id) fresh v = handle_connection-IsConsistent g id fresh v
    step-IsConsistent g (sends_pong id) fresh v = handle_pong-IsConsistent g id v
    step-IsConsistent g (closes id) fresh v = cleanup-IsConsistent config g id v
    step-IsConsistent g (fails id) fresh v = cleanup-IsConsistent config g id v
    step-IsConsistent g (says id raw) fresh v = handle_message-IsConsistent g id raw v
    step-IsConsistent g (fans_out id msg) fresh v = enqueue-IsConsistent config sockets g id msg v
    step-IsConsistent g heartbeat fresh v =
        tick_connections-IsConsistent sockets g g.connections v v.distinct v.sound
          (IsPresent-self g g.connections (λ j e. e))

  -- Every connection of the run comes with a new id.
  abbrev pub AllFresh : Parsing → Gateway → List (Sockets × Event) → Type 0
  AllFresh parsing g [] = Unit {0}
  AllFresh parsing g ((sockets, event) ∷ events) =
      IsFresh g event × AllFresh parsing (step parsing config sockets g event) events

  run-IsConsistent :
      (parsing : Parsing) (g : Gateway) (events : List (Sockets × Event))
      → AllFresh parsing g events
      → IsConsistent config g
      → IsConsistent config (run parsing config g events)
  unfolding run
  run-IsConsistent parsing g [] fresh v = v
  run-IsConsistent parsing g ((sockets, event) ∷ events) fresh v =
      run-IsConsistent parsing (step parsing config sockets g event) events fresh.1
        (step-IsConsistent parsing sockets g event fresh.0 v)

-- After any events, if no connection comes with an id that is taken, every id has one entry, filed
-- under it; every queue is within the configured bound and has one position a vessel at most; and
-- the gauge of active connections is their number.
pub run-start-IsConsistent :
    (config : Config) (parsing : Parsing) (events : List (Sockets × Event))
    → AllFresh config parsing start events
    → IsConsistent config (run parsing config start events)
unfolding start
run-start-IsConsistent config parsing events fresh =
    run-IsConsistent config parsing start events fresh
      (record { distinct = tt; sound = tt; gauge = refl })
