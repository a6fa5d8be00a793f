-- ===== src/Realtime/Gateway/Consistency.antt =====
-- What always holds of the gateway's tables.
use ais_tracking_system.Prelude.{
  ◌+◌, ◌≡◌, refl, ◌∙◌, String, true, some, none, [], ◌∷◌, length, All, arith, Option-cases, inl,
  inr,
}
use ais_tracking_system.Prelude.StringMap
use ais_tracking_system.Prelude.StringMap.{
  StringMap, IsDistinct, put-IsDistinct, delete-IsDistinct, length-put_present, length-put_absent,
  length-delete, has-put,
}
use ais_tracking_system.Realtime.SendQueue
use ais_tracking_system.Realtime.SendQueue.{
  SendQueue, ServerMessage, ErrorBody, EnqueueResult, accepted, queue_overflow,
}
use ais_tracking_system.Realtime.SendQueue.Bounds.{
  IsWellFormed, enqueue-IsWellFormed, enqueue-max_entries,
}
use ais_tracking_system.Realtime.SendQueue.Delivery.{drain_lem}
use ais_tracking_system.Realtime.Gateway.{
  Gateway, Config, Sockets, Connection, write, cleanup, send_error, flush, disconnect_slow,
  count_outcome, after_enqueue, enqueue_on, enqueue, count_dropped, overflow,
}

-- A connection's entry: filed under its id, with a well-formed queue of the configured bound.
abbrev pub IsSound : Config → String × Connection → Type 0
IsSound config (k, conn) =
    (conn.id ≡ k) × IsWellFormed conn.queue × (conn.queue.max_entries ≡ config.send_queue_max)

-- Every id has one entry, every entry is sound, and the gauge shows the number of connections.
pub record IsConsistent (config : Config) (g : Gateway) : Type 0 where
  pub distinct : IsDistinct g.connections
  pub sound : All (IsSound config) g.connections
  pub gauge : g.active_incs ≡ g.active_decs + length g.connections

module _ (config : Config) where
  pub put-IsSound :
      (k : String) (conn : Connection) (m : StringMap Connection)
      → IsSound config (k, conn)
      → All (IsSound config) m
      → All (IsSound config) (StringMap.put k conn m)
  unfolding StringMap.put
  put-IsSound k conn [] s h = (s, tt)
  put-IsSound k conn ((j, c) ∷ m) s h = ground (arith, put-IsSound k conn m s h.1)

  delete-IsSound :
      (k : String) (m : StringMap Connection)
      → All (IsSound config) m
      → All (IsSound config) (StringMap.delete k m)
  unfolding StringMap.delete
  delete-IsSound k [] h = tt
  delete-IsSound k ((j, c) ∷ m) h = ground (arith, delete-IsSound k m h.1)

  pub get-IsSound :
      (k : String) (m : StringMap Connection) (conn : Connection)
      → All (IsSound config) m
      → StringMap.get k m ≡ some conn
      → IsSound config (k, conn) × (StringMap.has k m ≡ true)
  unfolding StringMap.get StringMap.has
  get-IsSound k [] conn h e = cc
  get-IsSound k ((j, c) ∷ m) conn h e = ground (arith, get-IsSound k m conn h.1)

  pub cleanup-IsConsistent :
      (g : Gateway) (id : String) → IsConsistent config g → IsConsistent config (cleanup g id)
  unfolding cleanup
  cleanup-IsConsistent g id v = ground (
    arith,
    delete-IsDistinct id g.connections,
    delete-IsSound id g.connections,
    length-delete id g.connections,
  )

  -- A sound entry of a connection that is there may be replaced.
  pub replace-IsConsistent :
      (g : Gateway) (k : String) (conn : Connection)
      → IsConsistent config g
      → StringMap.has k g.connections ≡ true
      → IsSound config (k, conn)
      → IsConsistent config (record g { connections = StringMap.put k conn g.connections })
  replace-IsConsistent g k conn v h s = ground (
    arith,
    put-IsDistinct k conn g.connections,
    put-IsSound k conn g.connections,
    length-put_present k conn g.connections,
  )

  pub send_error-IsConsistent :
      (sockets : Sockets) (g : Gateway) (id : String) (body : ErrorBody)
      → IsConsistent config g
      → IsConsistent config (send_error config sockets g id body)
  unfolding send_error
  send_error-IsConsistent sockets g id body v = ground arith

  drain-IsWellFormed :
      (q : SendQueue)
      → IsWellFormed (SendQueue.drain q).0 × ((SendQueue.drain q).0.max_entries ≡ q.max_entries)
  drain-IsWellFormed q = ground (arith, drain_lem q)

  flush-IsConsistent :
      (sockets : Sockets) (g : Gateway) (conn : Connection)
      → IsConsistent config g
      → StringMap.has conn.id g.connections ≡ true
      → IsSound config (conn.id, conn)
      → IsConsistent config (flush config sockets g conn)
  unfolding flush
  flush-IsConsistent sockets g conn v h s = ground (
    arith,
    drain-IsWellFormed conn.queue,
    replace-IsConsistent g conn.id (record conn { queue = (SendQueue.drain conn.queue).0 }) v h,
  )

  disconnect_slow-IsConsistent :
      (sockets : Sockets) (g : Gateway) (id : String)
      → IsConsistent config g
      → IsConsistent config (disconnect_slow config sockets g id)
  unfolding disconnect_slow
  disconnect_slow-IsConsistent sockets g id v = cleanup-IsConsistent _ id (
      ground (
        arith,
        send_error-IsConsistent sockets (write g (count_dropped overflow)) id (record {
          code = "QUEUE_OVERFLOW";
          message = "send queue overflowed; client too slow";
          details = none;
        }),
      ))

  after_enqueue-IsConsistent :
      (sockets : Sockets) (g : Gateway) (conn : Connection) (result : EnqueueResult)
      → IsConsistent config g
      → StringMap.has conn.id g.connections ≡ true
      → IsSound config (conn.id, conn)
      → IsConsistent config (after_enqueue config sockets g conn result)
  unfolding after_enqueue
  after_enqueue-IsConsistent sockets g conn queue_overflow v h s =
      disconnect_slow-IsConsistent sockets g conn.id v
  after_enqueue-IsConsistent sockets g conn (accepted s₁ s₂) v h s =
      flush-IsConsistent sockets (count_outcome config sockets s₁ s₂ g) conn (ground arith)
        (ground arith) s

  enqueue_on-IsConsistent :
      (sockets : Sockets) (g : Gateway) (msg : ServerMessage) (conn : Connection)
      → IsConsistent config g
      → StringMap.has conn.id g.connections ≡ true
      → IsSound config (conn.id, conn)
      → IsConsistent config (enqueue_on config sockets g msg conn)
  unfolding enqueue_on
  enqueue_on-IsConsistent sockets g msg conn v h s =
      let (queue, result) = SendQueue.enqueue conn.queue msg in
      let conn' : Connection = record conn { queue = queue } in
      let s' : IsSound config (conn.id, conn') =
        (refl, enqueue-IsWellFormed conn.queue msg s.1, enqueue-max_entries conn.queue msg ∙ s.2) in
      after_enqueue-IsConsistent sockets
        (record g { connections = StringMap.put conn.id conn' g.connections }) conn' result
        (replace-IsConsistent g conn.id conn' v h s')
        (ground (arith, has-put conn.id conn.id conn' g.connections)) s'

  pub enqueue-IsConsistent :
      (sockets : Sockets) (g : Gateway) (id : String) (msg : ServerMessage)
      → IsConsistent config g
      → IsConsistent config (enqueue config sockets g id msg)
  unfolding enqueue
  enqueue-IsConsistent sockets g id msg v = elim (Option-cases (StringMap.get id g.connections)) [
    | inl missing ↦ rw (missing, enqueue) v
    | inr (conn, found) ↦
        let (s, h) = get-IsSound id g.connections conn v.sound found in
        rw (found, enqueue)
          (enqueue_on-IsConsistent sockets g msg conn v (ground arith) (ground arith))
  ]
