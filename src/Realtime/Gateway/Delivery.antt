-- ===== src/Realtime/Gateway/Delivery.antt =====
-- What a message for one connection does, and what a heartbeat does to each connection.
use mathlib.Core.List.{append_assoc}
use ais_tracking_system.Prelude.{
  ◌+◌, ◌≤◌, ◌<◌, ◌≡◌, String, Bool, true, false, some, none, List, [], ◌∷◌, ◌++◌, arith, ◌⊎◌,
  if◌then◌else◌,
}
use ais_tracking_system.Prelude.StringMap
use ais_tracking_system.Prelude.StringMap.{
  StringMap, IsDistinct, values, get-put, get-delete, has-put, has-delete, get-has,
}
use ais_tracking_system.Realtime.SendQueue
use ais_tracking_system.Realtime.SendQueue.{
  error, ErrorBody, SendQueue, ServerMessage, EnqueueResult, accepted, queue_overflow,
}
use ais_tracking_system.Realtime.SendQueue.Delivery.{drain_lem}
use ais_tracking_system.Realtime.Gateway.{
  Action, send, close, count_sent, count_dropped, error_kind, overflow, Gateway, Config, Sockets,
  Connection, send_all, flush, disconnect_slow, count_outcome, after_enqueue, enqueue_on, enqueue,
}

abbrev pub too_slow : ErrorBody
too_slow = record {
  code = "QUEUE_OVERFLOW";
  message = "send queue overflowed; client too slow";
  details = none;
}

-- What a connection that is closed as too slow is sent.
abbrev pub farewell : Sockets → String → List Action
farewell sockets id =
    if sockets.is_open id
    then send id (error too_slow) ∷ count_sent error_kind ∷ close id 1013 "queue overflow" ∷ []
    else close id 1013 "queue overflow" ∷ []

module _ (config : Config) (sockets : Sockets) where
  flush_sends :
      (g : Gateway) (conn : Connection)
      → sockets.is_open conn.id ≡ true
      → sockets.buffered_amount conn.id < config.buffered_amount_limit_bytes
      → (StringMap.get conn.id (flush config sockets g conn).connections
          ≡ some (record conn { queue = record conn.queue { positions = []; others = [] } }))
        × ((flush config sockets g conn).log
            ≡ g.log ++ send_all conn.id (conn.queue.others ++ values conn.queue.positions))
  unfolding flush
  flush_sends g conn up free = ground (
    arith,
    drain_lem conn.queue,
    get-put conn.id conn.id (record conn { queue = (SendQueue.drain conn.queue).0 }) g.connections,
  )

  flush_waits :
      (g : Gateway) (conn : Connection)
      → (sockets.is_open conn.id ≡ false)
        ⊎ (config.buffered_amount_limit_bytes ≤ sockets.buffered_amount conn.id)
      → flush config sockets g conn ≡ g
  unfolding flush
  flush_waits g conn h = ground arith

  disconnect_slow_lem :
      (g : Gateway) (id : String)
      → StringMap.has id g.connections ≡ true
      → let g' = disconnect_slow config sockets g id in
        (StringMap.has id g'.connections ≡ false)
        × (StringMap.has id g'.subscriptions ≡ false)
        × (g'.active_decs ≡ g.active_decs + 1)
        × (g'.log ≡ g.log ++ count_dropped overflow ∷ farewell sockets id)
  unfolding disconnect_slow
  disconnect_slow_lem g id h = ground (
    arith,
    has-delete id id g.connections,
    has-delete id id g.subscriptions,
    append_assoc g.log (count_dropped overflow ∷ []) (send id (error too_slow) ∷ []),
    append_assoc g.log (count_dropped overflow ∷ []) (close id 1013 "queue overflow" ∷ []),
    append_assoc g.log (count_dropped overflow ∷ send id (error too_slow) ∷ [])
        (count_sent error_kind ∷ []),
    append_assoc g.log
        (count_dropped overflow ∷ send id (error too_slow) ∷ count_sent error_kind ∷ [])
        (close id 1013 "queue overflow" ∷ []),
  )

  module _ (g : Gateway) (id : String) (msg : ServerMessage) (conn : Connection)
      (found : StringMap.get id g.connections ≡ some conn) (named : conn.id ≡ id) where
    -- A message that the queue of an open, unclogged connection takes goes out at once, with all that
    -- the queue then holds: the messages that are no positions, then the positions.
    pub enqueue_sends :
        (s e : Bool)
        → (SendQueue.enqueue conn.queue msg).1 ≡ accepted s e
        → sockets.is_open id ≡ true
        → sockets.buffered_amount id < config.buffered_amount_limit_bytes
        → let q = (SendQueue.enqueue conn.queue msg).0 in
          let g' = enqueue config sockets g id msg in
          (StringMap.get id g'.connections
            ≡ some (record conn { queue = record q { positions = []; others = [] } }))
          × (g'.log
              ≡ (count_outcome config sockets s e g).log
                ++ send_all id (q.others ++ values q.positions))
    unfolding enqueue enqueue_on after_enqueue
    enqueue_sends s e taken up free =
        let conn' : Connection = record conn { queue = (SendQueue.enqueue conn.queue msg).0 } in
        let g₁ : Gateway = record g { connections = StringMap.put conn.id conn' g.connections } in
        let sent = flush_sends (count_outcome config sockets s e g₁) conn' in ground (arith, sent)

    -- A message that the queue takes, while the connection is not open or has too much to send yet,
    -- waits in the queue.
    pub enqueue_waits :
        (s e : Bool)
        → (SendQueue.enqueue conn.queue msg).1 ≡ accepted s e
        → (sockets.is_open id ≡ false)
          ⊎ (config.buffered_amount_limit_bytes ≤ sockets.buffered_amount id)
        → let q = (SendQueue.enqueue conn.queue msg).0 in
          let g' = enqueue config sockets g id msg in
          (StringMap.get id g'.connections ≡ some (record conn { queue = q }))
          × (g'.log ≡ (count_outcome config sockets s e g).log)
    unfolding enqueue enqueue_on after_enqueue
    enqueue_waits s e taken busy =
        let conn' : Connection = record conn { queue = (SendQueue.enqueue conn.queue msg).0 } in
        let g₁ : Gateway = record g { connections = StringMap.put conn.id conn' g.connections } in
        ground (
          arith,
          flush_waits (count_outcome config sockets s e g₁) conn',
          get-put conn.id conn.id conn' g.connections,
        )

    -- A refused message closes the connection as too slow, and forgets it and its subscription.
    pub enqueue_disconnects :
        (SendQueue.enqueue conn.queue msg).1 ≡ queue_overflow
        → let g' = enqueue config sockets g id msg in
          (StringMap.has id g'.connections ≡ false)
          × (StringMap.has id g'.subscriptions ≡ false)
          × (g'.active_decs ≡ g.active_decs + 1)
          × (g'.log ≡ g.log ++ count_dropped overflow ∷ farewell sockets id)
    unfolding enqueue enqueue_on after_enqueue
    enqueue_disconnects full =
        let conn' : Connection = record conn { queue = (SendQueue.enqueue conn.queue msg).0 } in
        let g₁ : Gateway = record g { connections = StringMap.put conn.id conn' g.connections } in
        ground (arith, disconnect_slow_lem g₁ conn.id, has-put conn.id conn.id conn' g.connections)
