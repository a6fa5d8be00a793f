-- ===== src/Realtime/Fanout/Delivery.antt =====
-- Every subscriber gets every event, whatever becomes of the others.
use ais_tracking_system.Prelude.{
  ◌≡◌, refl, String, false, ◌&&◌, Option, some, none, [], ◌∷◌, arith, str_discrete, Option-cases,
  inl, inr, ltb, if◌then◌else◌,
}
use ais_tracking_system.Prelude.StringMap
use ais_tracking_system.Prelude.StringMap.{StringMap, IsDistinct}
use ais_tracking_system.Contracts.{CanonicalEvent}
use ais_tracking_system.Contracts.Json.{Json}
use ais_tracking_system.Realtime.SendQueue
use ais_tracking_system.Realtime.SendQueue.{
  ServerMessage, EnqueueResult, accepted, queue_overflow, SendQueue,
}
use ais_tracking_system.Realtime.Gateway.{Gateway, Config, Sockets, Connection, enqueue}
use ais_tracking_system.Realtime.Gateway.Consistency.{
  IsConsistent, get-IsSound, enqueue-IsConsistent,
}
use ais_tracking_system.Realtime.Gateway.Isolation.{enqueue-AgreeOn}
use ais_tracking_system.Realtime.Gateway.Delivery.{
  enqueue_sends, enqueue_waits, enqueue_disconnects,
}
use ais_tracking_system.Realtime.Fanout.{Schemas, message_of, fan_out, on_canonical_event}

-- What a message makes of one connection, by itself: nothing is left of it if its queue refuses the
-- message; else the queue holds the message, or is empty if the connection can send.
abbrev pub settled : Config → Sockets → Connection → SendQueue → EnqueueResult → Option Connection
settled config sockets conn queue queue_overflow = none
settled config sockets conn queue (accepted superseded evicted) =
    if sockets.is_open conn.id
      && ltb (sockets.buffered_amount conn.id) config.buffered_amount_limit_bytes
    then some (record conn { queue = record queue { positions = []; others = [] } })
    else some (record conn { queue = queue })

abbrev pub delivered : Config → Sockets → ServerMessage → Option Connection → Option Connection
delivered config sockets msg none = none
delivered config sockets msg (some conn) =
    settled config sockets conn (SendQueue.enqueue conn.queue msg).0
      (SendQueue.enqueue conn.queue msg).1

module _ (config : Config) (sockets : Sockets) (msg : ServerMessage) where
  enqueue-settled :
      (g : Gateway) (id : String) (conn : Connection) (result : EnqueueResult)
      → StringMap.get id g.connections ≡ some conn
      → conn.id ≡ id
      → (SendQueue.enqueue conn.queue msg).1 ≡ result
      → StringMap.get id (enqueue config sockets g id msg).connections
        ≡ settled config sockets conn (SendQueue.enqueue conn.queue msg).0 result
  enqueue-settled g id conn queue_overflow found named e =
      StringMap.get-has id (enqueue config sockets g id msg).connections
        (enqueue_disconnects config sockets g id msg conn found named e).0
  enqueue-settled g id conn (accepted s₁ s₂) found named e = ground (
    arith,
    enqueue_sends config sockets g id msg conn found named s₁ s₂ e,
    enqueue_waits config sockets g id msg conn found named s₁ s₂ e,
  )

  enqueue-delivered :
      (g : Gateway) (id : String)
      → IsConsistent config g
      → StringMap.get id (enqueue config sockets g id msg).connections
        ≡ delivered config sockets msg (StringMap.get id g.connections)
  enqueue-delivered g id v = elim (Option-cases (StringMap.get id g.connections)) [
    | inl missing ↦ unfold enqueue in rw (missing, enqueue) missing
    | inr (conn, found) ↦ rw found (
        enqueue-settled g id conn (SendQueue.enqueue conn.queue msg).1 found
          (get-IsSound config id g.connections conn v.sound found).0.0 refl)
  ]

  fan_out_other :
      (g : Gateway) (ids : StringMap (Unit {0})) (j : String)
      → IsConsistent config g
      → StringMap.has j ids ≡ false
      → StringMap.get j (fan_out config sockets g msg ids).connections
        ≡ StringMap.get j g.connections
  unfolding fan_out StringMap.has
  fan_out_other g [] j v absent = refl
  fan_out_other g ((id, _) ∷ ids) j v absent = ground (
    arith,
    enqueue-AgreeOn config sockets g id j msg v,
    fan_out_other (enqueue config sockets g id msg) ids j
        (enqueue-IsConsistent config sockets g id msg v),
  )

  fan_out_each :
      (g : Gateway) (ids : StringMap (Unit {0})) (j : String)
      → IsConsistent config g
      → IsDistinct ids
      → StringMap.get j (fan_out config sockets g msg ids).connections ≡ (
          if StringMap.has j ids
          then delivered config sockets msg (StringMap.get j g.connections)
          else StringMap.get j g.connections)
  unfolding fan_out StringMap.has
  fan_out_each g [] j v d = refl
  fan_out_each g ((id, _) ∷ ids) j v d = elim (str_discrete id j) [
    | yes same ↦ ground (
      arith,
      enqueue-delivered g id v,
      fan_out_other (enqueue config sockets g id msg) ids j
          (enqueue-IsConsistent config sockets g id msg v),
    )
    | no other ↦ ground (
      arith,
      enqueue-AgreeOn config sockets g id j msg v other,
      fan_out_each (enqueue config sockets g id msg) ids j
          (enqueue-IsConsistent config sockets g id msg v) d.1,
    )
  ]

-- A valid canonical event does to each subscribed connection what its message does to it alone,
-- whatever becomes of the other connections, and nothing to a connection that is not subscribed.
pub on_canonical_event_lem :
    (config : Config) (sockets : Sockets) (schemas : Schemas) (g : Gateway) (payload : Json)
    (event : CanonicalEvent) (j : String)
    → IsConsistent config g
    → IsDistinct g.subscriptions
    → schemas.canonical_event payload ≡ some event
    → StringMap.get j (on_canonical_event config sockets schemas g payload).connections ≡ (
        if StringMap.has j g.subscriptions
        then delivered config sockets (message_of event) (StringMap.get j g.connections)
        else StringMap.get j g.connections)
unfolding on_canonical_event
on_canonical_event_lem config sockets schemas g payload event j v d e =
    rw (e, on_canonical_event)
      (fan_out_each config sockets (message_of event) g g.subscriptions j v d)
