-- ===== src/Realtime/Fanout.antt =====
-- The consumer that hands stream events to the subscribed connections
-- (src/realtime/fanout.consumer.ts). What zod makes of a payload is a parameter.
pub mod Delivery
use ais_tracking_system.Prelude.{Option, some, none, List, [], ◌∷◌, String}
use ais_tracking_system.Prelude.StringMap.{StringMap}
use ais_tracking_system.Contracts.{CanonicalEvent, VesselEnrichedEvent}
use ais_tracking_system.Contracts
use ais_tracking_system.Contracts.Json.{Json}
use ais_tracking_system.Realtime.SendQueue.{ServerMessage, position, static, vessel_enriched}
use ais_tracking_system.Realtime.Gateway.{Gateway, Config, Sockets, enqueue}

-- `safeParse` of CanonicalEventSchema and of VesselEnrichedEventSchema.
pub record Schemas : Type 0 where
  pub canonical_event : Json → Option CanonicalEvent
  pub vessel_enriched_event : Json → Option VesselEnrichedEvent

abbrev pub message_of : CanonicalEvent → ServerMessage
message_of (Contracts.CanonicalEvent.position event) = position event
message_of (Contracts.CanonicalEvent.static event) = static event

module _ (config : Config) (sockets : Sockets) where
  -- `forEachSubscribed`: a visit may only remove the entry that the iterator is at, so the loop runs
  -- over the subscriptions there are at its start.
  unfoldable pub fan_out : Gateway → ServerMessage → StringMap (Unit {0}) → Gateway
  fan_out g msg [] = g
  fan_out g msg ((id, _) ∷ ids) = fan_out (enqueue config sockets g id msg) msg ids

  module _ (schemas : Schemas) where
    unfoldable pub on_canonical_event : Gateway → Json → Gateway
    on_canonical_event g payload = elim (schemas.canonical_event payload) [
      | none ↦ g
      | some event ↦ fan_out g (message_of event) g.subscriptions
    ]

    unfoldable pub on_enriched_event : Gateway → Json → Gateway
    on_enriched_event g payload = elim (schemas.vessel_enriched_event payload) [
      | none ↦ g
      | some event ↦ fan_out g (vessel_enriched event) g.subscriptions
    ]
