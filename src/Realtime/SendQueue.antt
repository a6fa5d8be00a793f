-- ===== src/Realtime/SendQueue.antt =====
-- The queue of a WebSocket connection (src/realtime/send-queue.ts, with the messages of
-- src/realtime/protocol.ts). `positions` is a `Map` keyed by mmsi, and `others` has its oldest
-- message first.
pub mod Bounds
pub mod Delivery
pub mod Order
use ais_tracking_system.Prelude.{
  ℕ, ◌+◌, String, Bool, true, false, Option, List, [], ◌∷◌, ◌++◌, length, leb, if◌then◌else◌,
}
use ais_tracking_system.Prelude.StringMap
use ais_tracking_system.Prelude.StringMap.{StringMap}
use ais_tracking_system.Contracts.{PositionEvent, StaticEvent, VesselEnrichedEvent}
use ais_tracking_system.Contracts.Json.{Json}

pub record ErrorBody : Type 0 where
  pub code : String
  pub message : String
  pub details : Option Json

pub data ServerMessage : Type 0 where
  position : PositionEvent → ServerMessage
  static : StaticEvent → ServerMessage
  vessel_enriched : VesselEnrichedEvent → ServerMessage
  error : ErrorBody → ServerMessage

pub data EnqueueResult : Type 0 where
  -- superseded, evictedQueueOverflow
  accepted : Bool → Bool → EnqueueResult
  queue_overflow : EnqueueResult

pub record SendQueue : Type 0 where
  pub positions : StringMap ServerMessage
  pub others : List ServerMessage
  pub max_entries : ℕ

unfoldable pub new : ℕ → SendQueue
new max_entries = record { positions = []; others = []; max_entries = max_entries }

unfoldable pub size : SendQueue → ℕ
size q = length q.positions + length q.others

abbrev pub is_full : SendQueue → Bool
is_full q = leb q.max_entries (length q.positions + length q.others)

-- A position of a vessel that has none queued. The map's first key is its oldest.
unfoldable pub enqueue_new_position :
    SendQueue → PositionEvent → StringMap ServerMessage → SendQueue × EnqueueResult
enqueue_new_position q event [] = if is_full q then (q, queue_overflow) else (
  record q { positions = StringMap.put event.mmsi (position event) q.positions },
  accepted false false,
)
enqueue_new_position q event ((oldest_key, _) ∷ _) =
    if is_full q
    then (
      record q {
        positions =
            StringMap.put event.mmsi (position event) (StringMap.delete oldest_key q.positions);
      },
      accepted false true,
    )
    else (
      record q { positions = StringMap.put event.mmsi (position event) q.positions },
      accepted false false,
    )

unfoldable pub enqueue_other : SendQueue → ServerMessage → SendQueue × EnqueueResult
enqueue_other q msg =
    if is_full q
    then (q, queue_overflow)
    else (record q { others = q.others ++ msg ∷ [] }, accepted false false)

unfoldable pub enqueue : SendQueue → ServerMessage → SendQueue × EnqueueResult
unfolding enqueue_new_position enqueue_other
enqueue q (position event) =
    if StringMap.has event.mmsi q.positions
    then (
      record q { positions = StringMap.put event.mmsi (position event) q.positions },
      accepted true false,
    )
    else enqueue_new_position q event q.positions
enqueue q (static event) = enqueue_other q (static event)
enqueue q (vessel_enriched event) = enqueue_other q (vessel_enriched event)
enqueue q (error body) = enqueue_other q (error body)

-- The `while` loop of `drain`: `shift` from the one list, `push` on the other.
unfoldable pub shift_all : List ServerMessage → List ServerMessage → List ServerMessage
shift_all out [] = out
shift_all out (m ∷ others) = shift_all (out ++ m ∷ []) others

-- The `for` loop of `drain`, over the map's values.
unfoldable pub push_values : List ServerMessage → StringMap ServerMessage → List ServerMessage
push_values out [] = out
push_values out ((_, m) ∷ positions) = push_values (out ++ m ∷ []) positions

unfoldable pub drain : SendQueue → SendQueue × List ServerMessage
unfolding shift_all push_values
drain q =
    (record q { positions = []; others = [] }, push_values (shift_all [] q.others) q.positions)
