-- ===== src/Realtime/SendQueue/Delivery.antt =====
-- What the queue promises of the messages it takes: when it refuses one, what it evicts, and what a
-- drain returns.
use mathlib.Core.List.{append_assoc, append-nil}
use ais_tracking_system.Prelude.{
  ◌+◌, ◌≤◌, ◌≡◌, refl, sym, ◌∙◌, ◌↔◌, String, true, false, List, [], ◌∷◌, ◌++◌, length, arith,
}
use ais_tracking_system.Prelude.StringMap
use ais_tracking_system.Prelude.StringMap.{
  StringMap, IsDistinct, values, delete_first, has-tail, put_absent, get-put, get-delete,
}
use ais_tracking_system.Contracts.{PositionEvent}
use ais_tracking_system.Realtime.SendQueue.{
  SendQueue, ServerMessage, position, static, vessel_enriched, error, accepted, queue_overflow,
  enqueue, enqueue_new_position, enqueue_other, shift_all, push_values, drain,
}

-- Nothing that is queued can make room for the message.
abbrev pub IsStuck : SendQueue → ServerMessage → Type 0
IsStuck q (position event) = q.positions ≡ []
IsStuck q (static event) = Unit {0}
IsStuck q (vessel_enriched event) = Unit {0}
IsStuck q (error body) = Unit {0}

enqueue_new_position_refused_iff :
    (q : SendQueue) (event : PositionEvent) (m : StringMap ServerMessage)
    → q.positions ≡ m
    → ((enqueue_new_position q event m).1 ≡ queue_overflow)
      ↔ ((q.max_entries ≤ length q.positions + length q.others) × (q.positions ≡ []))
unfolding enqueue_new_position
enqueue_new_position_refused_iff q event [] e = ground arith
enqueue_new_position_refused_iff q event (_ ∷ _) e = ground arith

-- A message is refused exactly when the queue is full and nothing can make room for it: it is no
-- position, or no position is queued.
pub enqueue_refused_iff :
    (q : SendQueue) (msg : ServerMessage)
    → ((enqueue q msg).1 ≡ queue_overflow)
      ↔ ((q.max_entries ≤ length q.positions + length q.others) × IsStuck q msg)
unfolding enqueue enqueue_other StringMap.has
enqueue_refused_iff q (position event) =
    ground (arith, enqueue_new_position_refused_iff q event q.positions refl)
enqueue_refused_iff q (static event) = ground arith
enqueue_refused_iff q (vessel_enriched event) = ground arith
enqueue_refused_iff q (error body) = ground arith

enqueue_new_position_refused :
    (q : SendQueue) (event : PositionEvent) (m : StringMap ServerMessage)
    → (enqueue_new_position q event m).1 ≡ queue_overflow
    → (enqueue_new_position q event m).0 ≡ q
unfolding enqueue_new_position
enqueue_new_position_refused q event [] e = ground arith
enqueue_new_position_refused q event (_ ∷ _) e = ground arith

-- A refused message leaves the queue as it was.
pub enqueue_refused :
    (q : SendQueue) (msg : ServerMessage)
    → (enqueue q msg).1 ≡ queue_overflow
    → (enqueue q msg).0 ≡ q
unfolding enqueue enqueue_other
enqueue_refused q (position event) h =
    ground (arith, enqueue_new_position_refused q event q.positions)
enqueue_refused q (static event) h = ground arith
enqueue_refused q (vessel_enriched event) h = ground arith
enqueue_refused q (error body) h = ground arith

evicts_first :
    (q : SendQueue) (event : PositionEvent) (k : String) (w : ServerMessage)
    (m : StringMap ServerMessage)
    → IsDistinct q.positions
    → q.positions ≡ (k, w) ∷ m
    → StringMap.has event.mmsi q.positions ≡ false
    → q.max_entries ≤ length q.positions + length q.others
    → enqueue_new_position q event ((k, w) ∷ m)
      ≡ (record q { positions = m ++ (event.mmsi, position event) ∷ [] }, accepted false true)
unfolding enqueue_new_position
evicts_first q event k w m d e absent full =
    ground (
      arith,
      delete_first k w m,
      has-tail k event.mmsi w m,
      put_absent event.mmsi (position event) m,
    )

-- In a full queue the position of a vessel that has none queued replaces the oldest position, goes
-- to the end, and leaves the other messages alone.
pub enqueue_evicts_oldest :
    (q : SendQueue) (event : PositionEvent) (k : String) (w : ServerMessage)
    (m : StringMap ServerMessage)
    → IsDistinct q.positions
    → q.positions ≡ (k, w) ∷ m
    → StringMap.has event.mmsi q.positions ≡ false
    → q.max_entries ≤ length q.positions + length q.others
    → enqueue q (position event)
      ≡ (record q { positions = m ++ (event.mmsi, position event) ∷ [] }, accepted false true)
unfolding enqueue
enqueue_evicts_oldest q event k w m d e absent full = ground (arith, evicts_first q event k w m d e)

shift_all-append : (out others : List ServerMessage) → shift_all out others ≡ out ++ others
unfolding shift_all
shift_all-append out [] = sym (append-nil out)
shift_all-append out (m ∷ others) =
    shift_all-append (out ++ m ∷ []) others ∙ append_assoc out (m ∷ []) others

push_values-append :
    (out : List ServerMessage) (m : StringMap ServerMessage) → push_values out m ≡ out ++ values m
unfolding push_values
push_values-append out [] = sym (append-nil out)
push_values-append out ((k, w) ∷ m) =
    push_values-append (out ++ w ∷ []) m ∙ append_assoc out (w ∷ []) (values m)

-- A drain empties the queue, and returns the other messages first and then the positions.
pub drain_lem :
    (q : SendQueue)
    → drain q ≡ (record q { positions = []; others = [] }, q.others ++ values q.positions)
unfolding drain
drain_lem q = rw (shift_all-append [] q.others, push_values-append q.others q.positions)
