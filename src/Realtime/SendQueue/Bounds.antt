-- ===== src/Realtime/SendQueue/Bounds.antt =====
-- The bound on a connection's queue, and when a message is refused.
use ais_tracking_system.Prelude.{
  refl, inl, inr, Bool-cases, ◌+◌, ◌≤◌, ◌≡◌, refl, String, false, [], ◌∷◌, length, length-append,
  All, arith, inl, inr, Bool-cases,
}
use ais_tracking_system.Prelude.StringMap
use ais_tracking_system.Prelude.StringMap.{
  StringMap, IsDistinct, put-IsDistinct, delete_first, has-tail, length-put_absent,
  length-put_present,
}
use ais_tracking_system.Contracts.{PositionEvent}
use ais_tracking_system.Realtime.SendQueue.{
  position, static, vessel_enriched, error, SendQueue, ServerMessage, position, static,
  vessel_enriched, error, enqueue, enqueue_new_position, enqueue_other,
}

-- An entry holds the position of the vessel that it is filed under.
abbrev pub IsFiled : String × ServerMessage → Type 0
IsFiled (k, position event) = k ≡ event.mmsi
IsFiled (k, static event) = ⊥
IsFiled (k, vessel_enriched event) = ⊥
IsFiled (k, error body) = ⊥

pub record IsWellFormed (q : SendQueue) : Type 0 where
  pub bounded : length q.positions + length q.others ≤ q.max_entries
  pub distinct : IsDistinct q.positions
  pub filed : All IsFiled q.positions

pub put-IsFiled :
    (event : PositionEvent) (m : StringMap ServerMessage)
    → All IsFiled m
    → All IsFiled (StringMap.put event.mmsi (position event) m)
unfolding StringMap.put
put-IsFiled event [] h = (refl, tt)
put-IsFiled event ((k, w) ∷ m) h = ground (arith, put-IsFiled event m h.1)

enqueue_new_position-IsWellFormed :
    (q : SendQueue) (event : PositionEvent) (m : StringMap ServerMessage)
    → q.positions ≡ m
    → StringMap.has event.mmsi m ≡ false
    → IsWellFormed q
    → IsWellFormed (enqueue_new_position q event m).0
unfolding enqueue_new_position
enqueue_new_position-IsWellFormed q event [] e absent v = ground (
  arith,
  length-put_absent event.mmsi (position event) q.positions,
  put-IsDistinct event.mmsi (position event) q.positions,
  put-IsFiled event q.positions,
)
enqueue_new_position-IsWellFormed q event ((k, w) ∷ m) e absent v = ground (
  arith,
  delete_first k w m,
  has-tail k event.mmsi w m,
  length-put_absent event.mmsi (position event) q.positions,
  length-put_absent event.mmsi (position event) m,
  put-IsDistinct event.mmsi (position event) q.positions,
  put-IsDistinct event.mmsi (position event) m,
  put-IsFiled event q.positions,
  put-IsFiled event m,
)

enqueue_other-IsWellFormed :
    (q : SendQueue) (msg : ServerMessage) → IsWellFormed q → IsWellFormed (enqueue_other q msg).0
unfolding enqueue_other
enqueue_other-IsWellFormed q msg v = ground (arith, length-append q.others (msg ∷ []))

enqueue_new_position-max_entries :
    (q : SendQueue) (event : PositionEvent) (m : StringMap ServerMessage)
    → (enqueue_new_position q event m).0.max_entries ≡ q.max_entries
unfolding enqueue_new_position
enqueue_new_position-max_entries q event [] = ground arith
enqueue_new_position-max_entries q event (_ ∷ _) = ground arith

pub enqueue-max_entries :
    (q : SendQueue) (msg : ServerMessage) → (enqueue q msg).0.max_entries ≡ q.max_entries
unfolding enqueue
enqueue-max_entries q (position event) =
    ground (arith, enqueue_new_position-max_entries q event q.positions)
enqueue-max_entries q _ = ground arith

-- A queue that is well-formed (within its bound, with one position a vessel at most, each filed
-- under its mmsi) is so after any message.
pub enqueue-IsWellFormed :
    (q : SendQueue) (msg : ServerMessage) → IsWellFormed q → IsWellFormed (enqueue q msg).0
unfolding enqueue
enqueue-IsWellFormed q (position event) v =
    elim (Bool-cases (StringMap.has event.mmsi q.positions)) [
      | inl old ↦ rw old (
          ground (
            arith,
            length-put_present event.mmsi (position event) q.positions,
            put-IsDistinct event.mmsi (position event) q.positions,
            put-IsFiled event q.positions,
          ))
      | inr absent ↦ rw absent (enqueue_new_position-IsWellFormed q event q.positions refl absent v)
    ]
enqueue-IsWellFormed q (static event) v = enqueue_other-IsWellFormed q (static event) v
enqueue-IsWellFormed q (vessel_enriched event) v =
    enqueue_other-IsWellFormed q (vessel_enriched event) v
enqueue-IsWellFormed q (error body) v = enqueue_other-IsWellFormed q (error body) v
