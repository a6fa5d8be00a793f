-- ===== src/Realtime/SendQueue/Order.antt =====
-- What a drain returns after any number of messages.
use mathlib.Core.List.{append_assoc, append-nil}
use ais_tracking_system.Prelude.{
  ℕ, ◌≡◌, refl, sym, ◌⊎◌, inl, inr, String, Bool, true, false, ◌&&◌, Option, some, none, List, [],
  ◌∷◌, ◌++◌, keep, arith, ite, str_discrete, Bool-cases, if◌then◌else◌,
}
use ais_tracking_system.Prelude.StringMap
use ais_tracking_system.Prelude.StringMap.{StringMap, values, get-put, get-delete, get-has}
use ais_tracking_system.Contracts.{PositionEvent}
use ais_tracking_system.Realtime.SendQueue.{
  SendQueue, ServerMessage, EnqueueResult, position, static, vessel_enriched, error, accepted,
  queue_overflow, new, enqueue, enqueue_new_position, enqueue_other, drain,
}
use ais_tracking_system.Realtime.SendQueue.Delivery.{drain_lem}

-- The messages are enqueued one after the other.
unfoldable pub enqueue_all : SendQueue → List ServerMessage → SendQueue
enqueue_all q [] = q
enqueue_all q (msg ∷ msgs) = enqueue_all (enqueue q msg).0 msgs

abbrev pub was_accepted : EnqueueResult → Bool
was_accepted (accepted superseded evicted) = true
was_accepted queue_overflow = false

-- Those of them that the queue takes.
unfoldable pub taken : SendQueue → List ServerMessage → List ServerMessage
taken q [] = []
taken q (msg ∷ msgs) =
    if was_accepted (enqueue q msg).1
    then msg ∷ taken (enqueue q msg).0 msgs
    else taken (enqueue q msg).0 msgs

abbrev pub is_other : ServerMessage → Bool
is_other (position event) = false
is_other (static event) = true
is_other (vessel_enriched event) = true
is_other (error body) = true

enqueue_new_position-others :
    (q : SendQueue) (event : PositionEvent) (m : StringMap ServerMessage)
    → (enqueue_new_position q event m).0.others ≡ q.others
unfolding enqueue_new_position
enqueue_new_position-others q event [] = ground arith
enqueue_new_position-others q event (_ ∷ _) = ground arith

enqueue-others :
    (q : SendQueue) (msg : ServerMessage)
    → (enqueue q msg).0.others
      ≡ (if was_accepted (enqueue q msg).1 && is_other msg then q.others ++ msg ∷ [] else q.others)
unfolding enqueue enqueue_other
enqueue-others q (position event) = ground (arith, enqueue_new_position-others q event q.positions)
enqueue-others q _ = ground arith

enqueue_all-others :
    (q : SendQueue) (msgs : List ServerMessage)
    → (enqueue_all q msgs).others ≡ q.others ++ keep is_other (taken q msgs)
unfolding enqueue_all taken
enqueue_all-others q [] = sym (append-nil q.others)
enqueue_all-others q (msg ∷ msgs) = ground (
  arith,
  enqueue_all-others (enqueue q msg).0 msgs,
  enqueue-others q msg,
  append_assoc q.others (msg ∷ []) (keep is_other (taken (enqueue q msg).0 msgs)),
)

-- However many messages are enqueued, the next drain returns the others that wait, then those of
-- the messages that were taken and are no positions, each once and in order, and then the positions
-- that are left: none of them is dropped or overtaken.
pub drain-enqueue_all :
    (q : SendQueue) (msgs : List ServerMessage)
    → (drain (enqueue_all q msgs)).1
      ≡ (q.others ++ keep is_other (taken q msgs)) ++ values (enqueue_all q msgs).positions
drain-enqueue_all q msgs = ground (arith, drain_lem (enqueue_all q msgs), enqueue_all-others q msgs)

-- The latest position of vessel `k` among the messages, or else the one from before.
abbrev pub newer : String → Option ServerMessage → ServerMessage → Option ServerMessage
newer k before (position event) = ite (str_discrete event.mmsi k) (some (position event)) before
newer k before (static event) = before
newer k before (vessel_enriched event) = before
newer k before (error body) = before

abbrev pub latest : String → Option ServerMessage → List ServerMessage → Option ServerMessage
latest k before [] = before
latest k before (msg ∷ msgs) = latest k (newer k before msg) msgs

-- What is queued for vessel `k`, if anything is, is that message.
abbrev IsFresh : String → Option ServerMessage → SendQueue → Type 0
IsFresh k before q = (StringMap.get k q.positions ≡ none) ⊎ (StringMap.get k q.positions ≡ before)

enqueue_new_position-IsFresh :
    (k : String) (before : Option ServerMessage) (q : SendQueue) (event : PositionEvent)
    (m : StringMap ServerMessage)
    → q.positions ≡ m
    → StringMap.has event.mmsi q.positions ≡ false
    → IsFresh k before q
    → IsFresh k (newer k before (position event)) (enqueue_new_position q event m).0
unfolding enqueue_new_position
enqueue_new_position-IsFresh k before q event [] e absent f = ground (
  arith,
  get-has event.mmsi q.positions absent,
  get-put event.mmsi k (position event) q.positions,
)
enqueue_new_position-IsFresh k before q event ((j, w) ∷ m) e absent f = ground (
  arith,
  get-has event.mmsi q.positions absent,
  get-put event.mmsi k (position event) q.positions,
  get-put event.mmsi k (position event) (StringMap.delete j q.positions),
  get-delete j k q.positions,
)

enqueue-IsFresh :
    (k : String) (before : Option ServerMessage) (q : SendQueue) (msg : ServerMessage)
    → IsFresh k before q
    → IsFresh k (newer k before msg) (enqueue q msg).0
unfolding enqueue enqueue_other
enqueue-IsFresh k before q (position event) f =
    elim (Bool-cases (StringMap.has event.mmsi q.positions)) [
      | inl old ↦ rw old (ground (arith, get-put event.mmsi k (position event) q.positions))
      | inr absent ↦
          rw absent (enqueue_new_position-IsFresh k before q event q.positions refl absent f)
    ]
enqueue-IsFresh k before q (static event) f = ground arith
enqueue-IsFresh k before q (vessel_enriched event) f = ground arith
enqueue-IsFresh k before q (error body) f = ground arith

enqueue_all-IsFresh :
    (k : String) (before : Option ServerMessage) (q : SendQueue) (msgs : List ServerMessage)
    → IsFresh k before q
    → IsFresh k (latest k before msgs) (enqueue_all q msgs)
unfolding enqueue_all
enqueue_all-IsFresh k before q [] f = f
enqueue_all-IsFresh k before q (msg ∷ msgs) f =
    enqueue_all-IsFresh k (newer k before msg) (enqueue q msg).0 msgs
      (enqueue-IsFresh k before q msg f)

-- The position that a queue, empty at first, holds for a vessel is the latest of those enqueued: an
-- older position of the same vessel never waits.
pub latest-enqueue_all :
    (max_entries : ℕ) (k : String) (msgs : List ServerMessage) (m : ServerMessage)
    → StringMap.get k (enqueue_all (new max_entries) msgs).positions ≡ some m
    → latest k none msgs ≡ some m
unfolding new StringMap.get
latest-enqueue_all max_entries k msgs m e =
    ground (arith, enqueue_all-IsFresh k none (new max_entries) msgs (inl refl))
