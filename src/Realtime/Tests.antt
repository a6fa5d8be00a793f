-- ===== src/Realtime/Tests.antt =====
-- Runs of the realtime side at concrete inputs.
use ais_tracking_system.Prelude.{
  ◌≤◌, ◌≡◌, refl, ◌↔◌, differ, true, false, Option, some, none, List, [], ◌∷◌, ◌++◌, arith,
  str_discrete, inr, keep,
}
use ais_tracking_system.Prelude.StringMap
use ais_tracking_system.Prelude.StringMap.{StringMap, values}
use ais_tracking_system.Contracts.{PositionEvent, StaticEvent, CanonicalEvent}
use ais_tracking_system.Contracts
use ais_tracking_system.Contracts.Samples.{seen, profile}
use ais_tracking_system.Contracts.Json.{Json, obj, field, str, end, null}
use ais_tracking_system.Realtime.SendQueue
use ais_tracking_system.Realtime.SendQueue.{
  SendQueue, ServerMessage, position, static, accepted, queue_overflow, enqueue, drain,
}
use ais_tracking_system.Realtime.SendQueue.Bounds.{IsWellFormed, enqueue-IsWellFormed}
use ais_tracking_system.Realtime.SendQueue.Delivery.{IsStuck, enqueue_refused_iff}
use ais_tracking_system.Realtime.SendQueue.Order.{
  enqueue_all, taken, is_other, latest, drain-enqueue_all, latest-enqueue_all,
}
use ais_tracking_system.Realtime.Gateway
use ais_tracking_system.Realtime.Gateway.{
  Gateway, Config, Sockets, Connection, start, count_outcome, send_all, cleanup, handle_connection,
}
use ais_tracking_system.Realtime.Gateway.Events.{
  Parsing, Event, connects, says, fans_out, heartbeat, run, step, tick_heartbeat, handle_message,
  is_subscribe,
}
use ais_tracking_system.Realtime.Gateway.Consistency.{IsConsistent}
use ais_tracking_system.Realtime.Gateway.Runs.{run-start-IsConsistent, AllFresh}
use ais_tracking_system.Realtime.Gateway.Delivery.{enqueue_waits}
use ais_tracking_system.Realtime.Gateway.Isolation.{AgreeOn, enqueue-AgreeOn, tick_heartbeat_lem}
use ais_tracking_system.Realtime.Gateway.Subscriptions.{IsLinked, run-start-IsLinked}
use ais_tracking_system.Realtime.Gateway.Leak.{IsLeaked, late_message_leaks}
use ais_tracking_system.Realtime.Fanout.{Schemas, on_canonical_event}
use ais_tracking_system.Realtime.Fanout.Delivery.{delivered, on_canonical_event_lem}

-- A full queue of two.
abbrev full : SendQueue
full = record {
  positions = ("111111111", position (seen "111111111" "t1")) ∷ [];
  others = static (profile "222222222") ∷ [];
  max_entries = 2;
}

full-IsWellFormed : IsWellFormed full
unfolding StringMap.has
full-IsWellFormed = record { bounded = omega arith; distinct = (refl, tt); filed = (refl, tt) }

abbrev newcomer : ServerMessage
newcomer = position (seen "333333333" "t2")

enqueue-IsWellFormed_example : IsWellFormed (enqueue full newcomer).0
enqueue-IsWellFormed_example = enqueue-IsWellFormed full newcomer full-IsWellFormed

enqueue_refused_iff_example :
    ((enqueue full (static (profile "1"))).1 ≡ queue_overflow)
    ↔ ((2 ≤ 2) × IsStuck full (static (profile "1")))
enqueue_refused_iff_example = enqueue_refused_iff full (static (profile "1"))

abbrev burst : List ServerMessage
burst =
    position (seen "111111111" "t1")
    ∷ static (profile "222222222")
    ∷ position (seen "111111111" "t2")
    ∷ []

drain-enqueue_all_example :
    (drain (enqueue_all full burst)).1
    ≡ (full.others ++ keep is_other (taken full burst)) ++ values (enqueue_all full burst).positions
drain-enqueue_all_example = drain-enqueue_all full burst

burst_queued :
    StringMap.get "111111111" (enqueue_all (SendQueue.new 4) burst).positions
    ≡ some (position (seen "111111111" "t2"))
unfolding enqueue_all SendQueue.new enqueue StringMap.get StringMap.put StringMap.has str_discrete
burst_queued = refl

latest-enqueue_all_example : latest "111111111" none burst ≡ some (position (seen "111111111" "t2"))
latest-enqueue_all_example =
    latest-enqueue_all 4 "111111111" burst (position (seen "111111111" "t2")) burst_queued

abbrev config : Config
config = record { send_queue_max = 1; buffered_amount_limit_bytes = 100 }

abbrev ready : Sockets
ready = record { is_open = λ id. true; buffered_amount = λ id. 0; ping_throws = λ id. false }

abbrev clogged : Sockets
clogged = record ready { buffered_amount = λ id. 100 }

abbrev subscribe_json : Json
subscribe_json = obj (field "type" (str "subscribe") end)

-- One text is JSON, for these runs.
abbrev parsing : Parsing
parsing = record {
  parse_json = λ raw. if_subscribe (str_discrete raw "sub");
  issue_message = λ parsed. none;
  issues = λ parsed. null;
}
  where
    if_subscribe : {P : Type 0} → Dec P → Option Json
    if_subscribe (yes p) = some subscribe_json
    if_subscribe (no p) = none

abbrev events : List (Sockets × Event)
events =
    (ready, connects "a")
    ∷ (ready, connects "b")
    ∷ (ready, says "a" "sub")
    ∷ (clogged, fans_out "a" (static (profile "222222222")))
    ∷ (clogged, fans_out "a" (static (profile "333333333")))
    ∷ (ready, heartbeat)
    ∷ []

events-AllFresh : AllFresh config parsing start events
unfolding start step handle_connection StringMap.has StringMap.put str_discrete
events-AllFresh = (refl, (refl, (tt, (tt, (tt, (tt, tt))))))

run-start-IsConsistent_example : IsConsistent config (run parsing config start events)
run-start-IsConsistent_example = run-start-IsConsistent config parsing events events-AllFresh

run-start-IsLinked_example : IsLinked "a" (run parsing config start events)
unfolding start step handle_connection StringMap.has StringMap.put str_discrete
run-start-IsLinked_example =
    run-start-IsLinked parsing config events "a" (tt, (tt, (refl, (tt, (tt, (tt, tt))))))

abbrev one : Connection
one = record {
  id = "a";
  queue = record { positions = []; others = []; max_entries = 1 };
  alive = true;
}

abbrev waiting : Connection
waiting = record one {
  queue = record { positions = []; others = static (profile "222222222") ∷ []; max_entries = 1 };
}

-- A gateway with one connection, subscribed.
abbrev with_one : Connection → Gateway
with_one conn = record {
  connections = ("a", conn) ∷ [];
  subscriptions = ("a", tt) ∷ [];
  active_incs = 1;
  active_decs = 0;
  subscriptions_accepted = 1;
  log = [];
}

one-IsConsistent : IsConsistent config (with_one one)
unfolding StringMap.has
one-IsConsistent = record {
  distinct = (refl, tt);
  sound = ((refl, record { bounded = omega arith; distinct = tt; filed = tt }, refl), tt);
  gauge = refl;
}

enqueue_waits_example : (Gateway.enqueue config clogged (with_one one) "a" newcomer).log ≡ []
unfolding StringMap.get StringMap.put StringMap.has str_discrete enqueue
enqueue_waits_example =
    (enqueue_waits config clogged (with_one one) "a" newcomer one refl refl false false refl
      (inr (omega arith))).1

enqueue-AgreeOn_example :
    AgreeOn "b" (with_one one) (Gateway.enqueue config ready (with_one one) "a" newcomer)
unfolding str_discrete
enqueue-AgreeOn_example =
    enqueue-AgreeOn config ready (with_one one) "a" "b" newcomer one-IsConsistent
      (differ "a" "b" (λ e. cc))

tick_heartbeat_lem_example :
    StringMap.get "a" (tick_heartbeat ready (with_one one)).connections
    ≡ some (record one { alive = false })
unfolding StringMap.get str_discrete
tick_heartbeat_lem_example =
    tick_heartbeat_lem config ready (with_one one) "a" one one-IsConsistent refl

start-IsConsistent : IsConsistent config start
unfolding start
start-IsConsistent = record { distinct = tt; sound = tt; gauge = refl }

late_message_leaks_example :
    IsLeaked "a" (run parsing config (handle_message parsing ready config start "a" "sub") [])
unfolding start is_subscribe StringMap.has str_discrete
late_message_leaks_example =
    late_message_leaks parsing config ready start "a" "sub" subscribe_json [] start-IsConsistent
      refl refl refl tt tt

abbrev schemas : Schemas
schemas = record {
  canonical_event = λ payload. some (Contracts.CanonicalEvent.position (seen "333333333" "t2"));
  vessel_enriched_event = λ payload. none;
}

on_canonical_event_lem_example :
    StringMap.get "a" (on_canonical_event config ready schemas (with_one one) null).connections
    ≡ delivered config ready newcomer (some one)
unfolding StringMap.get StringMap.has str_discrete
on_canonical_event_lem_example =
    on_canonical_event_lem config ready schemas (with_one one) null
      (Contracts.CanonicalEvent.position (seen "333333333" "t2")) "a" one-IsConsistent (refl, tt)
      refl
