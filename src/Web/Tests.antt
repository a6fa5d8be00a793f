-- ===== src/Web/Tests.antt =====
-- Runs of the client at concrete inputs.
use ais_tracking_system.Prelude.{◌≡◌, refl, String, Option, some, List, [], ◌∷◌, str_discrete}
use Prim.Native.String.{len}
use ais_tracking_system.Prelude.Int.{ℤ, pos}
use ais_tracking_system.Prelude.StringMap
use ais_tracking_system.Prelude.StringMap.{StringMap}
use ais_tracking_system.Contracts.{PositionEvent}
use ais_tracking_system.Contracts.Samples.{seen}
use ais_tracking_system.Web.Client.{WsClient, start_client, connect_client, new_client, signal}
use ais_tracking_system.Web.Client.Live.{
  SocketEvent, lost, react, begin, next, IsAlive, reached-IsAlive,
}
use ais_tracking_system.Web.MergeReducer.{Vessel, empty_vessel, truthy}
use ais_tracking_system.Web.MergeReducer.Apply.{prune_stale_vessels}
use ais_tracking_system.Web.MergeReducer.Stamps.{stamp}
use ais_tracking_system.Web.MergeReducer.Latest.{apply_positions, Shows, apply_positions-Shows}
use ais_tracking_system.Web.MergeReducer.Prune.{if_fresh, get-prune_stale_vessels}
use ais_tracking_system.Web.Vessels.{Action, position, prune_stale, initial_state, act, act_all}
use ais_tracking_system.Web.Vessels.Actions.{Continues, act-act_all-Continues}

-- A timestamp of so many strokes.
abbrev strokes : String → Option ℤ
strokes s = some (pos (len s))

-- An event that arrives late, after a later one.
abbrev arrivals : List PositionEvent
arrivals = seen "a" "i" ∷ seen "b" "ii" ∷ seen "a" "iii" ∷ []

apply_positions-Shows_example :
    Shows strokes "a" arrivals (StringMap.get "a" (apply_positions strokes arrivals))
unfolding stamp truthy str_discrete
apply_positions-Shows_example =
    apply_positions-Shows strokes "a" arrivals (refl, (refl, (refl, tt)))

abbrev table : StringMap Vessel
table =
    ("a", record (empty_vessel "a") { last_seen_at = some "i" })
    ∷ ("b", record (empty_vessel "b") { last_seen_at = some "iiii" })
    ∷ []

get-prune_stale_vessels_example :
    StringMap.get "b" (prune_stale_vessels strokes table (pos 5) 2)
    ≡ if_fresh strokes (pos 5) 2 (StringMap.get "b" table)
unfolding StringMap.has str_discrete
get-prune_stale_vessels_example =
    get-prune_stale_vessels strokes (pos 5) 2 table "b" (refl, (refl, tt))

abbrev actions : List Action
actions = position (seen "a" "i") ∷ position (seen "a" "iii") ∷ []

act-act_all-Continues_example :
    Continues strokes
      (prune_stale (pos 100000000))
      (StringMap.get "a" (act_all strokes initial_state actions).vessels)
      (StringMap.get "a" (act_all strokes initial_state actions).vessels)
      (StringMap.get "a"
        (act strokes (act_all strokes initial_state actions) (prune_stale (pos 100000000))).vessels)
act-act_all-Continues_example =
    act-act_all-Continues strokes actions (prune_stale (pos 100000000)) "a" tt

abbrev begun : WsClient String
begun = start_client new_client

abbrev failed : SocketEvent String
failed = lost 7

reached-IsAlive_example : IsAlive (react 5000 (λ n. n) failed begun)
unfolding start_client connect_client new_client signal
reached-IsAlive_example =
    reached-IsAlive 5000 (λ n. n) (react 5000 (λ n. n) failed begun) (next begun failed begin refl)
