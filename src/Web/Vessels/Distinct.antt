-- ===== src/Web/Vessels/Distinct.antt =====
-- The keys of the store's table.
use ais_tracking_system.Prelude.{
  String, inl, inr, Bool, true, false, Option, List, [], ◌∷◌, arith, Bool-cases, if◌then◌else◌,
}
use ais_tracking_system.Prelude.Int.{ℤ}
use ais_tracking_system.Prelude.StringMap
use ais_tracking_system.Prelude.StringMap.{StringMap, IsDistinct, put-IsDistinct}
use ais_tracking_system.Web.MergeReducer.{Vessel, SnapshotRow, base_of}
use ais_tracking_system.Web.MergeReducer.Apply.{
  merge_row, apply_rows, apply_snapshot_rows, apply_detail_sanctions, apply_position, apply_static,
  apply_enriched, prune_from, prune_stale_vessels,
}
use ais_tracking_system.Web.Vessels.{
  VesselsState, Action, set_status, set_error, prune_stale, snapshot, position, static, enriched,
  detail_sanctions, act, act_all, snapshot_retention_ms,
}

module _ (parse : String → Option ℤ) where
  apply_rows-IsDistinct :
      (prev next : StringMap Vessel) (rows : List SnapshotRow)
      → IsDistinct next
      → IsDistinct (apply_rows parse prev next rows)
  unfolding apply_rows
  apply_rows-IsDistinct prev next [] d = d
  apply_rows-IsDistinct prev next (row ∷ rows) d =
      apply_rows-IsDistinct prev
        (StringMap.put row.mmsi (merge_row parse (base_of prev row.mmsi) row) next) rows
        (put-IsDistinct row.mmsi (merge_row parse (base_of prev row.mmsi) row) next d)

  pub apply_snapshot_rows-IsDistinct :
      (m : StringMap Vessel) (rows : List SnapshotRow)
      → IsDistinct m
      → IsDistinct (apply_snapshot_rows parse m rows)
  unfolding apply_snapshot_rows
  apply_snapshot_rows-IsDistinct m rows d = apply_rows-IsDistinct m m rows d

  prune_from-IsDistinct :
      (now : ℤ) (prev next : StringMap Vessel) (changed : Bool)
      → IsDistinct next
      → IsDistinct (prune_from parse now snapshot_retention_ms prev next changed).0
  unfolding prune_from
  prune_from-IsDistinct now [] next changed d = d
  prune_from-IsDistinct now ((mmsi, v) ∷ prev) next changed d = ground (
    arith,
    prune_from-IsDistinct now prev next true,
    prune_from-IsDistinct now prev (StringMap.put mmsi v next) changed,
    put-IsDistinct mmsi v next d,
  )

  prune_stale_vessels-IsDistinct :
      (now : ℤ) (m : StringMap Vessel)
      → IsDistinct m
      → IsDistinct (prune_stale_vessels parse m now snapshot_retention_ms)
  unfolding prune_stale_vessels
  prune_stale_vessels-IsDistinct now m d =
      elim (Bool-cases (prune_from parse now snapshot_retention_ms m [] false).1) [
        | inl changed ↦ rw changed (prune_from-IsDistinct now m [] false tt)
        | inr same ↦ rw same d
      ]

  either-IsDistinct :
      (b : Bool) (m n : StringMap Vessel)
      → IsDistinct m
      → IsDistinct n
      → IsDistinct (if b then m else n)
  either-IsDistinct true m n d e = d
  either-IsDistinct false m n d e = e

  pub act-IsDistinct :
      (s : VesselsState) (a : Action) → IsDistinct s.vessels → IsDistinct (act parse s a).vessels
  unfolding act apply_position apply_static apply_enriched apply_detail_sanctions
  act-IsDistinct s (set_status status) d = d
  act-IsDistinct s (set_error e) d = d
  act-IsDistinct s (prune_stale now) d = prune_stale_vessels-IsDistinct now s.vessels d
  act-IsDistinct s (snapshot rows now) d =
      prune_stale_vessels-IsDistinct now _ (apply_snapshot_rows-IsDistinct s.vessels rows d)
  act-IsDistinct s (position ev) d =
      either-IsDistinct _ s.vessels _ d (put-IsDistinct ev.mmsi _ s.vessels d)
  act-IsDistinct s (static ev) d =
      either-IsDistinct _ s.vessels _ d (put-IsDistinct ev.mmsi _ s.vessels d)
  act-IsDistinct s (enriched ev) d =
      either-IsDistinct _ s.vessels _ d (put-IsDistinct ev.mmsi _ s.vessels d)
  act-IsDistinct s (detail_sanctions row) d =
      either-IsDistinct _ s.vessels _ d (put-IsDistinct row.mmsi _ s.vessels d)

  pub act_all-IsDistinct :
      (s : VesselsState) (actions : List Action)
      → IsDistinct s.vessels
      → IsDistinct (act_all parse s actions).vessels
  unfolding act_all
  act_all-IsDistinct s [] d = d
  act_all-IsDistinct s (a ∷ actions) d =
      act_all-IsDistinct (act parse s a) actions (act-IsDistinct s a d)
