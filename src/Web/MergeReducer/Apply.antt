-- ===== src/Web/MergeReducer/Apply.antt =====
-- The functions that apply an event, a snapshot or a detail to the table, and the one that drops
-- vessels not heard of (web/src/store/mergeReducer.ts).
use ais_tracking_system.Prelude.{
  ℕ, String, Bool, true, false, Option, some, none, List, [], ◌∷◌, if◌then◌else◌, ◌&&◌, not,
}
use ais_tracking_system.Prelude.Int.{ℤ, pos, ◌-ℤ◌, ltb_ℤ}
use ais_tracking_system.Prelude.StringMap
use ais_tracking_system.Prelude.StringMap.{StringMap}
use ais_tracking_system.Contracts.{PositionEvent, StaticEvent, VesselEnrichedEvent}
use ais_tracking_system.Web.MergeReducer.{
  Vessel, SnapshotRow, DetailSanctions, truthy, prefer_non_null, vessel_activity_at, base_of,
  web_matches, date_lt, is_newer, max_timestamp,
}

module _ (parse : String → Option ℤ) where
  unfoldable pub merge_row : Vessel → SnapshotRow → Vessel
  merge_row base row =
      let newer = is_newer parse (some row.occurred_at) base.occurred_at in
      let checked = is_newer parse row.sanctions_checked_at base.sanctions_checked_at in
      record base {
        vessel_id = some row.id;
        last_seen_at = max_timestamp parse base.last_seen_at (some row.last_seen_at);
        lat = if newer then some row.lat else base.lat;
        lon = if newer then some row.lon else base.lon;
        sog = if newer then row.sog else base.sog;
        cog = if newer then row.cog else base.cog;
        true_heading = if newer then row.true_heading else base.true_heading;
        nav_status = if newer then row.nav_status else base.nav_status;
        occurred_at = if newer then some row.occurred_at else base.occurred_at;
        imo = prefer_non_null row.imo base.imo;
        name = prefer_non_null row.name base.name;
        call_sign = prefer_non_null row.call_sign base.call_sign;
        ship_type = prefer_non_null row.ship_type base.ship_type;
        sanctions_status = if checked then row.sanctions_status else base.sanctions_status;
        sanctions_checked_at =
            if checked then row.sanctions_checked_at else base.sanctions_checked_at;
      }

  -- The loop reads `prev` and writes `next`.
  unfoldable pub apply_rows :
      StringMap Vessel → StringMap Vessel → List SnapshotRow → StringMap Vessel
  unfolding merge_row
  apply_rows prev next [] = next
  apply_rows prev next (row ∷ rows) =
      apply_rows prev (StringMap.put row.mmsi (merge_row (base_of prev row.mmsi) row) next) rows

  unfoldable pub apply_snapshot_rows : StringMap Vessel → List SnapshotRow → StringMap Vessel
  unfolding apply_rows
  apply_snapshot_rows prev rows = apply_rows prev prev rows

  unfoldable pub apply_detail_sanctions : StringMap Vessel → DetailSanctions → StringMap Vessel
  apply_detail_sanctions prev row =
      let base = base_of prev row.mmsi in
      if not (is_newer parse row.sanctions_checked_at base.sanctions_checked_at)
      then prev
      else StringMap.put row.mmsi
          (record base {
            vessel_id = some row.id;
            sanctions_status = row.sanctions_status;
            sanctions_checked_at = row.sanctions_checked_at;
            sanctions_matches = some row.sanctions_matches;
          })
          prev

  unfoldable pub moved : Vessel → PositionEvent → Vessel
  moved base ev = record base {
    lat = some ev.lat;
    lon = some ev.lon;
    sog = ev.sog;
    cog = ev.cog;
    true_heading = ev.true_heading;
    nav_status = ev.nav_status;
    occurred_at = some ev.occurred_at;
    last_seen_at = max_timestamp parse base.last_seen_at (some ev.ingested_at);
    name = prefer_non_null ev.ship_name base.name;
  }

  unfoldable pub apply_position : StringMap Vessel → PositionEvent → StringMap Vessel
  unfolding moved
  apply_position prev ev =
      let base = base_of prev ev.mmsi in
      if not (is_newer parse (some ev.occurred_at) base.occurred_at)
      then prev
      else StringMap.put ev.mmsi (moved base ev) prev

  unfoldable pub profiled : Bool → Vessel → StaticEvent → Vessel
  profiled accept base ev = record base {
    imo = if accept then prefer_non_null ev.imo base.imo else base.imo;
    name = if accept then prefer_non_null ev.name base.name else base.name;
    call_sign = if accept then prefer_non_null ev.call_sign base.call_sign else base.call_sign;
    ship_type = if accept then prefer_non_null ev.ship_type base.ship_type else base.ship_type;
    destination =
        if accept then prefer_non_null ev.destination base.destination else base.destination;
    static_occurred_at = if accept then some ev.occurred_at else base.static_occurred_at;
  }

  unfoldable pub apply_static : StringMap Vessel → StaticEvent → StringMap Vessel
  unfolding profiled
  apply_static prev ev =
      let base = base_of prev ev.mmsi in
      let accept = is_newer parse (some ev.occurred_at) base.static_occurred_at in
      if StringMap.has ev.mmsi prev && not accept
      then prev
      else StringMap.put ev.mmsi (profiled accept base ev) prev

  -- `base.sanctionsCheckedAt && Date.parse(ev.checkedAt) < Date.parse(base.sanctionsCheckedAt)`
  abbrev pub checked_before : String → Option String → Bool
  checked_before checked_at none = false
  checked_before checked_at (some current) = date_lt parse (parse checked_at) (parse current)

  unfoldable pub apply_enriched : StringMap Vessel → VesselEnrichedEvent → StringMap Vessel
  unfolding web_matches truthy
  apply_enriched prev ev =
      let base = base_of prev ev.mmsi in
      if checked_before ev.checked_at (truthy base.sanctions_checked_at)
      then prev
      else StringMap.put ev.mmsi
          (record base {
            vessel_id = some ev.vessel_id;
            sanctions_status = some ev.status;
            sanctions_checked_at = some ev.checked_at;
            sanctions_matches = some (web_matches ev.matches);
          })
          prev

  -- `activityAt && now - Date.parse(activityAt) > maxAgeMs`
  abbrev pub older_than : ℤ → ℕ → Option String → Bool
  older_than now max_age_ms none = false
  older_than now max_age_ms (some activity_at) = elim (parse activity_at) [
    | none ↦ false
    | some at ↦ ltb_ℤ (pos max_age_ms) (now -ℤ at)
  ]

  unfoldable pub is_stale : ℤ → ℕ → Vessel → Bool
  unfolding truthy ◌-ℤ◌
  is_stale now max_age_ms v = older_than now max_age_ms (truthy (vessel_activity_at v))

  -- The loop, with `next` and whether a vessel was left out.
  unfoldable pub prune_from :
      ℤ → ℕ → StringMap Vessel → StringMap Vessel → Bool → StringMap Vessel × Bool
  prune_from now max_age_ms [] next changed = (next, changed)
  prune_from now max_age_ms ((mmsi, v) ∷ prev) next changed =
      prune_from now max_age_ms prev
        (if is_stale now max_age_ms v then next else StringMap.put mmsi v next)
        (if is_stale now max_age_ms v then true else changed)

  unfoldable pub prune_stale_vessels : StringMap Vessel → ℤ → ℕ → StringMap Vessel
  unfolding prune_from
  prune_stale_vessels prev now max_age_ms =
      let (next, changed) = prune_from now max_age_ms prev [] false in
      if changed then next else prev
