-- ===== src/Storage/Queries.antt =====
-- The reads of src/storage/vessels.repository.ts on the same tables. What PostGIS computes (the test
-- of a point against a box, and the simplified line of a track as GeoJSON) is a parameter, as is
-- `toISOString`. Timers are left out.
pub mod Rows
use Prim.Native.String.{String}
use ais_tracking_system.Prelude.{
  ℕ, zero, suc, ◌-◌, ◌≤◌, Bool, true, false, ◌&&◌, Option, none, some, List, [], ◌∷◌, map, keep,
  any, leb, ltb, length, if◌then◌else◌, ite, str_discrete,
}
use ais_tracking_system.Prelude.Double.{Double}
use ais_tracking_system.Prelude.StringMap.{StringMap, get}
use ais_tracking_system.Contracts.{SanctionsStatus, SanctionMatch}
use ais_tracking_system.Contracts.Json.{Json, Items, nil, null, bool, num, str, arr, obj, property}
use ais_tracking_system.Pipeline.Coverage.{Bbox}
use ais_tracking_system.Storage.Repository.{VesselRow, Fix, LatestRow, HistoryRow, Tables}

pub record VesselSnapshotRow : Type 0 where
  pub id : String
  pub mmsi : String
  pub imo : Option String
  pub name : Option String
  pub call_sign : Option String
  pub ship_type : Option ℕ
  pub lon : Double
  pub lat : Double
  pub sog : Option Double
  pub cog : Option Double
  pub true_heading : Option ℕ
  pub nav_status : Option ℕ
  pub occurred_at : ℕ
  pub last_seen_at : ℕ
  pub sanctions_status : Option SanctionsStatus
  pub sanctions_checked_at : Option ℕ

pub record TrackPoint : Type 0 where
  pub lon : Double
  pub lat : Double
  pub occurred_at : ℕ
  pub sog : Option Double
  pub cog : Option Double
  pub nav_status : Option ℕ

pub data TrackResult : Type 0 where
  points : List TrackPoint → TrackResult
  linestring : Items → TrackResult

pub record DetailPosition : Type 0 where
  pub lon : Double
  pub lat : Double
  pub sog : Option Double
  pub cog : Option Double
  pub true_heading : Option ℕ
  pub nav_status : Option ℕ
  pub rate_of_turn : Option Double
  pub occurred_at : ℕ
  pub last_seen_at : ℕ

pub record VesselDetailRow : Type 0 where
  pub id : String
  pub mmsi : String
  pub imo : Option String
  pub name : Option String
  pub call_sign : Option String
  pub ship_type : Option ℕ
  pub destination : Option String
  pub dimension_to_bow : Option ℕ
  pub dimension_to_stern : Option ℕ
  pub dimension_to_port : Option ℕ
  pub dimension_to_starboard : Option ℕ
  pub sanctions_status : Option SanctionsStatus
  pub sanctions_checked_at : Option String
  pub sanctions_matches : List SanctionMatch
  pub position : Option DetailPosition

-- The row of an id, which is the primary key.
unfoldable pub vessel_by_id : String → StringMap VesselRow → Option VesselRow
vessel_by_id id [] = none
vessel_by_id id ((mmsi, v) ∷ vessels) =
    ite (str_discrete v.id id) (some v) (vessel_by_id id vessels)

unfoldable pub snapshot_row : VesselRow → LatestRow → VesselSnapshotRow
snapshot_row v p = record {
  id = v.id;
  mmsi = v.mmsi;
  imo = v.imo;
  name = v.name;
  call_sign = v.call_sign;
  ship_type = v.ship_type;
  lon = p.fix.lon;
  lat = p.fix.lat;
  sog = p.fix.sog;
  cog = p.fix.cog;
  true_heading = p.fix.true_heading;
  nav_status = p.fix.nav_status;
  occurred_at = p.fix.occurred_at;
  last_seen_at = p.last_seen_at;
  sanctions_status = v.sanctions_status;
  sanctions_checked_at = v.sanctions_checked_at;
}

abbrev pub with_vessel :
    LatestRow → Option VesselRow → List VesselSnapshotRow → List VesselSnapshotRow
with_vessel p none rows = rows
with_vessel p (some v) rows = snapshot_row v p ∷ rows

-- `JOIN vessels v ON v.id = p.vessel_id`
unfoldable pub join_vessels : StringMap VesselRow → StringMap LatestRow → List VesselSnapshotRow
join_vessels vessels [] = []
join_vessels vessels ((id, p) ∷ latest) =
    with_vessel p (vessel_by_id id vessels) (join_vessels vessels latest)

-- `ORDER BY key`, for the order of a test.
module _ {A : Type 0} (goes_before : A → A → Bool) where
  unfoldable pub insert_sorted : A → List A → List A
  insert_sorted x [] = x ∷ []
  insert_sorted x (y ∷ ys) = if goes_before x y then x ∷ y ∷ ys else y ∷ insert_sorted x ys

  unfoldable pub order_by : List A → List A
  order_by [] = []
  order_by (x ∷ xs) = insert_sorted x (order_by xs)

-- `LIMIT n`
unfoldable pub limit : {A : Type 0} → ℕ → List A → List A
limit zero xs = []
limit (suc n) [] = []
limit (suc n) (x ∷ xs) = x ∷ limit n xs

module _ (intersects : Double → Double → Bbox → Bool) where
  abbrev pub is_shown : List Bbox → ℕ → VesselSnapshotRow → Bool
  is_shown bboxes since row = leb since row.last_seen_at && any (intersects row.lon row.lat) bboxes

  unfoldable pub find_latest_in_bboxes : List Bbox → ℕ → ℕ → ℕ → Tables → List VesselSnapshotRow
  find_latest_in_bboxes [] now since_ms n tables = []
  find_latest_in_bboxes (b ∷ bs) now since_ms n tables = limit n (
      order_by (λ x y. leb y.last_seen_at x.last_seen_at)
        (keep (is_shown (b ∷ bs) (now - since_ms))
          (join_vessels tables.vessels tables.vessel_positions_latest)))

-- The history rows of a vessel from a time on and before another.
unfoldable pub is_in_track : String → ℕ → ℕ → HistoryRow → Bool
is_in_track vessel_id from to row =
    ite (str_discrete row.vessel_id vessel_id) true false
    && leb from row.fix.occurred_at
    && ltb row.fix.occurred_at to

unfoldable pub track_point : HistoryRow → TrackPoint
track_point row = record {
  lon = row.fix.lon;
  lat = row.fix.lat;
  occurred_at = row.fix.occurred_at;
  sog = row.fix.sog;
  cog = row.fix.cog;
  nav_status = row.fix.nav_status;
}

unfoldable pub track_rows : String → ℕ → ℕ → Tables → List HistoryRow
track_rows vessel_id from to tables =
    order_by (λ x y. leb x.fix.occurred_at y.fix.occurred_at)
      (keep (is_in_track vessel_id from to) tables.vessel_positions_history)

-- The coordinates of the parsed geometry, if they are an array; an exception is caught.
unfoldable pub coordinates_of : Option Json → Items
coordinates_of (some (obj fields)) = elim (property "coordinates" fields) [
  | some (arr items) ↦ items
  | _ ↦ nil
]
coordinates_of _ = nil

-- `simplified` is what the query gives for the ordered rows: the parsed GeoJSON, or `none`.
unfoldable pub find_track :
    (List HistoryRow → ℕ → Option Json) → String → ℕ → ℕ → Option ℕ → Tables → TrackResult
find_track simplified vessel_id from to none tables =
    points (map track_point (track_rows vessel_id from to tables))
find_track simplified vessel_id from to (some meters) tables =
    let rows = track_rows vessel_id from to tables in
    if ltb (length rows) 2
    then linestring nil
    else linestring (coordinates_of (simplified rows meters))

abbrev pub position_of : Option LatestRow → Option DetailPosition
position_of none = none
position_of (some p) = some (record {
  lon = p.fix.lon;
  lat = p.fix.lat;
  sog = p.fix.sog;
  cog = p.fix.cog;
  true_heading = p.fix.true_heading;
  nav_status = p.fix.nav_status;
  rate_of_turn = p.fix.rate_of_turn;
  occurred_at = p.fix.occurred_at;
  last_seen_at = p.last_seen_at;
})

abbrev pub iso_or_null : (ℕ → String) → Option ℕ → Option String
iso_or_null to_iso none = none
iso_or_null to_iso (some at) = some (to_iso at)

unfoldable pub detail_row : (ℕ → String) → VesselRow → Option LatestRow → VesselDetailRow
detail_row to_iso v p = record {
  id = v.id;
  mmsi = v.mmsi;
  imo = v.imo;
  name = v.name;
  call_sign = v.call_sign;
  ship_type = v.ship_type;
  destination = v.destination;
  dimension_to_bow = v.dimension_to_bow;
  dimension_to_stern = v.dimension_to_stern;
  dimension_to_port = v.dimension_to_port;
  dimension_to_starboard = v.dimension_to_starboard;
  sanctions_status = v.sanctions_status;
  sanctions_checked_at = iso_or_null to_iso v.sanctions_checked_at;
  sanctions_matches = v.sanctions_matches;
  position = position_of p;
}

abbrev pub detail_of : (ℕ → String) → Tables → Option VesselRow → Option VesselDetailRow
detail_of to_iso tables none = none
detail_of to_iso tables (some v) =
    some (detail_row to_iso v (get v.id tables.vessel_positions_latest))

unfoldable pub find_by_id : (ℕ → String) → String → Tables → Option VesselDetailRow
find_by_id to_iso id tables = detail_of to_iso tables (vessel_by_id id tables.vessels)
