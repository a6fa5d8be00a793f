-- ===== src/Storage/Repository.antt =====
-- The writes of src/storage/vessels.repository.ts, on the tables of src/storage/schema. Each table is
-- a list with the uniqueness that its constraints give: `vessels` by MMSI, `vessel_positions_latest`
-- by vessel, `vessel_positions_history` by vessel and time. The texts of times are read by
-- parameters: by `new Date` and by the database. The columns hold every value that the contract
-- admits, but for the dimensions, which are `smallint`. Timers and logs are left out.
pub mod Latest
pub mod Redelivery
pub mod Held
pub mod Repeated
pub mod Profile
use ais_tracking_system.Prelude.{
  ℕ, suc, String, ◌+◌, Bool, true, false, not, ◌&&◌, ◌||◌, Option, none, some, List, [], ◌∷◌, ◌++◌,
  or_else, any, leb, ◌==◌, is_some, if◌then◌else◌, str_discrete, ite,
}
use ais_tracking_system.Prelude.Double.{Double}
use ais_tracking_system.Prelude.StringMap.{StringMap, get, put}
use ais_tracking_system.Prelude.Throws.{◌>>=◌}
use ais_tracking_system.Contracts.{PositionEvent, StaticEvent, SanctionsStatus, SanctionMatch}
use ais_tracking_system.Storage.Partitions.{
  HistoryPartitionPolicy, history_retention_safety_days, is_history_event_retained,
}

pub record VesselRow : Type 0 where
  pub id : String
  pub mmsi : String
  pub imo : Option String
  pub name : Option String
  pub call_sign : Option String
  pub ship_type : Option ℕ
  pub destination : Option String
  pub dimension_to_bow : Option ℕ
  pub dimension_to_stern : Option ℕ
  pub dimension_to_port : Option ℕ
  pub dimension_to_starboard : Option ℕ
  pub sanctions_status : Option SanctionsStatus
  pub sanctions_matches : List SanctionMatch
  pub sanctions_checked_at : Option ℕ
  pub updated_at : ℕ

-- What a position is, in both tables.
pub record Fix : Type 0 where
  pub mmsi : String
  pub lon : Double
  pub lat : Double
  pub sog : Option Double
  pub cog : Option Double
  pub true_heading : Option ℕ
  pub nav_status : Option ℕ
  pub rate_of_turn : Option Double
  pub occurred_at : ℕ

pub record LatestRow : Type 0 where
  pub fix : Fix
  pub last_seen_at : ℕ

pub record HistoryRow : Type 0 where
  pub vessel_id : String
  pub fix : Fix

pub record Tables : Type 0 where
  pub vessels : StringMap VesselRow
  pub vessel_positions_latest : StringMap LatestRow
  pub vessel_positions_history : List HistoryRow

-- The tables, and the counters of writes and of dropped events.
pub record Repository : Type 0 where
  pub tables : Tables
  pub writes_vessels : ℕ
  pub writes_latest : ℕ
  pub writes_history : ℕ
  pub history_dropped : ℕ

pub record PersistedVesselSummary : Type 0 where
  pub vessel_id : String
  pub mmsi : String
  pub imo : Option String
  pub name : Option String

-- What a call meets: `new Date()`, `NOW()` in the database, and the id that a new row would get.
pub record Moment : Type 0 where
  pub now : ℕ
  pub db_now : ℕ
  pub fresh_id : String

-- The readings of a text as a time, and whether the history has a partition for one.
pub record Times : Type 0 where
  pub new_date : String → Option ℕ
  pub timestamp : String → Option ℕ
  pub has_partition : ℕ → Bool

abbrev pub fix_in : Option LatestRow → Option Fix
fix_in none = none
fix_in (some row) = some row.fix

-- The latest fix of a vessel.
abbrev pub latest_fix : String → Tables → Option Fix
latest_fix id tables = fix_in (get id tables.vessel_positions_latest)

unfoldable pub to_persisted_vessel_summary : VesselRow → PersistedVesselSummary
to_persisted_vessel_summary row = record {
  vessel_id = row.id;
  mmsi = row.mmsi;
  imo = row.imo;
  name = row.name;
}

-- A row as the insertion of an MMSI makes it, before the values that are given.
unfoldable pub empty_row : Moment → String → VesselRow
empty_row at mmsi = record {
  id = at.fresh_id;
  mmsi = mmsi;
  imo = none;
  name = none;
  call_sign = none;
  ship_type = none;
  destination = none;
  dimension_to_bow = none;
  dimension_to_stern = none;
  dimension_to_port = none;
  dimension_to_starboard = none;
  sanctions_status = none;
  sanctions_matches = [];
  sanctions_checked_at = none;
  updated_at = at.db_now;
}

abbrev pub row_or_new : Moment → String → Option VesselRow → VesselRow
row_or_new at mmsi none = empty_row at mmsi
row_or_new at mmsi (some row) = row

-- `COALESCE(vessels.name, EXCLUDED.name)`; a new row has the name of the event.
unfoldable pub vessel_from_position : Moment → PositionEvent → Option VesselRow → VesselRow
vessel_from_position at event found =
    let row = row_or_new at event.mmsi found in
    record row { name = or_else row.name event.ship_name; updated_at = at.db_now }

unfoldable pub upsert_vessel_from_position : Moment → PositionEvent → Tables → VesselRow × Tables
upsert_vessel_from_position at event tables =
    let row = vessel_from_position at event (get event.mmsi tables.vessels) in
    (row, record tables { vessels = put event.mmsi row tables.vessels })

unfoldable pub fix_of : PositionEvent → ℕ → Fix
fix_of event time = record {
  mmsi = event.mmsi;
  lon = event.lon;
  lat = event.lat;
  sog = event.sog;
  cog = event.cog;
  true_heading = event.true_heading;
  nav_status = event.nav_status;
  rate_of_turn = event.rate_of_turn;
  occurred_at = time;
}

-- On a conflict the column `mmsi` is not set.
unfoldable pub latest_row : Moment → Fix → Option LatestRow → LatestRow
latest_row at fix none = record { fix = fix; last_seen_at = at.db_now }
latest_row at fix (some row) =
    if leb row.fix.occurred_at fix.occurred_at
    then record { fix = record fix { mmsi = row.fix.mmsi }; last_seen_at = at.db_now }
    else row

unfoldable pub upsert_latest_position : Moment → String → Fix → Tables → Tables
upsert_latest_position at vessel_id fix tables = record tables {
  vessel_positions_latest =
      put vessel_id (latest_row at fix (get vessel_id tables.vessel_positions_latest))
        tables.vessel_positions_latest;
}

abbrev pub same_key : String → ℕ → HistoryRow → Bool
same_key vessel_id time row =
    ite (str_discrete row.vessel_id vessel_id) (row.fix.occurred_at == time) false

-- A time without a partition is an error of the insertion.
unfoldable pub insert_position_history : Times → String → Fix → Tables → Option Tables
insert_position_history times vessel_id fix tables =
    if times.has_partition fix.occurred_at
    then (if any (same_key vessel_id fix.occurred_at) tables.vessel_positions_history
        then some tables
        else some (record tables {
          vessel_positions_history =
              tables.vessel_positions_history ++ record { vessel_id = vessel_id; fix = fix } ∷ [];
        }))
    else none

-- The body of the transaction: `none` rolls it back.
unfoldable pub position_transaction :
    Times → Moment → PositionEvent → Tables → Option (PersistedVesselSummary × Tables)
position_transaction times at event tables = do
  time ← times.timestamp event.occurred_at
  let (row, written) = upsert_vessel_from_position at event tables
  let fix = fix_of event time
  stored ← insert_position_history times row.id fix (upsert_latest_position at row.id fix written)
  some (to_persisted_vessel_summary row, stored)

unfoldable pub retention_policy : ℕ → HistoryPartitionPolicy
retention_policy retention_days = record {
  retention_days = retention_days;
  safety_days = history_retention_safety_days;
  precreate_days = 0;
}

-- Whether the event is dropped, if it is known whether it is retained, and the counter.
abbrev pub count_stale : Repository → Option Bool → Option Bool × Repository
count_stale s none = (none, s)
count_stale s (some true) = (some false, s)
count_stale s (some false) = (some true, record s { history_dropped = suc s.history_dropped })

unfoldable pub drop_if_stale_telemetry :
    Times → ℕ → Moment → String → Repository → Option Bool × Repository
drop_if_stale_telemetry times retention_days at occurred_at s = count_stale s (
    is_history_event_retained (times.new_date occurred_at) at.now (retention_policy retention_days))

abbrev pub commit_position :
    Repository
    → Option (PersistedVesselSummary × Tables)
    → Option (Option PersistedVesselSummary) × Repository
commit_position s none = (none, s)
commit_position s (some (summary, tables)) = (
  some (some summary),
  record s {
    tables = tables;
    writes_vessels = suc s.writes_vessels;
    writes_latest = suc s.writes_latest;
    writes_history = suc s.writes_history;
  },
)

abbrev pub unless_stale :
    Option Bool × Repository
    → (Repository → Option (Option PersistedVesselSummary) × Repository)
    → Option (Option PersistedVesselSummary) × Repository
unless_stale (none, s) f = (none, s)
unless_stale (some true, s) f = (some none, s)
unless_stale (some false, s) f = f s

-- The value is `none` where the promise is rejected, and `some none` where it resolves to null.
unfoldable pub upsert_position :
    Times
    → ℕ
    → Moment
    → PositionEvent
    → Repository
    → Option (Option PersistedVesselSummary) × Repository
upsert_position times retention_days at event s =
    unless_stale (drop_if_stale_telemetry times retention_days at event.occurred_at s)
      (λ s. commit_position s (position_transaction times at event s.tables))

-- `COALESCE(EXCLUDED.x, vessels.x)`; a new row has the values of the event.
unfoldable pub vessel_from_profile : Moment → StaticEvent → Option VesselRow → VesselRow
vessel_from_profile at event found =
    let row = row_or_new at event.mmsi found in
    record row {
      imo = or_else event.imo row.imo;
      name = or_else event.name row.name;
      call_sign = or_else event.call_sign row.call_sign;
      ship_type = or_else event.ship_type row.ship_type;
      destination = or_else event.destination row.destination;
      dimension_to_bow = or_else event.dimension_to_bow row.dimension_to_bow;
      dimension_to_stern = or_else event.dimension_to_stern row.dimension_to_stern;
      dimension_to_port = or_else event.dimension_to_port row.dimension_to_port;
      dimension_to_starboard = or_else event.dimension_to_starboard row.dimension_to_starboard;
      updated_at = at.db_now;
    }

-- The range of `smallint` above zero; a value outside it is an error of the insertion.
unfoldable pub fits_smallint : Option ℕ → Bool
fits_smallint none = true
fits_smallint (some n) = leb n 32767

unfoldable pub dimensions_fit : StaticEvent → Bool
dimensions_fit event =
    fits_smallint event.dimension_to_bow
    && fits_smallint event.dimension_to_stern
    && fits_smallint event.dimension_to_port
    && fits_smallint event.dimension_to_starboard

-- The statement of a profile, and the counter of its write.
unfoldable pub write_profile :
    Moment → StaticEvent → Repository → Option (Option PersistedVesselSummary) × Repository
write_profile at event s =
    let row = vessel_from_profile at event (get event.mmsi s.tables.vessels) in
    if dimensions_fit event
    then (
      some (some (to_persisted_vessel_summary row)),
      record s {
        tables = record s.tables { vessels = put event.mmsi row s.tables.vessels };
        writes_vessels = suc s.writes_vessels;
      },
    )
    else (none, s)

unfoldable pub upsert_profile :
    Times
    → ℕ
    → Moment
    → StaticEvent
    → Repository
    → Option (Option PersistedVesselSummary) × Repository
upsert_profile times retention_days at event s =
    unless_stale (drop_if_stale_telemetry times retention_days at event.occurred_at s)
      (write_profile at event)
