-- ===== src/Storage/Repository/Redelivery.antt =====
-- A position that is delivered twice, as the bus may.
use mathlib.Core.Option.{some-injective}
use ais_tracking_system.Prelude.{
  ℕ, String, ◌≡◌, refl, ap, subst, ◌∙◌, arith, true, Option, none, some, or_else, [], ◌∷◌, any,
  any-append, if_pos, str_discrete,
}
use ais_tracking_system.Prelude.StringMap.{get, put, get-put}
use ais_tracking_system.Prelude.Throws.{>>=-eq-some, >>=-some}
use ais_tracking_system.Contracts.{PositionEvent}
use ais_tracking_system.Storage.Repository.{
  Fix, LatestRow, HistoryRow, Tables, Moment, Times, PersistedVesselSummary, VesselRow, latest_row,
  upsert_latest_position, same_key, insert_position_history, upsert_vessel_from_position, fix_of,
  vessel_from_position, position_transaction, to_persisted_vessel_summary, fix_in, latest_fix,
}
use ais_tracking_system.Storage.Repository.Latest.{get-upserted}

-- What an insertion leaves.
pub record IsInserted (times : Times) (id : String) (f : Fix) (before after : Tables) : Type 0 where
  pub vessels : after.vessels ≡ before.vessels
  pub latest : after.vessel_positions_latest ≡ before.vessel_positions_latest
  pub partition : times.has_partition f.occurred_at ≡ true
  pub present : any (same_key id f.occurred_at) after.vessel_positions_history ≡ true

same_key_self :
    (id : String) (f : Fix) → same_key id f.occurred_at (record { vessel_id = id; fix = f }) ≡ true
same_key_self id f = if_pos (str_discrete id id) refl _ _ ∙ ground arith

pub insert-IsInserted :
    (times : Times) (id : String) (f : Fix) (before after : Tables)
    → insert_position_history times id f before ≡ some after
    → IsInserted times id f before after
unfolding insert_position_history
insert-IsInserted times id f before after e =
    let new : HistoryRow = record { vessel_id = id; fix = f } in
    let added = any-append (same_key id f.occurred_at) before.vessel_positions_history (new ∷ []) in
    ground (arith, added, same_key_self id f)

insert_again :
    (times : Times) (id : String) (f : Fix) (tables : Tables)
    → times.has_partition f.occurred_at ≡ true
    → any (same_key id f.occurred_at) tables.vessel_positions_history ≡ true
    → insert_position_history times id f tables ≡ some tables
unfolding insert_position_history
insert_again times id f tables p k = ground arith

summary-again :
    (at : Moment) (event : PositionEvent) (row : VesselRow)
    → or_else row.name event.ship_name ≡ row.name
    → to_persisted_vessel_summary (vessel_from_position at event (some row))
      ≡ to_persisted_vessel_summary row
unfolding to_persisted_vessel_summary vessel_from_position
summary-again at event row e = rw e refl

latest_row-again :
    (at at' : Moment) (f : Fix) (found : Option LatestRow)
    → (latest_row at' f (some (latest_row at f found))).fix ≡ (latest_row at f found).fix
unfolding latest_row
latest_row-again at at' f none = ground arith
latest_row-again at at' f (some row) = ground arith

pub or_else-again : {A : Type 0} (a b : Option A) → or_else (or_else a b) b ≡ or_else a b
or_else-again none none = refl
or_else-again none (some b) = refl
or_else-again (some a) b = refl

-- The tables after a transaction for a vessel whose row and whose history row are there.
abbrev pub repeated : Moment → PositionEvent → VesselRow → ℕ → Tables → Tables
repeated at event row time tables =
    upsert_latest_position at row.id (fix_of event time) (record tables {
      vessels = put event.mmsi (vessel_from_position at event (some row)) tables.vessels;
    })

pub transaction-repeated :
    (times : Times) (at : Moment) (event : PositionEvent) (tables : Tables) (row : VesselRow)
    (time : ℕ)
    → times.timestamp event.occurred_at ≡ some time
    → get event.mmsi tables.vessels ≡ some row
    → or_else row.name event.ship_name ≡ row.name
    → times.has_partition time ≡ true
    → any (same_key row.id time) tables.vessel_positions_history ≡ true
    → position_transaction times at event tables
      ≡ some (to_persisted_vessel_summary row, repeated at event row time tables)
unfolding position_transaction upsert_vessel_from_position vessel_from_position
    upsert_latest_position fix_of
transaction-repeated times at event tables row time et ev en ep ek = rw ev (
    >>=-some _ _ et (
      >>=-some _ _ (insert_again times row.id (fix_of event time) _ ep ek)
        (ap (λ s. some (s, repeated at event row time tables)) (summary-again at event row en))))

-- A transaction for a vessel whose row and whose fix are there.
from_stored :
    (times : Times) (at : Moment) (event : PositionEvent) (stored : Tables) (row : VesselRow)
    (latest : LatestRow) (time : ℕ)
    → times.timestamp event.occurred_at ≡ some time
    → get event.mmsi stored.vessels ≡ some row
    → or_else row.name event.ship_name ≡ row.name
    → get row.id stored.vessel_positions_latest ≡ some latest
    → (latest_row at (fix_of event time) (some latest)).fix ≡ latest.fix
    → times.has_partition time ≡ true
    → any (same_key row.id time) stored.vessel_positions_history ≡ true
    → (twice : Tables) × (position_transaction times at event stored
        ≡ some (to_persisted_vessel_summary row, twice))
      × (twice.vessel_positions_history ≡ stored.vessel_positions_history)
      × (latest_fix row.id twice ≡ latest_fix row.id stored)
unfolding upsert_latest_position
from_stored times at event stored row latest time et ev en el ef ep ek = (
  repeated at event row time stored,
  transaction-repeated times at event stored row time et ev en ep ek,
  refl,
  ap fix_in (get-upserted at row.id (fix_of event time) stored.vessel_positions_latest)
      ∙ rw el (ap some ef),
)

-- What an event that was written does when it comes again.
abbrev pub IsRepeated : Times → Moment → PositionEvent → PersistedVesselSummary × Tables → Type 0
IsRepeated times at event (summary, stored) =
    (twice : Tables) × (position_transaction times at event stored ≡ some (summary, twice))
    × (twice.vessel_positions_history ≡ stored.vessel_positions_history)
    × (latest_fix summary.vessel_id twice ≡ latest_fix summary.vessel_id stored)

-- If the transaction of a position succeeds, then the same event, delivered again to the tables that it
-- left and with the same partitions there, succeeds again whatever the clocks show, with the same
-- summary, and changes neither the history nor the fix of the vessel's latest position.
pub position_transaction-again :
    (times : Times) (at at' : Moment) (event : PositionEvent) (tables : Tables)
    (summary : PersistedVesselSummary) (stored : Tables)
    → position_transaction times at event tables ≡ some (summary, stored)
    → IsRepeated times at' event (summary, stored)
unfolding position_transaction upsert_vessel_from_position vessel_from_position
    to_persisted_vessel_summary upsert_latest_position fix_of
position_transaction-again times at at' event tables summary stored e =
    let (time, f, g) = >>=-eq-some (times.timestamp event.occurred_at) _ e in
    let row = vessel_from_position at event (get event.mmsi tables.vessels) in
    let fix = fix_of event time in
    let written : Tables = record tables { vessels = put event.mmsi row tables.vessels } in
    let (after, h, k) =
      >>=-eq-some
        (insert_position_history times row.id fix (upsert_latest_position at row.id fix written)) _
        g in
    let i = insert-IsInserted times row.id fix _ after h in
    let pair : (to_persisted_vessel_summary row, after) ≡ (summary, stored) =
      some-injective _ _ k in
    let latest = latest_row at fix (get row.id tables.vessel_positions_latest) in
    subst (IsRepeated times at' event) pair (
      from_stored times at' event after row latest time f
        (ap (get event.mmsi) i.vessels
          ∙ get-put event.mmsi event.mmsi row tables.vessels
          ∙ if_pos (str_discrete event.mmsi event.mmsi) refl _ _)
        (or_else-again _ event.ship_name)
        (ap (get row.id) i.latest ∙ get-upserted at row.id fix tables.vessel_positions_latest)
        (latest_row-again at at' fix (get row.id tables.vessel_positions_latest)) i.partition
        i.present)
