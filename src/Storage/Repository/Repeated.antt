-- ===== src/Storage/Repository/Repeated.antt =====
-- A position that is delivered again after other writes.
use ais_tracking_system.Prelude.{
  ℕ, String, ◌≤◌, ◌≡◌, refl, sym, ap, subst, ◌∙◌, arith, true, Option, none, some, List, any,
}
use ais_tracking_system.Prelude.StringMap.{get}
use ais_tracking_system.Contracts.{PositionEvent}
use ais_tracking_system.Storage.Repository.{
  Fix, LatestRow, Tables, Repository, Moment, Times, PersistedVesselSummary, VesselRow, latest_row,
  upsert_latest_position, same_key, fix_of, position_transaction, to_persisted_vessel_summary,
  latest_fix, fix_in,
}
use ais_tracking_system.Storage.Repository.Latest.{get-upserted}
use ais_tracking_system.Storage.Repository.Redelivery.{repeated, transaction-repeated}
use ais_tracking_system.Storage.Repository.Profile.{Call, perform_all}
use ais_tracking_system.Storage.Repository.Held.{perform_all-IsHeld, stored-IsHeld}

abbrev pub time_in : Option Fix → Option ℕ
time_in none = none
time_in (some f) = some f.occurred_at

latest_row-time :
    (at : Moment) (f : Fix) (row : LatestRow)
    → f.occurred_at ≤ row.fix.occurred_at
    → (latest_row at f (some row)).fix.occurred_at ≡ row.fix.occurred_at
unfolding latest_row
latest_row-time at f row h = ground arith

-- The event succeeds, tells of the vessel's row, and leaves the history and the time of the latest fix.
abbrev pub IsRepeatedLater : Times → Moment → PositionEvent → String → Tables → Type 0
IsRepeatedLater times at event id tables =
    (row : VesselRow) × (twice : Tables) × (get event.mmsi tables.vessels ≡ some row)
    × (row.id ≡ id)
    × (position_transaction times at event tables ≡ some (to_persisted_vessel_summary row, twice))
    × (twice.vessel_positions_history ≡ tables.vessel_positions_history)
    × (time_in (latest_fix row.id twice) ≡ time_in (latest_fix row.id tables))

-- If the transaction of a position succeeds, then the same event, delivered again after any writes of
-- positions and profiles, in any order and with any failures, and with the same partitions there,
-- succeeds again whatever the clock shows: for the same vessel, with the summary of the row that is then
-- stored, with no new row in the history, and without a change of the time of the latest position.
pub position_transaction-again_later :
    (times : Times) (days : ℕ) (at at' : Moment) (event : PositionEvent) (calls : List Call)
    (s : Repository) (summary : PersistedVesselSummary) (stored : Tables)
    → position_transaction times at event s.tables ≡ some (summary, stored)
    → IsRepeatedLater times at' event summary.vessel_id
        (perform_all times days calls (record s { tables = stored })).tables
unfolding upsert_latest_position fix_of
position_transaction-again_later times days at at' event calls s summary stored e =
    let (time, f, partition, held) = stored-IsHeld times at event s.tables stored summary e in
    let later = perform_all times days calls (record s { tables = stored }) in
    let h =
      perform_all-IsHeld event summary.vessel_id time times days calls
        (record s { tables = stored }) held in
    let (row, found, (same, named)) = h.known in
    let (latest, there, le) =
      subst
        (λ i.
          (l : LatestRow) × (get i later.tables.vessel_positions_latest ≡ some l)
          × (time ≤ l.fix.occurred_at))
        (sym same) h.covered in
    (
      row,
      repeated at' event row time later.tables,
      found,
      same,
      transaction-repeated times at' event later.tables row time f found named partition (
          subst (λ i. any (same_key i time) later.tables.vessel_positions_history ≡ true) (sym same)
            h.present),
      refl,
      ap (λ o. time_in (fix_in o))
            (get-upserted at' row.id (fix_of event time) later.tables.vessel_positions_latest)
          ∙ rw there (ap some (latest_row-time at' (fix_of event time) latest le)),
    )
