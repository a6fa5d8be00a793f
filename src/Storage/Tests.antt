-- ===== src/Storage/Tests.antt =====
-- The theorems of the storage at concrete inputs.
use ais_tracking_system.Prelude.{
  false, ℕ, ◌+◌, ◌*◌, ◌≤◌, ◌≡◌, refl, arith, true, none, some, List, [], ◌∷◌, All,
}
use ais_tracking_system.Prelude.Int.{◌-ℤ◌}
use ais_tracking_system.Prelude.Throws.{◌>>=◌}
use ais_tracking_system.Prelude.StringMap.{get, put}
use ais_tracking_system.Contracts.{VesselPersistedEvent, PositionEvent, position}
use ais_tracking_system.Contracts.Samples.{seen, profile}
use ais_tracking_system.Storage.Calendar.{
  day_ms, get_utc_full_year, months_of, march_year, march_day, march_month, date_utc, days_before,
  month_start, century, get_utc_month, get_utc_date,
}
use ais_tracking_system.Storage.Digits.{codes}
use ais_tracking_system.Storage.Partitions.{
  HistoryPartitionPolicy, partition_name_for_day, parse_history_partition_day,
  is_history_event_retained, history_retention_cutoff_day, utc_day_start, add_utc_days,
  assert_whole_day,
}
use ais_tracking_system.Storage.Partitions.Names.{parse-partition_name}
use ais_tracking_system.Storage.Partitions.Upkeep.{IsExact, plan-exact, retained-kept}
use ais_tracking_system.Storage.Repository.{
  Tables, Repository, Moment, Times, position_transaction, upsert_vessel_from_position,
  vessel_from_position, empty_row, to_persisted_vessel_summary, upsert_latest_position, latest_row,
  insert_position_history, fix_of, vessel_from_profile,
}
use ais_tracking_system.Storage.Repository.Latest.{IsConsistent}
use ais_tracking_system.Storage.Repository.Redelivery.{IsRepeated, position_transaction-again}
use ais_tracking_system.Storage.Repository.Repeated.{
  IsRepeatedLater, position_transaction-again_later,
}
use ais_tracking_system.Storage.Repository.Profile.{
  Call, of_position, of_profile, perform_all, perform_all-IsConsistent, position-profile,
}
use ais_tracking_system.Storage.Writer.{Publication, WriterState, store_event}
use ais_tracking_system.Storage.Writer.Published.{IsPublished, store_event-IsPublished}

-- Noon of a day of the year 2024.
abbrev noon : ℕ
noon = 739300 * day_ms + 12 * 60 * 60 * 1000

abbrev week : HistoryPartitionPolicy
week = record { retention_days = 7; safety_days = 1; precreate_days = 2 }

abbrev existing : List (List ℕ)
existing =
    codes "vessel_positions_history_y2020m02d29" ∷ codes "vessel_positions_history_default" ∷ []

noon_year : 100 ≤ get_utc_full_year noon
unfolding get_utc_full_year months_of march_year march_day march_month
noon_year = omega arith

parse-partition_name_example :
    (partition_name_for_day (739300 * day_ms) >>= parse_history_partition_day)
    ≡ some (739300 * day_ms)
unfolding get_utc_full_year months_of march_year march_day march_month
parse-partition_name_example =
    parse-partition_name (739300 * day_ms) refl (omega arith) (omega arith)

plan-exact_example : IsExact existing noon week
plan-exact_example = plan-exact existing noon week noon_year

noon_retained : is_history_event_retained (some noon) noon week ≡ some true
unfolding is_history_event_retained history_retention_cutoff_day utc_day_start add_utc_days
    assert_whole_day date_utc get_utc_full_year get_utc_month get_utc_date months_of march_year
    march_day march_month days_before month_start century ◌-ℤ◌
noon_retained = refl

retained-kept_example :
    All (λ c. c.day + day_ms ≤ noon) (plan-exact existing noon week noon_year).0.drop
retained-kept_example =
    retained-kept existing noon noon week (plan-exact existing noon week noon_year).0 noon_year
      noon_retained (plan-exact existing noon week noon_year).1

abbrev empty_tables : Tables
empty_tables = record { vessels = []; vessel_positions_latest = []; vessel_positions_history = [] }

abbrev start : Repository
start = record {
  tables = empty_tables;
  writes_vessels = 0;
  writes_latest = 0;
  writes_history = 0;
  history_dropped = 0;
}

-- Each text is the time noon, and each time has a partition.
abbrev times : Times
times = record { new_date = λ s. some noon; timestamp = λ s. some noon; has_partition = λ t. true }

abbrev first_moment : Moment
first_moment = record { now = noon; db_now = noon; fresh_id = "a" }

abbrev next_moment : Moment
next_moment = record { now = noon + 5; db_now = noon + 5; fresh_id = "b" }

abbrev alpha : PositionEvent
alpha = seen "123456789" "t"

-- What the first transaction leaves.
abbrev stored : Tables
stored = record {
  vessels = ("123456789", vessel_from_position first_moment alpha none) ∷ [];
  vessel_positions_latest = ("a", latest_row first_moment (fix_of alpha noon) none) ∷ [];
  vessel_positions_history = record { vessel_id = "a"; fix = fix_of alpha noon } ∷ [];
}

alpha-stored :
    position_transaction times first_moment alpha empty_tables
    ≡ some (to_persisted_vessel_summary (vessel_from_position first_moment alpha none), stored)
unfolding position_transaction upsert_vessel_from_position upsert_latest_position
    insert_position_history vessel_from_position empty_row get put
alpha-stored = refl

position_transaction-again_example :
    IsRepeated times next_moment alpha
      (to_persisted_vessel_summary (vessel_from_position first_moment alpha none), stored)
position_transaction-again_example =
    position_transaction-again times first_moment next_moment alpha empty_tables
      (to_persisted_vessel_summary (vessel_from_position first_moment alpha none)) stored
      alpha-stored

abbrev calls : List Call
calls = of_position first_moment alpha ∷ of_profile next_moment (profile "123456789") ∷ []

-- The profile of the vessel is written in between.
position_transaction-again_later_example :
    IsRepeatedLater times next_moment alpha
      (vessel_from_position first_moment alpha none).id
      (perform_all times 7 calls (record start { tables = stored })).tables
unfolding vessel_from_position empty_row to_persisted_vessel_summary
position_transaction-again_later_example =
    position_transaction-again_later times 7 first_moment next_moment alpha calls start
      (to_persisted_vessel_summary (vessel_from_position first_moment alpha none)) stored
      alpha-stored

perform_all-IsConsistent_example : IsConsistent (perform_all times 7 calls start).tables
perform_all-IsConsistent_example =
    perform_all-IsConsistent times 7 calls start (record { covered = tt; unique = tt })

position-profile_example :
    vessel_from_position first_moment alpha
      (some (vessel_from_profile first_moment (profile "123456789") none))
    ≡ vessel_from_profile first_moment
        (profile "123456789")
        (some (vessel_from_position first_moment alpha none))
position-profile_example = position-profile first_moment alpha (profile "123456789") none refl

abbrev idle : WriterState
idle = record { repository = start; published = []; failed_publishes = [] }

-- A bus that takes every event.
abbrev taken : VesselPersistedEvent → Publication
taken e = record { is_written = true; is_rejected = false }

store_event-IsPublished_example :
    IsPublished
      (position alpha)
      idle
      (store_event taken times 7 first_moment "t" (some (position alpha)) idle).1
store_event-IsPublished_example =
    store_event-IsPublished taken times 7 first_moment "t" (position alpha) idle
