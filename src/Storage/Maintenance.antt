-- ===== src/Storage/Maintenance.antt =====
-- The daily upkeep of the partitions (src/storage/history-partition-maintenance.service.ts). The
-- database is the record of what the service calls in it; the logger is left out. A call of
-- `new Date()` is the argument `now`.
pub mod Statements
use ais_tracking_system.Prelude.{
  ℕ, zero, suc, ◌+◌, ◌≤◌, ◌<◌, ◌≡◌, refl, Bool, true, false, ◌&&◌, Option, none, some, List, [],
  ◌∷◌, ◌++◌, map, length, if◌then◌else◌,
}
use ais_tracking_system.Prelude.Task.{Task, await, ◌>>=◌, ◌>>◌, resolve}
use ais_tracking_system.Storage.Partitions.{
  HistoryPartitionPolicy, HistoryPartitionWindow, HistoryPartitionPlan, PartitionChange,
  history_retention_safety_days, history_partition_window, plan_history_partition_maintenance,
  next_daily_maintenance_delay_ms, to_iso_string,
}

abbrev pub history_partition_maintenance_on_startup : Bool
history_partition_maintenance_on_startup = true

abbrev pub history_partition_maintenance_utc_hour : ℕ
history_partition_maintenance_utc_hour = 0

abbrev pub history_partition_maintenance_utc_minute : ℕ
history_partition_maintenance_utc_minute = 5

pub record HistoryPartitionMaintenanceResult : Type 0 where
  pub acquired : Bool
  pub created : ℕ
  pub dropped : ℕ
  pub retained_from : List ℕ
  pub precreated_through : List ℕ

pub record MaintenanceConfig : Type 0 where
  pub retention_days : ℕ
  pub precreate_days : ℕ
  pub enabled : Bool

-- The database: a transaction around a body, and in it the advisory lock, the names in the catalogue
-- and a statement.
pub record Database (W : Type 0) : Type 0 where
  pub transaction :
      Task W HistoryPartitionMaintenanceResult → Task W HistoryPartitionMaintenanceResult
  pub try_lock : Task W Bool
  pub list_existing_partition_names : Task W (List (List ℕ))
  pub execute : List ℕ → Task W Unit

-- An exception in an asynchronous function rejects its promise.
abbrev pub thrown : {W A : Type 0} → Option A → Task W A
thrown o w = (o, w)

unfoldable pub policy_of : MaintenanceConfig → HistoryPartitionPolicy
policy_of config = record {
  retention_days = config.retention_days;
  safety_days = history_retention_safety_days;
  precreate_days = config.precreate_days;
}

module _ {W : Type 0} (database : Database W) where
  unfoldable pub execute_all : List PartitionChange → Task W Unit
  execute_all [] = resolve tt
  execute_all (c ∷ cs) = database.execute c.sql >> execute_all cs

  unfoldable pub skipped : HistoryPartitionWindow → HistoryPartitionMaintenanceResult
  skipped window = record {
    acquired = false;
    created = 0;
    dropped = 0;
    retained_from = to_iso_string window.cutoff_day;
    precreated_through = to_iso_string window.last_future_day;
  }

  unfoldable pub completed : HistoryPartitionPlan → HistoryPartitionMaintenanceResult
  completed plan = record {
    acquired = true;
    created = length plan.create;
    dropped = length plan.drop;
    retained_from = to_iso_string plan.cutoff_day;
    precreated_through = to_iso_string plan.last_future_day;
  }

  unfoldable pub upkeep :
      ℕ → HistoryPartitionPolicy → HistoryPartitionWindow → Task W HistoryPartitionMaintenanceResult
  upkeep now policy window = database.try_lock >>= λ acquired.
      if acquired
      then (database.list_existing_partition_names >>= λ existing.
          thrown (plan_history_partition_maintenance existing now policy) >>= λ plan.
          execute_all plan.create >> execute_all plan.drop >> resolve (completed plan))
      else resolve (skipped window)

  unfoldable pub maintain : MaintenanceConfig → ℕ → Task W HistoryPartitionMaintenanceResult
  maintain config now = thrown (history_partition_window now (policy_of config)) >>= λ window.
      database.transaction (upkeep now (policy_of config) window)

-- The service: its timer with the delay that it was set with, and the world.
pub record MaintenanceService (W : Type 0) : Type 0 where
  pub timer : Option ℕ
  pub world : W

module _ {W : Type 0} (database : Database W) (config : MaintenanceConfig) where
  unfoldable pub schedule_next : ℕ → MaintenanceService W → MaintenanceService W
  schedule_next now s = record s {
    timer = some (
        next_daily_maintenance_delay_ms now history_partition_maintenance_utc_hour
          history_partition_maintenance_utc_minute);
  }

  -- `maintain` with its rejection caught
  unfoldable pub maintain_caught : ℕ → MaintenanceService W → MaintenanceService W
  maintain_caught now s = record s { world = (maintain database config now s.world).1 }

  -- The timer fires at `now`, and its upkeep settles at `later`.
  unfoldable pub on_timer : ℕ → ℕ → MaintenanceService W → MaintenanceService W
  on_timer now later s = schedule_next later (maintain_caught now (record s { timer = none }))

  unfoldable pub on_application_bootstrap : ℕ → ℕ → MaintenanceService W → MaintenanceService W
  on_application_bootstrap now later s =
      let started =
        if history_partition_maintenance_on_startup && config.enabled
        then maintain_caught now s
        else s in
      if config.enabled then schedule_next later started else started

unfoldable pub on_module_destroy : {W : Type 0} → MaintenanceService W → MaintenanceService W
on_module_destroy s = record s { timer = none }
