-- ===== src/Storage/Maintenance/Statements.antt =====
-- The statements of an upkeep, and the timer after it.
use mathlib.Core.List.{append_assoc, append-nil}
use ais_tracking_system.Prelude.{
  ℕ, ◌+◌, ◌*◌, ◌%◌, ◌≤◌, ◌<◌, ◌≡◌, refl, sym, ap, arith, ◌∙◌, Bool, true, false, Option, some, List,
  [], ◌∷◌, ◌++◌, map, if◌then◌else◌,
}
use ais_tracking_system.Prelude.Task.{Task, await, ◌>>◌, resolve}
use ais_tracking_system.Storage.Calendar.{day_ms, get_utc_full_year}
use ais_tracking_system.Storage.Partitions.{
  HistoryPartitionPlan, PartitionChange, plan_history_partition_maintenance,
}
use ais_tracking_system.Storage.Partitions.Window.{delay-bounds, history_partition_window-days}
use ais_tracking_system.Storage.Partitions.Upkeep.{plan-exact}
use ais_tracking_system.Storage.Maintenance.{
  HistoryPartitionMaintenanceResult, MaintenanceConfig, MaintenanceService, Database, policy_of,
  execute_all, upkeep, maintain, on_timer, schedule_next, skipped, completed,
}

-- A database that keeps a record of its statements: the lock is granted or not, and nothing fails.
abbrev pub recorder : Bool → List (List ℕ) → Database (List (List ℕ))
recorder granted existing = record {
  transaction = λ body. body;
  try_lock = resolve granted;
  list_existing_partition_names = resolve existing;
  execute = λ sql w. (some tt, w ++ sql ∷ []);
}

abbrev pub statements : List PartitionChange → List (List ℕ)
statements cs = map (λ c. c.sql) cs

execute_all-recorder :
    (granted : Bool) (existing : List (List ℕ)) (cs : List PartitionChange) (w : List (List ℕ))
    → execute_all (recorder granted existing) cs w ≡ (some tt, w ++ statements cs)
unfolding execute_all
execute_all-recorder granted existing [] w = ap (λ v. (some tt, v)) (sym (append-nil w))
execute_all-recorder granted existing (c ∷ cs) w =
    execute_all-recorder granted existing cs (w ++ c.sql ∷ [])
    ∙ ap (λ v. (some tt, v)) (append_assoc w (c.sql ∷ []) (statements cs))

await-same :
    {W A B : Type 0} {r : Option A × W} (f : A → Task W B) {a : A} {w : W} {t : Option B × W}
    → r ≡ (some a, w)
    → f a w ≡ t
    → await r f ≡ t
await-same f e h = rw e h

await-some :
    {W A B : Type 0} {o : Option A} {w : W} (f : A → Task W B) {a : A} {t : Option B × W}
    → o ≡ some a
    → f a w ≡ t
    → await (o, w) f ≡ t
await-some f e h = rw e h

both-recorder :
    (granted : Bool) (existing : List (List ℕ)) (cs ds : List PartitionChange) (w : List (List ℕ))
    → (execute_all (recorder granted existing) cs >> execute_all (recorder granted existing) ds) w
      ≡ (some tt, w ++ statements cs ++ statements ds)
both-recorder granted existing cs ds w =
    await-same (λ done. execute_all (recorder granted existing) ds)
      (execute_all-recorder granted existing cs w)
      (execute_all-recorder granted existing ds (w ++ statements cs))

pub maintain-statements :
    (granted : Bool) (existing : List (List ℕ)) (config : MaintenanceConfig) (now : ℕ)
    (w : List (List ℕ))
    → 100 ≤ get_utc_full_year now
    → (p : HistoryPartitionPlan) × (plan_history_partition_maintenance existing now
          (policy_of config)
        ≡ some p)
      × (r : HistoryPartitionMaintenanceResult) × (r.acquired ≡ granted)
      × (maintain (recorder granted existing) config now w
          ≡ (some r, (if granted then w ++ statements p.create ++ statements p.drop else w)))
unfolding maintain upkeep skipped completed
maintain-statements true existing config now w h =
    let (p, e, _, _, _, _, _) = plan-exact existing now (policy_of config) h in
    (
      p,
      e,
      completed (recorder true existing) p,
      refl,
      await-some _ (history_partition_window-days now (policy_of config) h) (
          await-some _ e (
            await-same (λ done. resolve (completed (recorder true existing) p))
              (both-recorder true existing p.create p.drop w) refl)),
    )
maintain-statements false existing config now w h =
    let (p, e, _, _, _, _, _) = plan-exact existing now (policy_of config) h in
    (p, e, _, refl, await-some _ (history_partition_window-days now (policy_of config) h) refl)

pub timer-again :
    {W : Type 0} (database : Database W) (config : MaintenanceConfig) (now later : ℕ)
    (s : MaintenanceService W)
    → 100 ≤ get_utc_full_year later
    → (delay : ℕ) × ((on_timer database config now later s).timer ≡ some delay)
      × (0 < delay)
      × (delay ≤ day_ms)
      × ((later + delay) % day_ms ≡ 5 * 60 * 1000)
unfolding on_timer schedule_next
timer-again database config now later s h =
    let (a, b, c) = delay-bounds later 0 5 h (omega arith) (omega arith) in (_, refl, a, b, c)
