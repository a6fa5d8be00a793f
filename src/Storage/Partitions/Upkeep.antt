-- ===== src/Storage/Partitions/Upkeep.antt =====
-- The whole plan of the upkeep.
use mathlib.Core.List.{Perm}
use ais_tracking_system.Prelude.{
  ℕ, zero, suc, ◌+◌, ◌-◌, ◌*◌, ◌/◌, ◌%◌, ◌==◌, ◌≤◌, ◌≡◌, refl, subst, ap, arith, true, some, List,
  [], ◌∷◌, map, All, keep, if_then,
}
use ais_tracking_system.Prelude.Throws.{>>=-eq-some, >>=-some, map_all}
use ais_tracking_system.Storage.Calendar.{
  day_ms, get_utc_full_year, get_utc_month, get_utc_date, date_utc-whole,
}
use ais_tracking_system.Storage.Digits.{codes, join, to_string}
use ais_tracking_system.Storage.Partitions.{
  HistoryPartitionPolicy, PartitionChange, HistoryPartitionPlan, partition_name_for_day, pad,
  match_partition, history_retention_cutoff_day, parse_history_partition_day, quote_identifier,
  create_partition_sql, sort_by_day, create_of, plan_history_partition_maintenance,
  assert_whole_day, history_partition_parent, is_identifier, is_history_event_retained,
}
use ais_tracking_system.Storage.Partitions.Window.{
  days_from, add_utc_days-pos, history_partition_window-days, cutoff-day,
}
use ais_tracking_system.Storage.Partitions.Identifiers.{name-is_identifier}
use ais_tracking_system.Storage.Partitions.Plan.{
  is_expired, IsExpired, IsSorted, names, collect_drops-shape, sort_by_day-perm, sort_by_day-All,
  sort_by_day-IsSorted,
}

-- A created partition has the name of its day.
abbrev pub IsCalled : PartitionChange → Type 0
IsCalled c = partition_name_for_day c.day ≡ some c.name

abbrev name_text : ℕ → List ℕ
name_text day = join (
    history_partition_parent
    ∷ codes "_y"
    ∷ to_string (get_utc_full_year day)
    ∷ codes "m"
    ∷ pad (get_utc_month day + 1)
    ∷ codes "d"
    ∷ pad (get_utc_date day)
    ∷ [])

name-whole : (k : ℕ) → partition_name_for_day (k * day_ms) ≡ some (name_text (k * day_ms))
unfolding partition_name_for_day assert_whole_day
name-whole k = if_then (k * day_ms % day_ms == 0) _ _ (ground arith) refl

quote-name :
    (day : ℕ)
    → quote_identifier (name_text day) ≡ some (join (codes "\"" ∷ name_text day ∷ codes "\"" ∷ []))
unfolding quote_identifier
quote-name day = if_then (is_identifier (name_text day)) _ _ (name-is_identifier _ _ _) refl

sql-whole : (k : ℕ) → (sql : List ℕ) × (create_partition_sql (k * day_ms) ≡ some sql)
unfolding create_partition_sql quote_identifier is_identifier
sql-whole k = (
  _,
  >>=-some _ _ (name-whole k)
      (>>=-some _ _ (add_utc_days-pos k 1) (>>=-some _ _ (quote-name (k * day_ms)) refl)),
)

create_all-shape :
    (k n : ℕ)
    → (cs : List PartitionChange) × (map_all create_of (days_from k n) ≡ some cs)
      × (map (λ c. c.day) cs ≡ days_from k n)
      × All IsCalled cs
unfolding create_of
create_all-shape k zero = ([], refl, refl, tt)
create_all-shape k (suc n) =
    let (sql, e) = sql-whole k in
    let (cs, f, g, h) = create_all-shape (k + 1) n in
    let c : PartitionChange = record {
      day = k * day_ms;
      name = name_text (k * day_ms);
      sql = sql;
    } in
    (
      c ∷ cs,
      >>=-some _ _ (>>=-some _ _ (name-whole k) (>>=-some _ _ e refl)) (>>=-some _ _ f refl),
      ap (λ days. k * day_ms ∷ days) g,
      (name-whole k, h),
    )

-- There is a plan: its cutoff and the days that it creates are those of the policy, with their names,
-- and what it drops are the expired names, sorted by the days that they tell.
abbrev pub IsExact : List (List ℕ) → ℕ → HistoryPartitionPolicy → Type 0
IsExact existing now policy =
    (p : HistoryPartitionPlan) × (plan_history_partition_maintenance existing now policy ≡ some p)
    × (let first = now / day_ms - (policy.retention_days + policy.safety_days) in
        (p.cutoff_day ≡ first * day_ms)
        × (map (λ c. c.day) p.create
            ≡ days_from first (now / day_ms + policy.precreate_days + 1 - first)))
    × All IsCalled p.create
    × Perm (names p.drop) (keep (is_expired p.cutoff_day) existing)
    × IsSorted p.drop
    × All (IsExpired p.cutoff_day) p.drop

-- From the year 100 on, the upkeep always has a plan, whatever partitions exist: it creates each day
-- from the cutoff (the retention and its safety day before today) through the last precreated day, in
-- order and under its day's name; and it drops, in order of their days, exactly the existing
-- partitions whose name is that of a day before the cutoff.
pub plan-exact :
    (existing : List (List ℕ)) (now : ℕ) (policy : HistoryPartitionPolicy)
    → 100 ≤ get_utc_full_year now
    → IsExact existing now policy
unfolding plan_history_partition_maintenance
plan-exact existing now policy h =
    let first = now / day_ms - (policy.retention_days + policy.safety_days) in
    let (drops, e, f, g) = collect_drops-shape (first * day_ms) existing in
    let (creates, e', f', g') =
      create_all-shape first (now / day_ms + policy.precreate_days + 1 - first) in
    (
      _,
      >>=-some _ _ (history_partition_window-days now policy h)
          (>>=-some _ _ e (>>=-some _ _ e' refl)),
      (refl, f'),
      g',
      subst (λ ns. Perm (names (sort_by_day drops)) ns) f (sort_by_day-perm drops),
      sort_by_day-IsSorted drops,
      sort_by_day-All (IsExpired (first * day_ms)) drops g,
    )

-- The day of a name is a whole day.
parsed-whole :
    (name : List ℕ) (day : ℕ) → parse_history_partition_day name ≡ some day → day % day_ms ≡ 0
unfolding parse_history_partition_day
parsed-whole name day h =
    let ((y, m, d), e, k) = >>=-eq-some (match_partition name) _ h in
    ground (arith, date_utc-whole y m d)

expired-before :
    (k t : ℕ) (cs : List PartitionChange)
    → k * day_ms ≤ t
    → All (IsExpired (k * day_ms)) cs
    → All (λ c. c.day + day_ms ≤ t) cs
expired-before k t [] h g = tt
expired-before k t (c ∷ cs) h g =
    (omega (arith, g.0.1, h, parsed-whole c.name c.day g.0.0), expired-before k t cs h g.1)

-- A partition that the plan drops ends before any event that counts as retained at the same time, from
-- the year 100 on.
pub retained-kept :
    (existing : List (List ℕ)) (now t : ℕ) (policy : HistoryPartitionPolicy)
    (p : HistoryPartitionPlan)
    → 100 ≤ get_utc_full_year now
    → is_history_event_retained (some t) now policy ≡ some true
    → plan_history_partition_maintenance existing now policy ≡ some p
    → All (λ c. c.day + day_ms ≤ t) p.drop
unfolding is_history_event_retained
retained-kept existing now t policy p h r e =
    let (p', e', (c, _), _, _, _, g) = plan-exact existing now policy h in
    let first = now / day_ms - (policy.retention_days + policy.safety_days) in
    let (cutoff, f, k) = >>=-eq-some (history_retention_cutoff_day now policy) _ r in
    let same : p' ≡ p = ground arith in
    let reached : first * day_ms ≤ t = ground (arith, cutoff-day now policy h) in
    subst (λ q. All (λ d. d.day + day_ms ≤ t) q.drop) same
      (expired-before first t p'.drop reached (subst (λ n. All (IsExpired n) p'.drop) c g))
