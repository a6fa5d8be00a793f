-- ===== src/Storage/Partitions.antt =====
-- The daily partitions of the history of positions (src/storage/history-partitions.ts). An exception
-- is `none`. The texts, which are parsed, are lists of code units.
pub mod Names
pub mod Window
mod Identifiers
pub mod Plan
pub mod Upkeep
use ais_tracking_system.Prelude.{
  ℕ, zero, suc, ◌+◌, ◌-◌, ◌*◌, ◌/◌, ◌%◌, ◌==◌, Bool, true, false, not, ◌&&◌, ◌||◌, Option, none,
  some, List, [], ◌∷◌, ◌++◌, ite, ltb, leb, if◌then◌else◌,
}
use ais_tracking_system.Prelude.Throws.{◌>>=◌, map_all}
use ais_tracking_system.Prelude.Int.{ℤ, pos, pos_part, neg_part, ◌-ℤ◌}
use ais_tracking_system.Storage.Calendar.{
  day_ms, get_utc_full_year, get_utc_month, get_utc_date, date_utc,
}
use ais_tracking_system.Storage.Digits.{codes, join, to_string, pad_start, number, after}

abbrev pub history_partition_parent : List ℕ
history_partition_parent = codes "vessel_positions_history"

abbrev pub history_retention_safety_days : ℕ
history_retention_safety_days = 1

pub record HistoryPartitionPolicy : Type 0 where
  pub retention_days : ℕ
  pub safety_days : ℕ
  pub precreate_days : ℕ

pub record HistoryPartitionWindow : Type 0 where
  pub cutoff_day : ℕ
  pub last_future_day : ℕ
  pub days : List ℕ

pub record PartitionChange : Type 0 where
  pub day : ℕ
  pub name : List ℕ
  pub sql : List ℕ

pub record HistoryPartitionPlan : Type 0 where
  pub cutoff_day : ℕ
  pub last_future_day : ℕ
  pub create : List PartitionChange
  pub drop : List PartitionChange

-- The time of day is midnight.
unfoldable pub assert_whole_day : ℕ → Bool
assert_whole_day day = day % day_ms == 0

unfoldable pub utc_day_start : ℕ → ℕ
utc_day_start input =
    date_utc (get_utc_full_year input) (get_utc_month input + 1) (get_utc_date input)

unfoldable pub add_utc_days : ℕ → ℤ → Option ℕ
add_utc_days day days =
    if assert_whole_day day
    then some (day + pos_part days * day_ms - neg_part days * day_ms)
    else none

unfoldable pub history_retention_cutoff_day : ℕ → HistoryPartitionPolicy → Option ℕ
history_retention_cutoff_day now policy =
    add_utc_days (utc_day_start now) (pos 0 -ℤ pos (policy.retention_days + policy.safety_days))

-- `occurred` is the date of the text, or `none` if it is none.
unfoldable pub is_history_event_retained : Option ℕ → ℕ → HistoryPartitionPolicy → Option Bool
is_history_event_retained none now policy = some false
is_history_event_retained (some occurred) now policy = do
  cutoff ← history_retention_cutoff_day now policy
  some (leb cutoff occurred)

-- The loop of the window, with `fuel` rounds at most.
unfoldable pub days_through : ℕ → ℕ → ℕ → Option (List ℕ)
days_through zero day last = some []
days_through (suc fuel) day last =
    let rest = add_utc_days day (pos 1) >>= λ next. days_through fuel next last in
    if leb day last then (do days ← rest; some (day ∷ days)) else some []

-- A day for each of the policy's, and one more.
abbrev pub window_fuel : HistoryPartitionPolicy → ℕ
window_fuel policy = policy.retention_days + policy.safety_days + policy.precreate_days + 2

unfoldable pub history_partition_window : ℕ → HistoryPartitionPolicy → Option HistoryPartitionWindow
history_partition_window now policy = do
  cutoff ← history_retention_cutoff_day now policy
  last ← add_utc_days (utc_day_start now) (pos policy.precreate_days)
  days ← days_through (window_fuel policy) cutoff last
  some (record { cutoff_day = cutoff; last_future_day = last; days = days })

abbrev pub pad : ℕ → List ℕ
pad n = pad_start 2 (to_string n)

unfoldable pub partition_name_for_day : ℕ → Option (List ℕ)
partition_name_for_day day =
    if assert_whole_day day
    then some (
        join (
          history_partition_parent
          ∷ codes "_y"
          ∷ to_string (get_utc_full_year day)
          ∷ codes "m"
          ∷ pad (get_utc_month day + 1)
          ∷ codes "d"
          ∷ pad (get_utc_date day)
          ∷ []))
    else none

-- `$` of a pattern
abbrev pub at_end {ℓ} : {A : Type ℓ} → List ℕ → A → Option A
at_end [] a = some a
at_end (c ∷ s) a = none

-- The pattern's three groups, if the whole name matches.
unfoldable pub match_partition : List ℕ → Option (ℕ × ℕ × ℕ)
match_partition name = do
  rest ← after (history_partition_parent ++ codes "_y") name
  (year, rest) ← number 4 0 rest
  rest ← after (codes "m") rest
  (month, rest) ← number 2 0 rest
  rest ← after (codes "d") rest
  (day, rest) ← number 2 0 rest
  at_end rest (year, month, day)

unfoldable pub parse_history_partition_day : List ℕ → Option ℕ
parse_history_partition_day name = do
  (year, month, day) ← match_partition name
  let parsed = date_utc year month day
  if get_utc_full_year parsed == year
        && get_utc_month parsed + 1 == month
        && get_utc_date parsed == day
      then some parsed
      else none

-- `/^[a-z_][a-z0-9_]*$/`
abbrev pub is_identifier_start : ℕ → Bool
is_identifier_start c = leb b'a' c && leb c b'z' || c == b'_'

abbrev pub is_identifier_rest : List ℕ → Bool
is_identifier_rest [] = true
is_identifier_rest (c ∷ s) =
    (is_identifier_start c || leb b'0' c && leb c b'9') && is_identifier_rest s

unfoldable pub is_identifier : List ℕ → Bool
is_identifier [] = false
is_identifier (c ∷ s) = is_identifier_start c && is_identifier_rest s

unfoldable pub quote_identifier : List ℕ → Option (List ℕ)
quote_identifier identifier =
    if is_identifier identifier
    then some (join (codes "\"" ∷ identifier ∷ codes "\"" ∷ []))
    else none

-- `toISOString` of a date of the years 0 to 9999; later years are written with six digits.
unfoldable pub to_iso_string : ℕ → List ℕ
to_iso_string t =
    let year = get_utc_full_year t in
    join (
      (if ltb year 10000
        then pad_start 4 (to_string year)
        else codes "+" ++ pad_start 6 (to_string year))
      ∷ codes "-"
      ∷ pad (get_utc_month t + 1)
      ∷ codes "-"
      ∷ pad (get_utc_date t)
      ∷ codes "T"
      ∷ pad (t / 3600000 % 24)
      ∷ codes ":"
      ∷ pad (t / 60000 % 60)
      ∷ codes ":"
      ∷ pad (t / 1000 % 60)
      ∷ codes "."
      ∷ pad_start 3 (to_string (t % 1000))
      ∷ codes "Z"
      ∷ [])

unfoldable pub create_partition_sql : ℕ → Option (List ℕ)
create_partition_sql day = do
  name ← partition_name_for_day day
  next ← add_utc_days day (pos 1)
  quoted ← quote_identifier name
  parent ← quote_identifier history_partition_parent
  some (
      join (
        codes "CREATE TABLE IF NOT EXISTS "
        ∷ quoted
        ∷ codes " PARTITION OF "
        ∷ parent
        ∷ codes " FOR VALUES FROM ('"
        ∷ to_iso_string day
        ∷ codes "') TO ('"
        ∷ to_iso_string next
        ∷ codes "')"
        ∷ []))

unfoldable pub drop_partition_sql : List ℕ → Option (List ℕ)
drop_partition_sql name = do
  quoted ← quote_identifier name
  some (codes "DROP TABLE IF EXISTS " ++ quoted)

-- One round of the loop over the existing partitions, once the name is parsed.
unfoldable pub drop_parsed : ℕ → List ℕ → Option ℕ → Option (List PartitionChange)
drop_parsed cutoff name none = some []
drop_parsed cutoff name (some day) =
    if ltb day cutoff
    then (do
      sql ← drop_partition_sql name
      some (record { day = day; name = name; sql = sql } ∷ []))
    else some []

unfoldable pub drop_of : ℕ → List ℕ → Option (List PartitionChange)
drop_of cutoff name = drop_parsed cutoff name (parse_history_partition_day name)

unfoldable pub collect_drops : ℕ → List (List ℕ) → Option (List PartitionChange)
collect_drops cutoff [] = some []
collect_drops cutoff (name ∷ names) = do
  first ← drop_of cutoff name
  rest ← collect_drops cutoff names
  some (first ++ rest)

-- A stable sort by day, as `Array.prototype.sort` is.
unfoldable pub insert_by_day : PartitionChange → List PartitionChange → List PartitionChange
insert_by_day c [] = c ∷ []
insert_by_day c (d ∷ ds) = if leb c.day d.day then c ∷ d ∷ ds else d ∷ insert_by_day c ds

unfoldable pub sort_by_day : List PartitionChange → List PartitionChange
sort_by_day [] = []
sort_by_day (c ∷ cs) = insert_by_day c (sort_by_day cs)

unfoldable pub create_of : ℕ → Option PartitionChange
create_of day = do
  name ← partition_name_for_day day
  sql ← create_partition_sql day
  some (record { day = day; name = name; sql = sql })

unfoldable pub plan_history_partition_maintenance :
    List (List ℕ) → ℕ → HistoryPartitionPolicy → Option HistoryPartitionPlan
plan_history_partition_maintenance existing now policy = do
  window ← history_partition_window now policy
  drop ← collect_drops window.cutoff_day existing
  create ← map_all create_of window.days
  some (record {
    cutoff_day = window.cutoff_day;
    last_future_day = window.last_future_day;
    create = create;
    drop = sort_by_day drop;
  })

unfoldable pub next_daily_maintenance_delay_ms : ℕ → ℕ → ℕ → ℕ
next_daily_maintenance_delay_ms now hour_utc minute_utc =
    let next = utc_day_start now + hour_utc * 3600000 + minute_utc * 60000 in
    (if leb next now then next + day_ms else next) - now
