-- ===== src/Storage/Partitions/Window.antt =====
-- The days of the window, counted in whole days.
use ais_tracking_system.Prelude.{
  ℕ, zero, suc, ◌+◌, ◌-◌, ◌*◌, ◌/◌, ◌%◌, ◌≤◌, ◌<◌, ◌≡◌, refl, arith, ◌∙◌, some, List, [], ◌∷◌,
  if_then, if_else, leb, dec_le,
}
use ais_tracking_system.Prelude.Int.{ℤ, pos, pos_part, neg_part, ◌-ℤ◌}
use ais_tracking_system.Prelude.Throws.{>>=-some}
use ais_tracking_system.Storage.Calendar.{day_ms, get_utc_full_year, date_utc-fields}
use ais_tracking_system.Storage.Partitions.{
  HistoryPartitionPolicy, assert_whole_day, utc_day_start, add_utc_days,
  history_retention_cutoff_day, days_through, history_partition_window,
  next_daily_maintenance_delay_ms,
}

-- n days from the k-th on.
abbrev pub days_from : ℕ → ℕ → List ℕ
days_from k zero = []
days_from k (suc n) = k * day_ms ∷ days_from (k + 1) n

add_utc_days-whole :
    (k : ℕ) (n : ℤ) → add_utc_days (k * day_ms) n ≡ some ((k + pos_part n - neg_part n) * day_ms)
unfolding add_utc_days assert_whole_day
add_utc_days-whole k n = ground arith

pub add_utc_days-pos : (k n : ℕ) → add_utc_days (k * day_ms) (pos n) ≡ some ((k + n) * day_ms)
unfolding add_utc_days assert_whole_day
add_utc_days-pos k n = ground arith

pub utc_day_start-day :
    (now : ℕ) → 100 ≤ get_utc_full_year now → utc_day_start now ≡ now / day_ms * day_ms
unfolding utc_day_start
utc_day_start-day now h = date_utc-fields now h

pub cutoff-day :
    (now : ℕ) (policy : HistoryPartitionPolicy)
    → 100 ≤ get_utc_full_year now
    → history_retention_cutoff_day now policy
      ≡ some ((now / day_ms - (policy.retention_days + policy.safety_days)) * day_ms)
unfolding history_retention_cutoff_day ◌-ℤ◌
cutoff-day now policy h =
    rw (utc_day_start-day now h) (add_utc_days-whole (now / day_ms) _ ∙ ground arith)

days_through-days_from :
    (fuel k l : ℕ)
    → l < k + fuel
    → days_through fuel (k * day_ms) (l * day_ms) ≡ some (days_from k (l + 1 - k))
unfolding days_through
days_through-days_from zero k l h = let e : l + 1 - k ≡ 0 = omega (arith, h) in rw e refl
days_through-days_from (suc fuel) k l h = elim (dec_le k l) [
  | yes p ↦ if_then (leb (k * day_ms) (l * day_ms)) _ _ (ground arith) (
      >>=-some _ _
        (>>=-some _ _ (add_utc_days-pos k 1) (days_through-days_from fuel (k + 1) l (omega arith)))
        (more (l + 1 - k) (omega arith)))
  | no q ↦ if_else (leb (k * day_ms) (l * day_ms)) _ _ (ground arith) (rw (none_left q) refl)
]
  where
    more :
        (n : ℕ)
        → n ≡ suc (l + 1 - (k + 1))
        → some (k * day_ms ∷ days_from (k + 1) (l + 1 - (k + 1))) ≡ some (days_from k n)
    more n e = rw e refl

    none_left : ¬ (k ≤ l) → l + 1 - k ≡ 0
    none_left q = omega arith

last-day :
    (now : ℕ) (policy : HistoryPartitionPolicy)
    → 100 ≤ get_utc_full_year now
    → add_utc_days (utc_day_start now) (pos policy.precreate_days)
      ≡ some ((now / day_ms + policy.precreate_days) * day_ms)
last-day now policy h =
    rw (utc_day_start-day now h) (add_utc_days-pos (now / day_ms) policy.precreate_days)

pub history_partition_window-days :
    (now : ℕ) (policy : HistoryPartitionPolicy)
    → 100 ≤ get_utc_full_year now
    → history_partition_window now policy ≡ (
        let today = now / day_ms in
        let first = today - (policy.retention_days + policy.safety_days) in
        let last = today + policy.precreate_days in
        some (record {
          cutoff_day = first * day_ms;
          last_future_day = last * day_ms;
          days = days_from first (last + 1 - first);
        }))
unfolding history_partition_window
history_partition_window-days now policy h = >>=-some _ _ (cutoff-day now policy h) (
    >>=-some _ _ (last-day now policy h)
      (>>=-some _ _ (days_through-days_from _ _ _ (omega arith)) refl))

pub delay-bounds :
    (now hour minute : ℕ)
    → 100 ≤ get_utc_full_year now
    → hour < 24
    → minute < 60
    → (0 < next_daily_maintenance_delay_ms now hour minute)
      × (next_daily_maintenance_delay_ms now hour minute ≤ day_ms)
      × ((now + next_daily_maintenance_delay_ms now hour minute) % day_ms
          ≡ hour * 3600000 + minute * 60000)
unfolding next_daily_maintenance_delay_ms
delay-bounds now hour minute h hh hm = rw (utc_day_start-day now h) (ground arith)
