-- ===== src/Storage/Calendar.antt =====
-- The `Date` of JavaScript as far as the partitions use it: a date is the number of milliseconds
-- since 0000-03-01T00:00:00.000Z, so that a year of the count starts with March and ends with its
-- leap day. Earlier dates have no number here.
use ais_tracking_system.Prelude.{
  ℕ, ◌+◌, ◌-◌, ◌*◌, ◌/◌, ◌%◌, ◌≤◌, ◌<◌, min, ◌≡◌, refl, ap, ◌∙◌, arith, ltb, if◌then◌else◌,
}

abbrev pub day_ms : ℕ
day_ms = 24 * 60 * 60 * 1000

-- The days before the first of March of a year.
unfoldable pub days_before : ℕ → ℕ
days_before y = 365 * y + y / 4 - y / 100 + y / 400

-- The days before a month, counted from March.
unfoldable pub month_start : ℕ → ℕ
month_start m = (153 * m + 2) / 5

-- Centuries of 36524 days and years of 365, where the last of four is longer by a day.
unfoldable pub march_year : ℕ → ℕ
march_year z =
    let c = min 3 (z % 146097 / 36524) in
    let r = z % 146097 - c * 36524 in
    let y = min 3 (r % 1461 / 365) in 400 * (z / 146097) + 100 * c + 4 * (r / 1461) + y

unfoldable pub march_day : ℕ → ℕ
march_day z =
    let c = min 3 (z % 146097 / 36524) in
    let r = z % 146097 - c * 36524 in let y = min 3 (r % 1461 / 365) in r % 1461 - y * 365

-- The month of a day of such a year: 0 is March.
unfoldable pub march_month : ℕ → ℕ
march_month d = (5 * d + 2) / 153

-- Months since March of the year 0.
unfoldable pub months_of : ℕ → ℕ
months_of t = 12 * march_year (t / day_ms) + march_month (march_day (t / day_ms))

-- `getUTCFullYear`, `getUTCMonth` (0 is January) and `getUTCDate`
unfoldable pub get_utc_full_year : ℕ → ℕ
get_utc_full_year t = (months_of t + 2) / 12

unfoldable pub get_utc_month : ℕ → ℕ
get_utc_month t = (months_of t + 2) % 12

unfoldable pub get_utc_date : ℕ → ℕ
get_utc_date t = let d = march_day (t / day_ms) in d - month_start (march_month d) + 1

-- `Date.UTC` reads a year below 100 as one of the twentieth century.
unfoldable pub century : ℕ → ℕ
century y = if ltb y 100 then 1900 + y else y

-- `Date.UTC(y, m - 1, d)`: a month or a day out of its range carries over.
unfoldable pub date_utc : ℕ → ℕ → ℕ → ℕ
date_utc y m d =
    let months = 12 * century y + m - 3 in
    (days_before (months / 12) + month_start (months % 12) + d - 1) * day_ms

pub march_day-days_before : (z : ℕ) → days_before (march_year z) + march_day z ≡ z
unfolding days_before march_year march_day
march_day-days_before z = omega arith

march_day-lt : (z : ℕ) → march_day z < 366
unfolding march_day
march_day-lt z = omega arith

month_start-le : (d : ℕ) → month_start (march_month d) ≤ d
unfolding month_start march_month
month_start-le d = omega arith

march_month-lt : (z : ℕ) → march_month (march_day z) < 12
unfolding march_month
march_month-lt z = omega (arith, march_day-lt z)

-- The month that `Date.UTC` finds again.
months_again :
    (n : ℕ) → 100 ≤ (n + 2) / 12 → 12 * century ((n + 2) / 12) + ((n + 2) % 12 + 1) - 3 ≡ n
unfolding century
months_again n h = ground arith

fields_again :
    (y m d : ℕ)
    → m < 12
    → month_start m ≤ d
    → days_before ((12 * y + m) / 12)
        + month_start ((12 * y + m) % 12)
        + (d - month_start m + 1)
        - 1
      ≡ days_before y + d
fields_again y m d hm hd =
    let e : (12 * y + m) / 12 ≡ y = omega arith in
    let f : (12 * y + m) % 12 ≡ m = omega arith in rw (e, f) (omega arith)

-- The whole days of a date, from its fields.
pub date_utc-fields :
    (t : ℕ)
    → 100 ≤ get_utc_full_year t
    → date_utc (get_utc_full_year t) (get_utc_month t + 1) (get_utc_date t) ≡ t / day_ms * day_ms
unfolding get_utc_full_year get_utc_month get_utc_date date_utc months_of
date_utc-fields t h =
    let z = t / day_ms in
    rw (months_again (12 * march_year z + march_month (march_day z)) h) (
      ap (λ n. n * day_ms)
        (fields_again (march_year z) (march_month (march_day z)) (march_day z) (march_month-lt z)
            (month_start-le (march_day z))
          ∙ march_day-days_before z))

launch_year : get_utc_full_year (719468 * day_ms) ≡ 1970
unfolding get_utc_full_year months_of march_year march_month march_day
launch_year = refl

leap_day : get_utc_date (730484 * day_ms + 7) ≡ 29
unfolding get_utc_date month_start march_month march_day
leap_day = refl

pub get_utc_month-lt : (t : ℕ) → get_utc_month t < 12
unfolding get_utc_month
get_utc_month-lt t = omega arith

pub get_utc_date-lt : (t : ℕ) → get_utc_date t < 32
unfolding get_utc_date month_start march_month
get_utc_date-lt t = omega arith

pub date_utc-whole : (y m d : ℕ) → date_utc y m d % day_ms ≡ 0
unfolding date_utc
date_utc-whole y m d = omega arith
