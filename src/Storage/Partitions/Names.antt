-- ===== src/Storage/Partitions/Names.antt =====
-- The names of partitions.
use ais_tracking_system.Prelude.{
  ℕ, ◌+◌, ◌%◌, ◌==◌, ◌≤◌, ◌<◌, ◌≡◌, refl, arith, ◌∙◌, some, List, [], ◌∷◌, ◌++◌, if◌then◌else◌,
}
use ais_tracking_system.Prelude.Throws.{◌>>=◌, >>=-some}
use ais_tracking_system.Storage.Calendar.{
  day_ms, get_utc_full_year, get_utc_month, get_utc_date, date_utc, date_utc-fields,
  get_utc_month-lt, get_utc_date-lt,
}
use ais_tracking_system.Storage.Digits.{
  codes, join, to_string, after-append, number-decimal_two, number-decimal_four,
}
use ais_tracking_system.Storage.Partitions.{
  history_partition_parent, assert_whole_day, pad, partition_name_for_day, match_partition,
  parse_history_partition_day,
}

match-name :
    (y m d : ℕ)
    → 1000 ≤ y
    → y < 10000
    → m < 100
    → d < 100
    → match_partition (
        join (
          history_partition_parent
          ∷ codes "_y"
          ∷ to_string y
          ∷ codes "m"
          ∷ pad m
          ∷ codes "d"
          ∷ pad d
          ∷ []))
      ≡ some (y, m, d)
unfolding match_partition
match-name y m d lo hi hm hd =
    let day = pad d ++ [] in
    let month = codes "m" ++ (pad m ++ (codes "d" ++ day)) in
    >>=-some _ _ (after-append (history_partition_parent ++ codes "_y") (to_string y ++ month)) (
      >>=-some _ _ (number-decimal_four y month lo hi) (
        >>=-some _ _ (after-append (codes "m") (pad m ++ (codes "d" ++ day))) (
          >>=-some _ _ (number-decimal_two m (codes "d" ++ day) hm) (
            >>=-some _ _ (after-append (codes "d") day)
              (>>=-some _ _ (number-decimal_two d [] hd) refl)))))

-- The fields of a whole day give it back.
whole_day-again :
    (day : ℕ)
    → day % day_ms ≡ 0
    → 100 ≤ get_utc_full_year day
    → date_utc (get_utc_full_year day) (get_utc_month day + 1) (get_utc_date day) ≡ day
whole_day-again day w h = date_utc-fields day h ∙ omega (arith, w)

parse-match :
    (name : List ℕ) (day : ℕ)
    → match_partition name ≡ some (get_utc_full_year day, get_utc_month day + 1, get_utc_date day)
    → date_utc (get_utc_full_year day) (get_utc_month day + 1) (get_utc_date day) ≡ day
    → parse_history_partition_day name ≡ some day
unfolding parse_history_partition_day
parse-match name day e f = >>=-some _ _ e (rw f (ground arith))

-- The name of a partition is parsed to the day that it was made for, if that is a whole day of the
-- years 1000 to 9999.
pub parse-partition_name :
    (day : ℕ)
    → day % day_ms ≡ 0
    → 1000 ≤ get_utc_full_year day
    → get_utc_full_year day < 10000
    → (partition_name_for_day day >>= parse_history_partition_day) ≡ some day
unfolding partition_name_for_day assert_whole_day
parse-partition_name day w lo hi = >>=-some _ _ (if_true _ _ w) (
    parse-match _ day
      (match-name _ _ _ lo hi (omega (arith, get_utc_month-lt day))
        (omega (arith, get_utc_date-lt day)))
      (whole_day-again day w (omega (arith, lo))))
  where
    if_true : {A : Type 0} (a b : A) → day % day_ms ≡ 0 → (if day % day_ms == 0 then a else b) ≡ a
    if_true a b h = ground arith
