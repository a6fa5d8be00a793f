-- ===== src/Storage/Queries/Rows.antt =====
-- The rows that the queries give.
use Prim.Native.String.{String}
use mathlib.Core.List.{Perm}
use mathlib.Core.List.Perm
use ais_tracking_system.Prelude.{
  ℕ, zero, suc, ◌-◌, ◌≤◌, ◌≡◌, arith, Bool, true, List, [], ◌∷◌, All, keep, length, if_cases,
}
use ais_tracking_system.Prelude.Double.{Double}
use ais_tracking_system.Pipeline.Coverage.{Bbox}
use ais_tracking_system.Storage.Repository.{Tables}
use ais_tracking_system.Storage.Queries.{
  insert_sorted, order_by, limit, is_shown, find_latest_in_bboxes, join_vessels, track_rows,
  is_in_track,
}

module _ {A : Type 0} (goes_before : A → A → Bool) where
  insert_sorted-All :
      (P : A → Type 0) (x : A) (ys : List A)
      → P x
      → All P ys
      → All P (insert_sorted goes_before x ys)
  unfolding insert_sorted
  insert_sorted-All P x [] p h = (p, tt)
  insert_sorted-All P x (y ∷ ys) p h =
      if_cases (All P) (goes_before x y) _ _ (λ e. (p, h))
        (λ e. (h.0, insert_sorted-All P x ys p h.1))

  order_by-All : (P : A → Type 0) (xs : List A) → All P xs → All P (order_by goes_before xs)
  unfolding order_by
  order_by-All P [] h = tt
  order_by-All P (x ∷ xs) h =
      insert_sorted-All P x (order_by goes_before xs) h.0 (order_by-All P xs h.1)

  insert_sorted-perm : (x : A) (ys : List A) → Perm (insert_sorted goes_before x ys) (x ∷ ys)
  unfolding insert_sorted
  insert_sorted-perm x [] = Perm.refl _
  insert_sorted-perm x (y ∷ ys) =
      if_cases (λ zs. Perm zs (x ∷ y ∷ ys)) (goes_before x y) _ _ (λ e. Perm.refl _)
        (λ e. Perm.trans (Perm.cons y (insert_sorted-perm x ys)) (Perm.swap x y ys))

  order_by-perm : (xs : List A) → Perm (order_by goes_before xs) xs
  unfolding order_by
  order_by-perm [] = Perm.refl _
  order_by-perm (x ∷ xs) =
      Perm.trans (insert_sorted-perm x (order_by goes_before xs)) (Perm.cons x (order_by-perm xs))

limit-All : {A : Type 0} (P : A → Type 0) (n : ℕ) (xs : List A) → All P xs → All P (limit n xs)
unfolding limit
limit-All P zero xs h = tt
limit-All P (suc n) [] h = tt
limit-All P (suc n) (x ∷ xs) h = (h.0, limit-All P n xs h.1)

length-limit : {A : Type 0} (n : ℕ) (xs : List A) → length (limit n xs) ≤ n
unfolding limit
length-limit zero xs = omega arith
length-limit (suc n) [] = omega arith
length-limit (suc n) (x ∷ xs) = omega (arith, length-limit n xs)

keep-All : {A : Type 0} (p : A → Bool) (xs : List A) → All (λ x. p x ≡ true) (keep p xs)
keep-All p [] = tt
keep-All p (x ∷ xs) =
    if_cases (All (λ y. p y ≡ true)) (p x) (x ∷ keep p xs) (keep p xs) (λ e. (e, keep-All p xs))
      (λ e. keep-All p xs)

-- The snapshot has as many rows as the limit at most, and each was seen within the time asked for and
-- in one of the boxes.
pub latest-AllShown :
    (intersects : Double → Double → Bbox → Bool) (bboxes : List Bbox) (now since_ms n : ℕ)
    (tables : Tables)
    → (let rows = find_latest_in_bboxes intersects bboxes now since_ms n tables in
        (length rows ≤ n) × All (λ r. is_shown intersects bboxes (now - since_ms) r ≡ true) rows)
unfolding find_latest_in_bboxes
latest-AllShown intersects [] now since_ms n tables = (omega arith, tt)
latest-AllShown intersects (b ∷ bs) now since_ms n tables = (
  length-limit n _,
  limit-All _ n _ (
      order_by-All _ _ _ (
        keep-All (is_shown intersects (b ∷ bs) (now - since_ms))
          (join_vessels tables.vessels tables.vessel_positions_latest))),
)

-- A track has exactly the history rows of its vessel and its time.
pub track_rows-perm :
    (vessel_id : String) (from to : ℕ) (tables : Tables)
    → Perm
        (track_rows vessel_id from to tables)
        (keep (is_in_track vessel_id from to) tables.vessel_positions_history)
unfolding track_rows
track_rows-perm vessel_id from to tables = order_by-perm _ _
