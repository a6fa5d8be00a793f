-- ===== src/Storage/Repository/Latest.antt =====
-- The latest positions beside the history, and the transaction that writes both.
use ais_tracking_system.Prelude.{
  String, ◌≤◌, ◌≡◌, ◌≢◌, refl, sym, ap, subst, ◌∙◌, arith, false, Option, none, some, List, [], ◌∷◌,
  ◌++◌, any, any-append, All, All-append, if_pos, if_neg, str_discrete, Bool-cases, inl, inr,
}
use ais_tracking_system.Prelude.StringMap.{StringMap, get, put, get-put}
use ais_tracking_system.Prelude.Throws.{>>=-eq-some}
use ais_tracking_system.Contracts.{PositionEvent}
use ais_tracking_system.Storage.Repository.{
  Fix, LatestRow, HistoryRow, Tables, Moment, Times, PersistedVesselSummary, latest_row,
  upsert_latest_position, same_key, insert_position_history, upsert_vessel_from_position, fix_of,
  position_transaction,
}

-- Two fixes of a vessel at different times, in either order.
pub latest_row_comm :
    (at at' : Moment) (f g : Fix) (found : Option LatestRow)
    → f.mmsi ≡ g.mmsi
    → f.occurred_at ≢ g.occurred_at
    → (latest_row at' g (some (latest_row at f found))).fix
      ≡ (latest_row at f (some (latest_row at' g found))).fix
unfolding latest_row
latest_row_comm at at' f g none m h = ground arith
latest_row_comm at at' f g (some row) m h = ground arith

-- The latest fix of the vessel of a row of the history is at least as late.
abbrev pub IsCovered : StringMap LatestRow → HistoryRow → Type 0
IsCovered latest h =
    (row : LatestRow) × (get h.vessel_id latest ≡ some row)
    × (h.fix.occurred_at ≤ row.fix.occurred_at)

-- No vessel has two rows of one time.
abbrev pub IsUnique : List HistoryRow → Type 0
IsUnique [] = Unit {0}
IsUnique (h ∷ hs) = (any (same_key h.vessel_id h.fix.occurred_at) hs ≡ false) × IsUnique hs

pub record IsConsistent (tables : Tables) : Type 0 where
  pub covered : All (IsCovered tables.vessel_positions_latest) tables.vessel_positions_history
  pub unique : IsUnique tables.vessel_positions_history

pub latest_row-later :
    (at : Moment) (f : Fix) (found : Option LatestRow)
    → f.occurred_at ≤ (latest_row at f found).fix.occurred_at
unfolding latest_row
latest_row-later at f none = omega arith
latest_row-later at f (some row) = ground arith

latest_row-keeps :
    (at : Moment) (f : Fix) (row : LatestRow)
    → row.fix.occurred_at ≤ (latest_row at f (some row)).fix.occurred_at
unfolding latest_row
latest_row-keeps at f row = ground arith

pub put-IsCovered :
    (at : Moment) (id : String) (f : Fix) (latest : StringMap LatestRow) (h : HistoryRow)
    → IsCovered latest h
    → IsCovered (put id (latest_row at f (get id latest)) latest) h
put-IsCovered at id f latest h (row, e, le) = elim (str_discrete id h.vessel_id) [
  | yes p ↦ (
    latest_row at f (some row),
    get-put id h.vessel_id _ latest
        ∙ if_pos (str_discrete id h.vessel_id) p _ _
        ∙ ap (λ o. some (latest_row at f o)) (subst (λ i. get i latest ≡ some row) (sym p) e),
    omega (arith, le, latest_row-keeps at f row),
  )
  | no n ↦
      (row, get-put id h.vessel_id _ latest ∙ if_neg (str_discrete id h.vessel_id) n _ _ ∙ e, le)
]

put-AllCovered :
    (at : Moment) (id : String) (f : Fix) (latest : StringMap LatestRow) (hs : List HistoryRow)
    → All (IsCovered latest) hs
    → All (IsCovered (put id (latest_row at f (get id latest)) latest)) hs
put-AllCovered at id f latest [] c = tt
put-AllCovered at id f latest (h ∷ hs) c =
    (put-IsCovered at id f latest h c.0, put-AllCovered at id f latest hs c.1)

-- The row itself is there after the write.
pub get-upserted :
    (at : Moment) (id : String) (f : Fix) (latest : StringMap LatestRow)
    → get id (put id (latest_row at f (get id latest)) latest)
      ≡ some (latest_row at f (get id latest))
get-upserted at id f latest = get-put id id _ latest ∙ if_pos (str_discrete id id) refl _ _

append-IsUnique :
    (hs : List HistoryRow) (h : HistoryRow)
    → any (same_key h.vessel_id h.fix.occurred_at) hs ≡ false
    → IsUnique hs
    → IsUnique (hs ++ h ∷ [])
append-IsUnique [] h e u = (refl, tt)
append-IsUnique (g ∷ hs) h e u = (
  rw (any-append (same_key g.vessel_id g.fix.occurred_at) hs (h ∷ [])) (ground arith),
  append-IsUnique hs h (ground arith) u.1,
)

pub insert-IsConsistent :
    (times : Times) (at : Moment) (id : String) (f : Fix) (before after : Tables)
    → IsConsistent before
    → insert_position_history times id f (upsert_latest_position at id f before) ≡ some after
    → IsConsistent after
unfolding insert_position_history upsert_latest_position
insert-IsConsistent times at id f before after c e =
    let id_key = same_key id f.occurred_at in
    let latest =
      put id (latest_row at f (get id before.vessel_positions_latest))
        before.vessel_positions_latest in
    let covered =
      put-AllCovered at id f before.vessel_positions_latest before.vessel_positions_history
        c.covered in
    let kept : Tables = record before { vessel_positions_latest = latest } in
    let new : HistoryRow = record { vessel_id = id; fix = f } in
    let added : Tables = record kept {
      vessel_positions_history = before.vessel_positions_history ++ new ∷ [];
    } in
    elim (Bool-cases (any id_key before.vessel_positions_history)) [
      | inl p ↦
          let same : kept ≡ after = ground arith in
          subst IsConsistent same (record { covered = covered; unique = c.unique })
      | inr p ↦
          let same : added ≡ after = ground arith in
          subst IsConsistent same (record {
            covered =
                All-append (IsCovered latest) before.vessel_positions_history (new ∷ []) covered (
                  (_, get-upserted at id f before.vessel_positions_latest, latest_row-later at f _),
                  tt,
                );
            unique = append-IsUnique before.vessel_positions_history new p c.unique;
          })
    ]

-- The transaction of a position.
pub position_transaction-IsConsistent :
    (times : Times) (at : Moment) (event : PositionEvent) (tables : Tables)
    (result : PersistedVesselSummary × Tables)
    → IsConsistent tables
    → position_transaction times at event tables ≡ some result
    → IsConsistent result.1
unfolding position_transaction upsert_vessel_from_position
position_transaction-IsConsistent times at event tables result c e =
    let (time, f, g) = >>=-eq-some (times.timestamp event.occurred_at) _ e in
    let (row, written) = upsert_vessel_from_position at event tables in
    let start : IsConsistent written = record { covered = c.covered; unique = c.unique } in
    let (stored, h, k) =
      >>=-eq-some
        (insert_position_history times row.id (fix_of event time)
          (upsert_latest_position at row.id (fix_of event time) written))
        _ g in
    let same : stored ≡ result.1 = ground arith in
    subst IsConsistent same
      (insert-IsConsistent times at row.id (fix_of event time) written stored start h)
