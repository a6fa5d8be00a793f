-- ===== src/Storage/Repository/Held.antt =====
-- A position that the tables hold, whatever is written afterwards.
use mathlib.Core.Option.{some-injective}
use ais_tracking_system.Prelude.{
  ℕ, String, ◌≡◌, refl, sym, ap, subst, ◌∙◌, arith, Bool, true, false, Option, none, some, or_else,
  List, [], ◌∷◌, any, any-append, if_pos, if_neg, if_cases, str_discrete,
}
use ais_tracking_system.Prelude.StringMap.{StringMap, get, put, get-put}
use ais_tracking_system.Prelude.Throws.{>>=-eq-some}
use ais_tracking_system.Contracts.{PositionEvent, StaticEvent}
use ais_tracking_system.Storage.Repository.{
  Fix, HistoryRow, Tables, Repository, Moment, Times, PersistedVesselSummary, VesselRow, latest_row,
  upsert_latest_position, same_key, insert_position_history, upsert_vessel_from_position, fix_of,
  vessel_from_position, vessel_from_profile, position_transaction, to_persisted_vessel_summary,
  write_profile, dimensions_fit, commit_position, count_stale, unless_stale, upsert_position,
  upsert_profile, drop_if_stale_telemetry,
}
use ais_tracking_system.Storage.Repository.Latest.{
  IsCovered, put-IsCovered, get-upserted, latest_row-later,
}
use ais_tracking_system.Storage.Repository.Redelivery.{insert-IsInserted, or_else-again}
use ais_tracking_system.Storage.Repository.Profile.{
  Call, of_position, of_profile, perform, perform_all,
}

or_else-keeps :
    {A : Type 0} (a b c : Option A) → or_else a c ≡ a → or_else (or_else a b) c ≡ or_else a b
or_else-keeps none none c h = h
or_else-keeps none (some b) c h = refl
or_else-keeps (some a) b c h = refl

or_else-after :
    {A : Type 0} (a b c : Option A) → or_else b c ≡ b → or_else (or_else a b) c ≡ or_else a b
or_else-after none b c h = h
or_else-after (some a) b c h = refl

insert-present :
    (times : Times) (id id' : String) (time : ℕ) (f : Fix) (before after : Tables)
    → insert_position_history times id' f before ≡ some after
    → any (same_key id time) before.vessel_positions_history ≡ true
    → any (same_key id time) after.vessel_positions_history ≡ true
unfolding insert_position_history
insert-present times id id' time f before after e h =
    let new : HistoryRow = record { vessel_id = id'; fix = f } in
    ground (arith, any-append (same_key id time) before.vessel_positions_history (new ∷ []))

module _ (event : PositionEvent) (id : String) (time : ℕ) where
  -- The vessel's row, which has a name if the event gives one.
  abbrev pub IsNamed : VesselRow → Type 0
  IsNamed row = (row.id ≡ id) × (or_else row.name event.ship_name ≡ row.name)

  abbrev pub IsKnown : StringMap VesselRow → Type 0
  IsKnown vessels = (row : VesselRow) × (get event.mmsi vessels ≡ some row) × IsNamed row

  abbrev pub held_row : HistoryRow
  held_row = record { vessel_id = id; fix = fix_of event time }

  -- The event is in the tables.
  pub record IsHeld (tables : Tables) : Type 0 where
    pub known : IsKnown tables.vessels
    pub present : any (same_key id time) tables.vessel_positions_history ≡ true
    pub covered : IsCovered tables.vessel_positions_latest held_row

  put-IsKnown :
      (k : String) (v : VesselRow) (vessels : StringMap VesselRow)
      → IsKnown vessels
      → ((row : VesselRow) → get k vessels ≡ some row → IsNamed row → IsNamed v)
      → IsKnown (put k v vessels)
  put-IsKnown k v vessels (row, e, named) f = elim (str_discrete k event.mmsi) [
    | yes p ↦ (
      v,
      get-put k event.mmsi v vessels ∙ if_pos (str_discrete k event.mmsi) p _ _,
      f row (subst (λ j. get j vessels ≡ some row) (sym p) e) named,
    )
    | no n ↦
        (row, get-put k event.mmsi v vessels ∙ if_neg (str_discrete k event.mmsi) n _ _ ∙ e, named)
  ]

  position_transaction-IsHeld :
      (times : Times) (at : Moment) (ev : PositionEvent) (tables : Tables)
      (r : PersistedVesselSummary × Tables)
      → IsHeld tables
      → position_transaction times at ev tables ≡ some r
      → IsHeld r.1
  unfolding position_transaction upsert_vessel_from_position vessel_from_position
      upsert_latest_position
  position_transaction-IsHeld times at ev tables (summary, stored) h e =
      let (t, f, g) = >>=-eq-some (times.timestamp ev.occurred_at) _ e in
      let row = vessel_from_position at ev (get ev.mmsi tables.vessels) in
      let fix = fix_of ev t in
      let written : Tables = record tables { vessels = put ev.mmsi row tables.vessels } in
      let (after, a, k) =
        >>=-eq-some
          (insert_position_history times row.id fix (upsert_latest_position at row.id fix written))
          _ g in
      let i = insert-IsInserted times row.id fix _ after a in
      let same : after ≡ stored = ap (λ p. p.1) (some-injective _ _ k) in
      subst IsHeld same (record {
        known = subst IsKnown (sym i.vessels) (
            put-IsKnown ev.mmsi row tables.vessels h.known (λ found q named.
              rw q (named.0, or_else-keeps found.name ev.ship_name event.ship_name named.1)));
        present = insert-present times id row.id time fix _ after a h.present;
        covered =
            subst (λ m. IsCovered m held_row) (sym i.latest)
              (put-IsCovered at row.id fix tables.vessel_positions_latest held_row h.covered);
      })

  write_profile-IsHeld :
      (at : Moment) (e : StaticEvent) (s : Repository)
      → IsHeld s.tables
      → IsHeld (write_profile at e s).1.tables
  unfolding write_profile vessel_from_profile
  write_profile-IsHeld at e s h =
      if_cases (λ (r : Option (Option PersistedVesselSummary) × Repository). IsHeld r.1.tables)
        (dimensions_fit e) _ (none, s)
        (λ q. record {
          known = put-IsKnown e.mmsi _ s.tables.vessels h.known (λ found q named.
              rw q (named.0, or_else-after e.name found.name event.ship_name named.1));
          present = h.present;
          covered = h.covered;
        })
        (λ q. h)

  commit-IsHeld :
      (s : Repository) (o : Option (PersistedVesselSummary × Tables))
      → IsHeld s.tables
      → ((r : PersistedVesselSummary × Tables) → o ≡ some r → IsHeld r.1)
      → IsHeld (commit_position s o).1.tables
  commit-IsHeld s none h f = h
  commit-IsHeld s (some r) h f = f r refl

  unless_stale-IsHeld :
      (s : Repository) (o : Option Bool)
      (f : Repository → Option (Option PersistedVesselSummary) × Repository)
      → IsHeld s.tables
      → IsHeld (f s).1.tables
      → IsHeld (unless_stale (count_stale s o) f).1.tables
  unless_stale-IsHeld s none f h k = h
  unless_stale-IsHeld s (some true) f h k = k
  unless_stale-IsHeld s (some false) f h k = h

  perform-IsHeld :
      (times : Times) (days : ℕ) (c : Call) (s : Repository)
      → IsHeld s.tables
      → IsHeld (perform times days c s).tables
  unfolding upsert_position upsert_profile drop_if_stale_telemetry
  perform-IsHeld times days (of_position at ev) s h =
      unless_stale-IsHeld s _ (λ s. commit_position s (position_transaction times at ev s.tables)) h
        (commit-IsHeld s (position_transaction times at ev s.tables) h
          (λ r. position_transaction-IsHeld times at ev s.tables r h))
  perform-IsHeld times days (of_profile at e) s h =
      unless_stale-IsHeld s _ (write_profile at e) h (write_profile-IsHeld at e s h)

  pub perform_all-IsHeld :
      (times : Times) (days : ℕ) (calls : List Call) (s : Repository)
      → IsHeld s.tables
      → IsHeld (perform_all times days calls s).tables
  perform_all-IsHeld times days [] s h = h
  perform_all-IsHeld times days (c ∷ cs) s h =
      perform_all-IsHeld times days cs (perform times days c s) (perform-IsHeld times days c s h)

-- The tables that a transaction leaves hold its event.
pub stored-IsHeld :
    (times : Times) (at : Moment) (event : PositionEvent) (tables stored : Tables)
    (summary : PersistedVesselSummary)
    → position_transaction times at event tables ≡ some (summary, stored)
    → (time : ℕ) × (times.timestamp event.occurred_at ≡ some time)
      × (times.has_partition time ≡ true)
      × IsHeld event summary.vessel_id time stored
unfolding position_transaction upsert_vessel_from_position vessel_from_position
    upsert_latest_position to_persisted_vessel_summary fix_of
stored-IsHeld times at event tables stored summary e =
    let (time, f, g) = >>=-eq-some (times.timestamp event.occurred_at) _ e in
    let row = vessel_from_position at event (get event.mmsi tables.vessels) in
    let fix = fix_of event time in
    let written : Tables = record tables { vessels = put event.mmsi row tables.vessels } in
    let (after, a, k) =
      >>=-eq-some
        (insert_position_history times row.id fix (upsert_latest_position at row.id fix written)) _
        g in
    let i = insert-IsInserted times row.id fix _ after a in
    let pair : (to_persisted_vessel_summary row, after) ≡ (summary, stored) =
      some-injective _ _ k in
    (
      time,
      f,
      i.partition,
      subst (λ (p : PersistedVesselSummary × Tables). IsHeld event p.0.vessel_id time p.1) pair
          (record {
            known = (
              row,
              ap (get event.mmsi) i.vessels
                  ∙ get-put event.mmsi event.mmsi row tables.vessels
                  ∙ if_pos (str_discrete event.mmsi event.mmsi) refl _ _,
              (refl, or_else-again _ event.ship_name),
            );
            present = i.present;
            covered = (
              latest_row at fix (get row.id tables.vessel_positions_latest),
              ap (get row.id) i.latest ∙ get-upserted at row.id fix tables.vessel_positions_latest,
              latest_row-later at fix _,
            );
          }),
    )
