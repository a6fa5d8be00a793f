-- ===== src/Storage/Writer/Published.antt =====
-- What the consumer publishes, and what its failure to publish changes.
use ais_tracking_system.Prelude.{
  ℕ, String, ◌≡◌, refl, arith, sym, ap, ◌∙◌, Bool, true, false, Option, none, some, List, [], ◌∷◌,
  ◌++◌, ◌⊎◌, inl, inr, if_pos, str_discrete, if_cases, is_some,
}
use ais_tracking_system.Prelude.StringMap.{get, put, get-put}
use ais_tracking_system.Prelude.Throws.{>>=-eq-some}
use ais_tracking_system.Contracts.{
  CanonicalEvent, position, static, PositionEvent, StaticEvent, VesselPersistedEvent,
}
use ais_tracking_system.Storage.Repository.{
  Repository, Tables, Moment, Times, PersistedVesselSummary, VesselRow, upsert_position,
  upsert_profile, to_persisted_vessel_summary, position_transaction, write_profile, unless_stale,
  count_stale, commit_position, drop_if_stale_telemetry, vessel_from_position,
  upsert_vessel_from_position, dimensions_fit, insert_position_history, upsert_latest_position,
  fix_of,
}
use ais_tracking_system.Storage.Repository.Redelivery.{insert-IsInserted}
use ais_tracking_system.Storage.Writer.{
  Publication, appended_if, WriterState, source_mmsi, source_kind, persisted_event,
  publish_persisted_event, persist, after_persist, store_event,
}

-- The summary is of a row that is stored.
abbrev pub IsStored : String → PersistedVesselSummary → Tables → Type 0
IsStored mmsi summary tables =
    (row : VesselRow) × (get mmsi tables.vessels ≡ some row)
    × (to_persisted_vessel_summary row ≡ summary)

abbrev pub AllStored : String → Option (Option PersistedVesselSummary) → Tables → Type 0
AllStored mmsi none tables = Unit {0}
AllStored mmsi (some none) tables = Unit {0}
AllStored mmsi (some (some summary)) tables = IsStored mmsi summary tables

get-put_self :
    {V : Type 0} (k : String) (v : V) (m : List (String × V)) → get k (put k v m) ≡ some v
get-put_self k v m = get-put k k v m ∙ if_pos (str_discrete k k) refl _ _

position_transaction-IsStored :
    (times : Times) (at : Moment) (event : PositionEvent) (tables : Tables)
    (r : PersistedVesselSummary × Tables)
    → position_transaction times at event tables ≡ some r
    → IsStored event.mmsi r.0 r.1
unfolding position_transaction upsert_vessel_from_position upsert_latest_position
position_transaction-IsStored times at event tables (summary, stored) e =
    let (time, f, g) = >>=-eq-some (times.timestamp event.occurred_at) _ e in
    let row = vessel_from_position at event (get event.mmsi tables.vessels) in
    let fix = fix_of event time in
    let written : Tables = record tables { vessels = put event.mmsi row tables.vessels } in
    let (after, h, k) =
      >>=-eq-some
        (insert_position_history times row.id fix (upsert_latest_position at row.id fix written)) _
        g in
    let i = insert-IsInserted times row.id fix _ after h in
    let same : after ≡ stored = ground arith in
    (
      row,
      ap (λ t. get event.mmsi t.vessels) (sym same)
          ∙ ap (get event.mmsi) i.vessels
          ∙ get-put_self event.mmsi row tables.vessels,
      ground arith,
    )

commit-AllStored :
    (mmsi : String) (s : Repository) (o : Option (PersistedVesselSummary × Tables))
    → ((r : PersistedVesselSummary × Tables) → o ≡ some r → IsStored mmsi r.0 r.1)
    → AllStored mmsi (commit_position s o).0 (commit_position s o).1.tables
commit-AllStored mmsi s none h = tt
commit-AllStored mmsi s (some r) h = h r refl

write_profile-AllStored :
    (at : Moment) (event : StaticEvent) (s : Repository)
    → AllStored event.mmsi (write_profile at event s).0 (write_profile at event s).1.tables
unfolding write_profile
write_profile-AllStored at event s =
    if_cases
      (λ (r : Option (Option PersistedVesselSummary) × Repository).
        AllStored event.mmsi r.0 r.1.tables)
      (dimensions_fit event) _ (none, s)
      (λ e. (_, get-put_self event.mmsi _ s.tables.vessels, refl)) (λ e. tt)

unless_stale-AllStored :
    (mmsi : String) (s : Repository) (o : Option Bool)
    (f : Repository → Option (Option PersistedVesselSummary) × Repository)
    → AllStored mmsi (f s).0 (f s).1.tables
    → (let r = unless_stale (count_stale s o) f in AllStored mmsi r.0 r.1.tables)
unless_stale-AllStored mmsi s none f h = tt
unless_stale-AllStored mmsi s (some true) f h = h
unless_stale-AllStored mmsi s (some false) f h = tt

persist-AllStored :
    (times : Times) (days : ℕ) (at : Moment) (event : CanonicalEvent) (s : Repository)
    → (let r = persist times days at event s in AllStored (source_mmsi event) r.0 r.1.tables)
unfolding persist upsert_position upsert_profile drop_if_stale_telemetry
persist-AllStored times days at (position event) s =
    unless_stale-AllStored event.mmsi s _
      (λ s. commit_position s (position_transaction times at event s.tables))
      (commit-AllStored event.mmsi s (position_transaction times at event s.tables)
        (position_transaction-IsStored times at event s.tables))
persist-AllStored times days at (static event) s =
    unless_stale-AllStored event.mmsi s _ (write_profile at event)
      (write_profile-AllStored at event s)

-- A published event tells of the stored row, and of the kind of its source.
abbrev pub Tells : CanonicalEvent → VesselPersistedEvent → Tables → Type 0
Tells source e tables =
    (row : VesselRow) × (get (source_mmsi source) tables.vessels ≡ some row)
    × (e.vessel_id ≡ row.id)
    × (e.mmsi ≡ row.mmsi)
    × (e.imo ≡ row.imo)
    × (e.name ≡ row.name)
    × (e.source_event_kind ≡ source_kind source)

-- Nothing is published, or one event that tells of a stored row.
abbrev pub IsPublished : CanonicalEvent → WriterState → WriterState → Type 0
IsPublished source s t =
    (t.published ≡ s.published)
    ⊎ ((e : VesselPersistedEvent) × (t.published ≡ s.published ++ e ∷ [])
        × Tells source e t.repository.tables)

publish-IsPublished :
    (publish : VesselPersistedEvent → Publication) (source : CanonicalEvent)
    (summary : PersistedVesselSummary) (persisted_at : String) (s : WriterState)
    → IsStored (source_mmsi source) summary s.repository.tables
    → IsPublished source s (publish_persisted_event publish source summary persisted_at s)
unfolding publish_persisted_event persisted_event to_persisted_vessel_summary
publish-IsPublished publish source summary persisted_at s (row, e, f) =
    let event = persisted_event source summary persisted_at in
    either (publish event).is_written (
      row,
      e,
      ap (λ x. x.vessel_id) (sym f),
      ap (λ x. x.mmsi) (sym f),
      ap (λ x. x.imo) (sym f),
      ap (λ x. x.name) (sym f),
      refl,
    )
  where
    either :
        (b : Bool)
        → Tells source (persisted_event source summary persisted_at) s.repository.tables
        → (appended_if b (persisted_event source summary persisted_at) s.published ≡ s.published)
          ⊎ ((e : VesselPersistedEvent) × (appended_if b
                  (persisted_event source summary persisted_at)
                  s.published
                ≡ s.published ++ e ∷ [])
              × Tells source e s.repository.tables)
    either true told = inr (_, refl, told)
    either false told = inl refl

after_persist-IsPublished :
    (publish : VesselPersistedEvent → Publication) (source : CanonicalEvent) (persisted_at : String)
    (s : WriterState) (r : Option (Option PersistedVesselSummary) × Repository)
    → AllStored (source_mmsi source) r.0 r.1.tables
    → IsPublished source s (after_persist publish source persisted_at s r).1
after_persist-IsPublished publish source persisted_at s (none, r) h = inl refl
after_persist-IsPublished publish source persisted_at s (some none, r) h = inl refl
after_persist-IsPublished publish source persisted_at s (some (some summary), r) h =
    publish-IsPublished publish source summary persisted_at (record s { repository = r }) h

-- Handling a valid event publishes nothing or one more event, even where the bus rejects a publication
-- that is in the stream; and this event tells the id, MMSI, IMO number and name of the row that is then
-- stored for the vessel, and the kind of the event handled.
pub store_event-IsPublished :
    (publish : VesselPersistedEvent → Publication) (times : Times) (days : ℕ) (at : Moment)
    (persisted_at : String) (event : CanonicalEvent) (s : WriterState)
    → IsPublished event s (store_event publish times days at persisted_at (some event) s).1
unfolding store_event
store_event-IsPublished publish times days at persisted_at event s =
    after_persist-IsPublished publish event persisted_at s _
      (persist-AllStored times days at event s.repository)

publish-repository :
    (publish : VesselPersistedEvent → Publication) (source : CanonicalEvent)
    (summary : PersistedVesselSummary) (persisted_at : String) (s : WriterState)
    → (publish_persisted_event publish source summary persisted_at s).repository ≡ s.repository
unfolding publish_persisted_event
publish-repository publish source summary persisted_at s = refl

after_persist-repository :
    (publish : VesselPersistedEvent → Publication) (source : CanonicalEvent) (persisted_at : String)
    (s : WriterState) (r : Option (Option PersistedVesselSummary) × Repository)
    → (is_some (after_persist publish source persisted_at s r).0 ≡ is_some r.0)
      × ((after_persist publish source persisted_at s r).1.repository ≡ r.1)
after_persist-repository publish source persisted_at s (none, r) = (refl, refl)
after_persist-repository publish source persisted_at s (some none, r) = (refl, refl)
after_persist-repository publish source persisted_at s (some (some summary), r) =
    (refl, publish-repository publish source summary persisted_at (record s { repository = r }))

-- Whatever becomes of the publication, the message resolves exactly if its event is written or dropped.
pub store_event-resolves :
    (publish : VesselPersistedEvent → Publication) (times : Times) (days : ℕ) (at : Moment)
    (persisted_at : String) (event : CanonicalEvent) (s : WriterState)
    → (let r = store_event publish times days at persisted_at (some event) s in
        let written = persist times days at event s.repository in
        (is_some r.0 ≡ is_some written.0) × (r.1.repository ≡ written.1))
unfolding store_event
store_event-resolves publish times days at persisted_at event s =
    after_persist-repository publish event persisted_at s _
