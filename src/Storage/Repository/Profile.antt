-- ===== src/Storage/Repository/Profile.antt =====
-- The row of a vessel, which positions and profiles write, and the branches of the two writes.
use ais_tracking_system.Prelude.{
  ℕ, suc, ◌≡◌, refl, Bool, true, false, Option, none, some, or_else, is_some, if_cases, List, [],
  ◌∷◌,
}
use ais_tracking_system.Contracts.{PositionEvent, StaticEvent}
use ais_tracking_system.Storage.Repository.{
  Tables, Repository, Moment, Times, PersistedVesselSummary, VesselRow, empty_row,
  vessel_from_position, vessel_from_profile, position_transaction, upsert_position, upsert_profile,
  drop_if_stale_telemetry, commit_position, dimensions_fit, write_profile, count_stale,
  unless_stale,
}
use ais_tracking_system.Storage.Repository.Latest.{IsConsistent, position_transaction-IsConsistent}

or_else_assoc : {A : Type 0} (a b c : Option A) → or_else (or_else a b) c ≡ or_else a (or_else b c)
or_else_assoc none b c = refl
or_else_assoc (some a) b c = refl

-- A position and a profile of one vessel, taken at the same moment, leave the same row of the vessel
-- whichever is written first, be the row new or not.
pub position-profile :
    (at : Moment) (p : PositionEvent) (e : StaticEvent) (found : Option VesselRow)
    → p.mmsi ≡ e.mmsi
    → vessel_from_position at p (some (vessel_from_profile at e found))
      ≡ vessel_from_profile at e (some (vessel_from_position at p found))
unfolding vessel_from_position vessel_from_profile empty_row
position-profile at p e none m = rw (m, or_else_assoc e.name none p.ship_name) refl
position-profile at p e (some row) m = rw (or_else_assoc e.name row.name p.ship_name) refl

-- What is known of a vessel: each field of `after` is there where that of `before` is.
pub record IsKnown (before after : VesselRow) : Type 0 where
  pub id : after.id ≡ before.id
  pub imo : is_some before.imo ≡ true → is_some after.imo ≡ true
  pub name : is_some before.name ≡ true → is_some after.name ≡ true
  pub call_sign : is_some before.call_sign ≡ true → is_some after.call_sign ≡ true
  pub ship_type : is_some before.ship_type ≡ true → is_some after.ship_type ≡ true
  pub destination : is_some before.destination ≡ true → is_some after.destination ≡ true
  pub dimension_to_bow :
      is_some before.dimension_to_bow ≡ true → is_some after.dimension_to_bow ≡ true
  pub dimension_to_stern :
      is_some before.dimension_to_stern ≡ true → is_some after.dimension_to_stern ≡ true
  pub dimension_to_port :
      is_some before.dimension_to_port ≡ true → is_some after.dimension_to_port ≡ true
  pub dimension_to_starboard :
      is_some before.dimension_to_starboard ≡ true → is_some after.dimension_to_starboard ≡ true
  pub sanctions_status : after.sanctions_status ≡ before.sanctions_status
  pub sanctions_matches : after.sanctions_matches ≡ before.sanctions_matches

is_some-or_else : {A : Type 0} (a b : Option A) → is_some b ≡ true → is_some (or_else a b) ≡ true
is_some-or_else none b h = h
is_some-or_else (some a) b h = refl

or_else-is_some : {A : Type 0} (a b : Option A) → is_some a ≡ true → is_some (or_else a b) ≡ true
or_else-is_some none b h = cc
or_else-is_some (some a) b h = refl

pub profile-IsKnown :
    (at : Moment) (e : StaticEvent) (row : VesselRow)
    → IsKnown row (vessel_from_profile at e (some row))
unfolding vessel_from_profile
profile-IsKnown at e row = record {
  id = refl;
  imo = is_some-or_else e.imo row.imo;
  name = is_some-or_else e.name row.name;
  call_sign = is_some-or_else e.call_sign row.call_sign;
  ship_type = is_some-or_else e.ship_type row.ship_type;
  destination = is_some-or_else e.destination row.destination;
  dimension_to_bow = is_some-or_else e.dimension_to_bow row.dimension_to_bow;
  dimension_to_stern = is_some-or_else e.dimension_to_stern row.dimension_to_stern;
  dimension_to_port = is_some-or_else e.dimension_to_port row.dimension_to_port;
  dimension_to_starboard = is_some-or_else e.dimension_to_starboard row.dimension_to_starboard;
  sanctions_status = refl;
  sanctions_matches = refl;
}

pub position-IsKnown :
    (at : Moment) (p : PositionEvent) (row : VesselRow)
    → IsKnown row (vessel_from_position at p (some row))
unfolding vessel_from_position
position-IsKnown at p row = record {
  id = refl;
  imo = λ h. h;
  name = or_else-is_some row.name p.ship_name;
  call_sign = λ h. h;
  ship_type = λ h. h;
  destination = λ h. h;
  dimension_to_bow = λ h. h;
  dimension_to_stern = λ h. h;
  dimension_to_port = λ h. h;
  dimension_to_starboard = λ h. h;
  sanctions_status = refl;
  sanctions_matches = refl;
}

abbrev Answer : Type 0
Answer = Option (Option PersistedVesselSummary) × Repository

-- Neither table nor a counter of writes is changed.
abbrev pub IsUnwritten : Repository → Repository → Type 0
IsUnwritten s t =
    (t.tables ≡ s.tables)
    × (t.writes_vessels ≡ s.writes_vessels)
    × (t.writes_latest ≡ s.writes_latest)
    × (t.writes_history ≡ s.writes_history)

-- Without a summary: rejected, or dropped as stale and counted.
abbrev pub Explains : Option (Option PersistedVesselSummary) → Repository → Repository → Type 0
Explains none s t = t ≡ s
Explains (some none) s t = IsUnwritten s t × (t.history_dropped ≡ suc s.history_dropped)
Explains (some (some summary)) s t = Unit {0}

commit-Explains :
    (s : Repository) (o : Option (PersistedVesselSummary × Tables))
    → Explains (commit_position s o).0 s (commit_position s o).1
commit-Explains s none = refl
commit-Explains s (some (summary, tables)) = tt

unless_stale-Explains :
    (s : Repository) (o : Option Bool)
    (f : Repository → Option (Option PersistedVesselSummary) × Repository)
    → Explains (f s).0 s (f s).1
    → (let r = unless_stale (count_stale s o) f in Explains r.0 s r.1)
unless_stale-Explains s none f h = refl
unless_stale-Explains s (some true) f h = h
unless_stale-Explains s (some false) f h = ((refl, refl, refl, refl), refl)

pub upsert_position-Explains :
    (times : Times) (days : ℕ) (at : Moment) (event : PositionEvent) (s : Repository)
    → (let r = upsert_position times days at event s in Explains r.0 s r.1)
unfolding upsert_position drop_if_stale_telemetry
upsert_position-Explains times days at event s =
    unless_stale-Explains s _
      (λ s. commit_position s (position_transaction times at event s.tables))
      (commit-Explains s (position_transaction times at event s.tables))

write_profile-Explains :
    (at : Moment) (event : StaticEvent) (s : Repository)
    → Explains (write_profile at event s).0 s (write_profile at event s).1
unfolding write_profile
write_profile-Explains at event s =
    if_cases (λ (r : Answer). Explains r.0 s r.1) (dimensions_fit event) _ (none, s) (λ e. tt)
      (λ e. refl)

write_profile-IsConsistent :
    (at : Moment) (event : StaticEvent) (s : Repository)
    → IsConsistent s.tables
    → IsConsistent (write_profile at event s).1.tables
unfolding write_profile
write_profile-IsConsistent at event s c =
    if_cases (λ (r : Answer). IsConsistent r.1.tables) (dimensions_fit event) _ (none, s)
      (λ e. record { covered = c.covered; unique = c.unique }) (λ e. c)

pub upsert_profile-Explains :
    (times : Times) (days : ℕ) (at : Moment) (event : StaticEvent) (s : Repository)
    → (let r = upsert_profile times days at event s in Explains r.0 s r.1)
unfolding upsert_profile drop_if_stale_telemetry
upsert_profile-Explains times days at event s =
    unless_stale-Explains s _ (write_profile at event) (write_profile-Explains at event s)

commit-IsConsistent :
    (s : Repository) (o : Option (PersistedVesselSummary × Tables))
    → IsConsistent s.tables
    → ((r : PersistedVesselSummary × Tables) → o ≡ some r → IsConsistent r.1)
    → IsConsistent (commit_position s o).1.tables
commit-IsConsistent s none c h = c
commit-IsConsistent s (some r) c h = h r refl

unless_stale-IsConsistent :
    (s : Repository) (o : Option Bool)
    (f : Repository → Option (Option PersistedVesselSummary) × Repository)
    → IsConsistent s.tables
    → IsConsistent (f s).1.tables
    → IsConsistent (unless_stale (count_stale s o) f).1.tables
unless_stale-IsConsistent s none f c h = c
unless_stale-IsConsistent s (some true) f c h = h
unless_stale-IsConsistent s (some false) f c h = c

-- A call of one of the two writes, and a run of them.
pub data Call : Type 0 where
  of_position : Moment → PositionEvent → Call
  of_profile : Moment → StaticEvent → Call

abbrev pub perform : Times → ℕ → Call → Repository → Repository
perform times days (of_position at event) s = (upsert_position times days at event s).1
perform times days (of_profile at event) s = (upsert_profile times days at event s).1

abbrev pub perform_all : Times → ℕ → List Call → Repository → Repository
perform_all times days [] s = s
perform_all times days (c ∷ cs) s = perform_all times days cs (perform times days c s)

perform-IsConsistent :
    (times : Times) (days : ℕ) (c : Call) (s : Repository)
    → IsConsistent s.tables
    → IsConsistent (perform times days c s).tables
unfolding upsert_position upsert_profile drop_if_stale_telemetry
perform-IsConsistent times days (of_position at event) s c =
    unless_stale-IsConsistent s _
      (λ s. commit_position s (position_transaction times at event s.tables)) c
      (commit-IsConsistent s (position_transaction times at event s.tables) c
        (λ r. position_transaction-IsConsistent times at event s.tables r c))
perform-IsConsistent times days (of_profile at event) s c =
    unless_stale-IsConsistent s _ (write_profile at event) c
      (write_profile-IsConsistent at event s c)

-- Through any writes of positions and profiles, in any order and with any failures and stale events:
-- if no vessel has two history rows of one time, and each history row's vessel has a latest position
-- at least as late, then so it is afterwards.
pub perform_all-IsConsistent :
    (times : Times) (days : ℕ) (calls : List Call) (s : Repository)
    → IsConsistent s.tables
    → IsConsistent (perform_all times days calls s).tables
perform_all-IsConsistent times days [] s c = c
perform_all-IsConsistent times days (call ∷ calls) s c =
    perform_all-IsConsistent times days calls (perform times days call s)
      (perform-IsConsistent times days call s c)
