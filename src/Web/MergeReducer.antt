-- ===== src/Web/MergeReducer.antt =====
-- The client's table of vessels and the functions that merge events into it
-- (web/src/store/mergeReducer.ts, with the types of web/src/store/types.ts). `Date.parse` is a
-- parameter: `none` stands for NaN, which no comparison holds of. Where a function of the source
-- returns the map that it was given, to spare a render, the model returns an equal map.
pub mod Apply
pub mod Latest
pub mod Monotone
pub mod Prune
pub mod Stamps
use ais_tracking_system.Prelude.{
  ℕ, String, Bool, true, false, Option, some, none, List, [], ◌∷◌, if◌then◌else◌, ite, or_else,
  get_or_else, str_discrete, is_some, ◌&&◌, not,
}
use ais_tracking_system.Prelude.Double.{Double}
use ais_tracking_system.Prelude.Int.{ℤ, pos, ◌-ℤ◌, leb_ℤ, ltb_ℤ}
use ais_tracking_system.Prelude.StringMap
use ais_tracking_system.Prelude.StringMap.{StringMap}
use ais_tracking_system.Contracts.{
  PositionEvent, StaticEvent, VesselEnrichedEvent, SanctionMatch, MatchMethod, SanctionsStatus,
}

pub data MatchSource : Type 0 where
  ofac opensanctions : MatchSource

pub record VesselSanctionMatch : Type 0 where
  pub id : String
  pub source : MatchSource
  pub entity_name : String
  pub match_method : MatchMethod
  pub score : Option Double
  pub programs : List String

pub record Vessel : Type 0 where
  pub mmsi : String
  pub vessel_id : Option String
  pub last_seen_at : Option String
  pub lat : Option Double
  pub lon : Option Double
  pub sog : Option Double
  pub cog : Option Double
  pub true_heading : Option ℕ
  pub nav_status : Option ℕ
  pub occurred_at : Option String
  pub imo : Option String
  pub name : Option String
  pub call_sign : Option String
  pub ship_type : Option ℕ
  pub destination : Option String
  pub static_occurred_at : Option String
  pub sanctions_status : Option SanctionsStatus
  pub sanctions_checked_at : Option String
  pub sanctions_matches : Option (List VesselSanctionMatch)

pub record SnapshotRow : Type 0 where
  pub id : String
  pub mmsi : String
  pub imo : Option String
  pub name : Option String
  pub call_sign : Option String
  pub ship_type : Option ℕ
  pub lon : Double
  pub lat : Double
  pub sog : Option Double
  pub cog : Option Double
  pub true_heading : Option ℕ
  pub nav_status : Option ℕ
  pub occurred_at : String
  pub last_seen_at : String
  pub sanctions_status : Option SanctionsStatus
  pub sanctions_checked_at : Option String

-- The fields of VesselDetailRow that the reducer reads.
pub record DetailSanctions : Type 0 where
  pub id : String
  pub mmsi : String
  pub sanctions_status : Option SanctionsStatus
  pub sanctions_checked_at : Option String
  pub sanctions_matches : List VesselSanctionMatch

unfoldable pub empty_vessel : String → Vessel
empty_vessel mmsi = record {
  mmsi = mmsi;
  vessel_id = none;
  last_seen_at = none;
  lat = none;
  lon = none;
  sog = none;
  cog = none;
  true_heading = none;
  nav_status = none;
  occurred_at = none;
  imo = none;
  name = none;
  call_sign = none;
  ship_type = none;
  destination = none;
  static_occurred_at = none;
  sanctions_status = none;
  sanctions_checked_at = none;
  sanctions_matches = none;
}

-- A text that passes `!text`: null, undefined and "" do not.
unfoldable pub truthy : Option String → Option String
truthy none = none
truthy (some s) = ite (str_discrete s "") none (some s)

-- `preferNonNull` is `incoming ?? current`.
abbrev pub prefer_non_null {ℓ} : {A : Type ℓ} → Option A → Option A → Option A
prefer_non_null incoming current = or_else incoming current

abbrev pub vessel_activity_at : Vessel → Option String
vessel_activity_at v = or_else (or_else v.last_seen_at v.occurred_at) v.static_occurred_at

-- `prev.get(mmsi) ?? emptyVessel(mmsi)`
unfoldable pub base_of : StringMap Vessel → String → Vessel
unfolding empty_vessel
base_of prev mmsi = get_or_else (StringMap.get mmsi prev) (empty_vessel mmsi)

-- `m.source === 'ofac' || m.source === 'opensanctions'`, with the source that it is.
unfoldable pub listed_source : String → Option MatchSource
listed_source source =
    ite (str_discrete source "ofac") (some ofac)
      (ite (str_discrete source "opensanctions") (some opensanctions) none)

abbrev pub web_match : SanctionMatch → MatchSource → VesselSanctionMatch
web_match m source = record {
  id = m.entity_id;
  source = source;
  entity_name = m.name;
  match_method = m.match_method;
  score = none;
  programs = m.programs;
}

-- The `filter` and `map` of `applyEnriched`.
unfoldable pub web_matches : List SanctionMatch → List VesselSanctionMatch
unfolding listed_source
web_matches [] = []
web_matches (m ∷ ms) =
    let rest = web_matches ms in
    elim (listed_source m.source) [ none ↦ rest | some source ↦ web_match m source ∷ rest ]

module _ (parse : String → Option ℤ) where
  -- `a >= b`, `a < b` on parsed dates.
  abbrev pub date_geq : Option ℤ → Option ℤ → Bool
  date_geq (some a) (some b) = leb_ℤ b a
  date_geq (some a) none = false
  date_geq none b = false

  abbrev pub date_lt : Option ℤ → Option ℤ → Bool
  date_lt (some a) (some b) = ltb_ℤ a b
  date_lt (some a) none = false
  date_lt none b = false

  abbrev pub newer_than : Option String → Option String → Bool
  newer_than none current = false
  newer_than (some s) none = true
  newer_than (some s) (some t) = date_geq (parse s) (parse t)

  unfoldable pub is_newer : Option String → Option String → Bool
  unfolding truthy
  is_newer incoming current = newer_than (truthy incoming) (truthy current)

  abbrev pub later_of : Option String → Option String → Option String → Option String
  later_of none b' b = b
  later_of (some s) none b = some s
  later_of (some s) (some t) b = if date_geq (parse s) (parse t) then some s else some t

  unfoldable pub max_timestamp : Option String → Option String → Option String
  unfolding truthy
  max_timestamp a b = later_of (truthy a) (truthy b) b
