-- ===== src/Web/View.antt =====
-- What the map shows of a vessel (web/src/lib/shipTypeLabel.ts, shipTypeColor.ts, navStatusLabel.ts,
-- markerShape.ts, web/src/map/buildFeatureCollection.ts). A code is a natural number, as the schemas
-- admit it.
pub mod Features
use Prim.Native.String.{String}
use ais_tracking_system.Prelude.{
  ℕ, ◌==◌, Bool, true, false, not, ◌&&◌, ◌||◌, Option, none, some, List, [], ◌∷◌, ◌++◌, ltb, leb,
  or_else, get_or_else, if◌then◌else◌,
}
use ais_tracking_system.Prelude.Double.{Double, of_nat, leb_Double}
use ais_tracking_system.Prelude.StringMap.{StringMap}
use ais_tracking_system.Contracts.{SanctionsStatus}
use ais_tracking_system.Web.MergeReducer.{Vessel}

-- `table[code]`
abbrev pub entry : {A : Type 0} → ℕ → List (ℕ × A) → Option A
entry code [] = none
entry code ((n, a) ∷ table) = let rest = entry code table in if n == code then some a else rest

abbrev pub exact : List (ℕ × String)
exact =
    (0, "Unknown")
    ∷ (30, "Fishing")
    ∷ (31, "Towing")
    ∷ (32, "Towing")
    ∷ (33, "Dredging / Underwater Ops")
    ∷ (34, "Diving Ops")
    ∷ (35, "Military Ops")
    ∷ (36, "Sailing")
    ∷ (37, "Pleasure Craft")
    ∷ (50, "Pilot Vessel")
    ∷ (51, "SAR Vessel")
    ∷ (52, "Tug")
    ∷ (53, "Port Tender")
    ∷ (54, "Anti-Pollution")
    ∷ (55, "Law Enforcement")
    ∷ (56, "Local Vessel")
    ∷ (57, "Local Vessel")
    ∷ (58, "Medical Transport")
    ∷ (59, "Non-combatant")
    ∷ []

abbrev pub is_within : ℕ → ℕ → ℕ → Bool
is_within low high code = leb low code && leb code high

unfoldable pub ship_type_label : Option ℕ → String
ship_type_label none = "—"
ship_type_label (some code) =
    if ltb 99 code
    then "Unknown"
    else if is_within 20 29 code
    then "Wing in Ground"
    else if is_within 40 49 code
    then "High Speed Craft"
    else if is_within 60 69 code
    then "Passenger"
    else if is_within 70 79 code
    then "Cargo"
    else if is_within 80 89 code
    then "Tanker"
    else if is_within 90 99 code
    then "Other"
    else get_or_else (entry code exact) "Unknown"

pub record CategoryConfig : Type 0 where
  pub category : String
  pub color : String
  pub matches : ℕ → Bool

abbrev pub categories : List CategoryConfig
categories =
    record { category = "Cargo"; color = "#2ECC71"; matches = is_within 70 79 }
    ∷ record { category = "Tanker"; color = "#E53935"; matches = is_within 80 89 }
    ∷ record { category = "Passenger"; color = "#3498DB"; matches = is_within 60 69 }
    ∷ record { category = "Fishing"; color = "#E67E22"; matches = λ c. c == 30 }
    ∷ record {
      category = "Military / Law Enf.";
      color = "#8E44AD";
      matches = λ c. (c == 35) || (c == 55);
    }
    ∷ record {
      category = "Tug / Service";
      color = "#1ABC9C";
      matches = λ c. is_within 31 34 c || is_within 50 54 c || is_within 56 59 c;
    }
    ∷ record {
      category = "High Speed / WIG";
      color = "#F1C40F";
      matches = λ c. is_within 20 29 c || is_within 40 49 c;
    }
    ∷ record {
      category = "Sailing / Pleasure";
      color = "#FF4FC3";
      matches = λ c. (c == 36) || (c == 37);
    }
    ∷ record { category = "Unknown / Other"; color = "#95A5A6"; matches = λ c. true }
    ∷ []

-- `CATEGORIES.find`
abbrev pub find_category : ℕ → List CategoryConfig → Option CategoryConfig
find_category code [] = none
find_category code (c ∷ cs) =
    let rest = find_category code cs in if c.matches code then some c else rest

abbrev pub color_of : Option CategoryConfig → Option String
color_of none = none
color_of (some c) = some c.color

-- `none` would be the exception of a code that no category matches.
unfoldable pub ship_type_color : Option ℕ → Option String
ship_type_color none = some "#95A5A6"
ship_type_color (some code) =
    if ltb 99 code then some "#95A5A6" else color_of (find_category code categories)

abbrev pub nav_status_labels : List (ℕ × String)
nav_status_labels =
    (0, "Under way (engine)")
    ∷ (1, "At anchor")
    ∷ (2, "Not under command")
    ∷ (3, "Restricted manoeuvrability")
    ∷ (4, "Constrained by draught")
    ∷ (5, "Moored")
    ∷ (6, "Aground")
    ∷ (7, "Engaged in fishing")
    ∷ (8, "Under way sailing")
    ∷ (9, "Reserved (HSC)")
    ∷ (10, "Reserved (WIG)")
    ∷ (11, "Towing astern")
    ∷ (12, "Pushing ahead / towing alongside")
    ∷ (13, "Reserved")
    ∷ (14, "AIS-SART / MOB-AIS / EPIRB-AIS")
    ∷ (15, "Undefined")
    ∷ []

unfoldable pub nav_status_label : Option ℕ → String
nav_status_label none = "—"
nav_status_label (some code) = get_or_else (entry code nav_status_labels) "Unknown"

pub data MarkerShape : Type 0 where
  arrow circle : MarkerShape

abbrev pub is_stationary : Option ℕ → Bool
is_stationary none = false
is_stationary (some code) = (code == 1) || (code == 5) || (code == 6)

abbrev pub is_unknown : Option ℕ → Bool
is_unknown none = true
is_unknown (some code) = code == 15

-- The double 0.3.
abbrev pub sog_stationary_threshold : Double
sog_stationary_threshold = record { negative = false; magnitude = 0x3fd3333333333333 }

abbrev pub is_slow : Option Double → Bool
is_slow none = false
is_slow (some sog) = leb_Double sog sog_stationary_threshold

unfoldable pub marker_shape : Option ℕ → Option Double → MarkerShape
marker_shape nav_status sog =
    if is_stationary nav_status
    then circle
    else if is_unknown nav_status && is_slow sog
    then circle
    else arrow

pub record VesselFeature : Type 0 where
  pub lon : Double
  pub lat : Double
  pub mmsi : String
  pub rotation : Double
  pub color : Option String
  pub sanctions_status : Option SanctionsStatus
  pub shape : MarkerShape

-- Between 0 and 359.
abbrev pub valid_degrees : Option Double → Option Double
valid_degrees none = none
valid_degrees (some d) =
    if leb_Double (of_nat 0) d && leb_Double d (of_nat 359) then some d else none

abbrev pub heading_degrees : Option ℕ → Option Double
heading_degrees none = none
heading_degrees (some n) = valid_degrees (some (of_nat n))

unfoldable pub feature_of : Vessel → Double → Double → VesselFeature
feature_of v lat lon = record {
  lon = lon;
  lat = lat;
  mmsi = v.mmsi;
  rotation =
      get_or_else (or_else (valid_degrees v.cog) (heading_degrees v.true_heading)) (of_nat 0);
  color = ship_type_color v.ship_type;
  sanctions_status = v.sanctions_status;
  shape = marker_shape v.nav_status v.sog;
}

abbrev pub feature_at : Vessel → Option Double → Option Double → List VesselFeature
feature_at v (some lat) (some lon) = feature_of v lat lon ∷ []
feature_at v (some lat) none = []
feature_at v none lon = []

unfoldable pub build_feature_collection : StringMap Vessel → List VesselFeature
build_feature_collection [] = []
build_feature_collection ((k, v) ∷ vessels) =
    feature_at v v.lat v.lon ++ build_feature_collection vessels
