-- ===== src/Geo/Tests.antt =====
-- Runs of the check against land at concrete inputs.
use Prim.Native.Char.{Char, char, code}
use Prim.Native.String.{String}
use ais_tracking_system.Prelude.StringMap
use ais_tracking_system.Prelude.StringMap.{StringMap}
use ais_tracking_system.Prelude.{
  ℕ, ◌==◌, Bool, Option, if◌then◌else◌, All, ◌∷◌, refl, differ, true, false, some, none, [], ◌∷◌,
  ap, get_or_else,
}
use ais_tracking_system.Contracts.Samples.{zero_degrees}
use ais_tracking_system.Geo.{
  GeoValidationVerdict, allow, reject, uncertain, GeoValidationReason, manual_allow,
  navigable_water, coastal_tolerance, deep_land, not_land, dataset_unavailable, invalid_coordinates,
  disabled, validation_error, GeoValidationInput, GeoValidationResult,
}
use ais_tracking_system.Geo.Cache.{ResultText}
use ais_tracking_system.Geo.Validation.{Repository, GeoConfig, GeoState, validate_position}
use ais_tracking_system.Geo.Validation.Gauge.{IsShown, validate_position-IsShown}
use ais_tracking_system.Geo.Validation.Result.{IsWritten}
use ais_tracking_system.Pipeline.{Redis}

-- The database rejects on land everywhere; the world is the active version.
abbrev repository : Repository String
repository = record {
  active_dataset_version = λ w. (some (some w), w);
  validate_position = λ lon lat w.
      (some (record { verdict = reject; reason = deep_land; dataset_version = some w }), w);
}

-- A Redis that is down.
abbrev redis : Redis String
redis = record {
  get = λ k w. (none, w);
  set_ex = λ k v ttl w. (none, w);
  set_nx_ex = λ k v ttl w. (none, w);
}

abbrev on_land : GeoValidationResult
on_land = record {
  verdict = reject;
  reason = deep_land;
  dataset_version = some "v2";
  should_drop = true;
}

abbrev texts : ResultText
texts = record {
  to_fixed = λ d n. "0";
  of_nat = λ n. "3";
  parse = λ raw. some (some on_land);
  stringify = λ r. "{}";
}

abbrev config : GeoConfig
config = record {
  validation_enabled = true;
  fail_open = true;
  cache = record { enabled = true; precision = 3; ttl_seconds = 60; uncertain_ttl_seconds = 10 };
}

abbrev here : GeoValidationInput
here = record {
  lat = zero_degrees;
  lon = zero_degrees;
  mmsi = none;
  provider = none;
  trace_id = none;
}

-- The gauge shows the version before the active one.
abbrev start : GeoState String
start = record {
  world = "v2";
  last_active_dataset_version = some "v1";
  has_logged_disabled = false;
  active_dataset_info = ("v1", 1) ∷ [];
  validations = [];
  cache_results = [];
}

start-IsShown : IsShown start
start-IsShown = record {
  gauge = refl;
  named = λ e. differ "v1" "" (λ h. cc) (ap (λ o. get_or_else o "v1") e);
}

validate_position-IsShown_example :
    IsShown (validate_position repository redis texts config here start).1
validate_position-IsShown_example =
    validate_position-IsShown repository redis texts config here start start-IsShown

-- A result as three characters and its version.
abbrev char_of_verdict : GeoValidationVerdict → Char
char_of_verdict allow = char 0 tt
char_of_verdict reject = char 1 tt
char_of_verdict uncertain = char 2 tt

abbrev verdict_of_char : ℕ → GeoValidationVerdict
verdict_of_char n = if n == 0 then allow else if n == 1 then reject else uncertain

abbrev char_of_reason : GeoValidationReason → Char
char_of_reason manual_allow = char 0 tt
char_of_reason navigable_water = char 1 tt
char_of_reason coastal_tolerance = char 2 tt
char_of_reason deep_land = char 3 tt
char_of_reason not_land = char 4 tt
char_of_reason dataset_unavailable = char 5 tt
char_of_reason invalid_coordinates = char 6 tt
char_of_reason disabled = char 7 tt
char_of_reason validation_error = char 8 tt

abbrev reason_of_char : ℕ → GeoValidationReason
reason_of_char n =
    if n == 0
    then manual_allow
    else if n == 1
    then navigable_water
    else if n == 2
    then coastal_tolerance
    else if n == 3
    then deep_land
    else if n == 4
    then not_land
    else if n == 5
    then dataset_unavailable
    else if n == 6
    then invalid_coordinates
    else if n == 7
    then disabled
    else validation_error

abbrev char_of_drop : Bool → Char
char_of_drop false = char 0 tt
char_of_drop true = char 1 tt

abbrev text_of_version : Option String → String
text_of_version none = String.[]
text_of_version (some v) = String.◌∷◌ (char 0 tt) v

abbrev version_of_text : String → Option String
version_of_text String.[] = none
version_of_text (String.◌∷◌ c v) = some v

abbrev result_to_text : GeoValidationResult → String
result_to_text r = String.◌∷◌ (char_of_verdict r.verdict) (
    String.◌∷◌ (char_of_reason r.reason)
      (String.◌∷◌ (char_of_drop r.should_drop) (text_of_version r.dataset_version)))

abbrev result_of_text : String → Option (Option GeoValidationResult)
result_of_text (String.◌∷◌ a (String.◌∷◌ b (String.◌∷◌ c v))) = some (
    some (record {
      verdict = verdict_of_char (code a);
      reason = reason_of_char (code b);
      dataset_version = version_of_text v;
      should_drop = code c == 1;
    }))
result_of_text _ = none

abbrev json : ResultText
json = record {
  to_fixed = λ d n. "0";
  of_nat = λ n. "3";
  parse = result_of_text;
  stringify = result_to_text;
}

-- A Redis that keeps what is set, and a database that is down after it has told the version.
abbrev storing : Redis (StringMap String)
storing = record {
  get = λ k w. (some (StringMap.get k w), w);
  set_ex = λ k v ttl w. (some tt, StringMap.put k v w);
  set_nx_ex = λ k v ttl w. (none, w);
}

abbrev failing : Repository (StringMap String)
failing = record {
  active_dataset_version = λ w. (some (some "v2"), w);
  validate_position = λ lon lat w. (none, w);
}

abbrev AllWritten : StringMap String → Type 0
AllWritten m = All (λ e. IsWritten json e.1) m

-- The cache holds the result for the place.
abbrev cached : GeoState (StringMap String)
cached = record {
  world = ("geo:validation:v2:p3:0:0", result_to_text on_land) ∷ [];
  last_active_dataset_version = some "v1";
  has_logged_disabled = false;
  active_dataset_info = ("v1", 1) ∷ [];
  validations = [];
  cache_results = [];
}
