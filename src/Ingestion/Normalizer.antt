-- ===== src/Ingestion/Normalizer.antt =====
-- The normalizer of AISStream's messages (src/ingestion/aisstream/aisstream.normalizer.ts), which
-- takes any JSON value. The outer `none` of a result is an exception, the inner one is null. An
-- object of `aisstream.raw-types.ts` is a JSON object, of which a property may be absent.
pub mod Valid
pub mod Contract
pub mod Reports
use Prim.Native.String.{String}
use ais_tracking_system.Prelude.{
  ℕ, Bool, true, false, not, ◌&&◌, ◌||◌, Option, none, some, List, [], ◌∷◌, ltb, ◌==◌,
  if◌then◌else◌, or_else, is_some, get_or_else, ite, str_discrete,
}
use ais_tracking_system.Prelude.Double.{Double, is_nan}
use ais_tracking_system.Prelude.Throws.{◌>>=◌}
use ais_tracking_system.Contracts.{PositionEvent, StaticEvent, CanonicalEvent, position, static}
use ais_tracking_system.Contracts.Json.{Json, null, bool, num, str, arr, obj, Fields, property}
use ais_tracking_system.Pipeline.Handle.{RawProviderMessage}
use ais_tracking_system.Ingestion.Clean.{clean_string, parse_ais_stream_timestamp}
use ais_tracking_system.Ingestion.Schema.{
  PositionCandidate, StaticCandidate, parse_position, parse_static, is_digits,
}

-- `String(value)`, `toISOString` of the date of a text, and the schema's test of a time.
pub record Texts : Type 0 where
  pub to_text : Json → String
  pub to_iso : List ℕ → Option String
  pub is_datetime : String → Bool

-- `value?.name`
unfoldable pub member : String → Option Json → Option Json
member name (some (obj fields)) = property name fields
member name _ = none

-- `value ?? null`
unfoldable pub present : Option Json → Option Json
present none = none
present (some null) = none
present (some (bool b)) = some (bool b)
present (some (num d)) = some (num d)
present (some (str s)) = some (str s)
present (some (arr a)) = some (arr a)
present (some (obj o)) = some (obj o)

-- `!value`
unfoldable pub is_falsy : Option Json → Bool
is_falsy none = true
is_falsy (some null) = true
is_falsy (some (bool b)) = not b
is_falsy (some (num d)) = (d.magnitude == 0) || is_nan d
is_falsy (some (str String.[])) = true
is_falsy (some (str (String.◌∷◌ c s))) = false
is_falsy (some (arr a)) = false
is_falsy (some (obj o)) = false

unfoldable pub is_bool : Bool → Option Json → Bool
is_bool b (some (bool c)) = if b then c else not c
is_bool b _ = false

-- `name in value`: an exception where the value is not an object.
unfoldable pub is_in : String → Json → Option Bool
is_in name (obj fields) = some (is_some (property name fields))
is_in name (arr a) = some false
is_in name _ = none

-- `typeof value === 'number' && value > 0 ? value : null`
unfoldable pub positive_number : Option Json → Option Json
positive_number (some (num d)) =
    if not d.negative && ltb 0 d.magnitude && not (is_nan d) then some (num d) else none
positive_number _ = none

unfoldable pub is_zero : Option Json → Bool
is_zero (some (num d)) = d.magnitude == 0
is_zero _ = false

pub record Dimensions : Type 0 where
  pub bow : Option Json
  pub stern : Option Json
  pub port : Option Json
  pub starboard : Option Json

unfoldable pub dimensions_or_null : Option Json → Dimensions
dimensions_or_null d =
    let a = present (member "A" d) in
    let b = present (member "B" d) in
    let c = present (member "C" d) in
    let dd = present (member "D" d) in
    if is_zero a && is_zero b && is_zero c && is_zero dd
    then record { bow = none; stern = none; port = none; starboard = none }
    else record { bow = a; stern = b; port = c; starboard = dd }

unfoldable pub has_navigation_fields : Json → Option Bool
has_navigation_fields report = do
  status ← is_in "NavigationalStatus" report
  rate ← is_in "RateOfTurn" report
  some (status || rate)

unfoldable pub has_embedded_ship_name : Json → Option Bool
has_embedded_ship_name report = is_in "Name" report

unfoldable pub from_static_data_report : Option Json → StaticCandidate → Option StaticCandidate
from_static_data_report report base =
    let a = member "ReportA" report in
    let b = member "ReportB" report in
    let a_valid = is_bool true (member "Valid" a) in
    let b_valid = is_bool true (member "Valid" b) in
    let dim = dimensions_or_null (if b_valid then member "Dimension" b else none) in
    if is_falsy report
    then none
    else if not a_valid && not b_valid
    then none
    else some (record base {
      name = if a_valid then clean_string (member "Name" a) 255 else none;
      call_sign = if b_valid then clean_string (member "CallSign" b) 32 else none;
      ship_type = if b_valid then positive_number (member "ShipType" b) else none;
      imo = none;
      destination = none;
      dimension_to_bow = dim.bow;
      dimension_to_stern = dim.stern;
      dimension_to_port = dim.port;
      dimension_to_starboard = dim.starboard;
    })

abbrev pub as_position : Option (Option PositionEvent) → Option (Option CanonicalEvent)
as_position r = r >>= λ o. some (o >>= λ e. some (position e))

abbrev pub as_static : Option (Option StaticEvent) → Option (Option CanonicalEvent)
as_static r = r >>= λ o. some (o >>= λ e. some (static e))

module _ (texts : Texts) where
  -- `String(meta?.MMSI ?? userId ?? '')`
  unfoldable pub mmsi_text : Option Json → Option Json → String
  mmsi_text meta user_id = elim (or_else (present (member "MMSI" meta)) (present user_id)) [
    | none ↦ ""
    | some j ↦ texts.to_text j
  ]

  -- `parseAisStreamTimestamp(meta?.time_utc) ?? raw.receivedAt`
  unfoldable pub occurrence_of : RawProviderMessage → Option Json → Option String
  occurrence_of raw meta = do
    time ← parse_ais_stream_timestamp texts.to_iso (member "time_utc" meta)
    some (get_or_else time raw.received_at)

  -- The name in the metadata, or else in the report.
  unfoldable pub ship_name_of : Json → Option Json → Option (Option String)
  ship_name_of report meta = elim (clean_string (member "ShipName" meta) 255) [
    | some name ↦ some (some name)
    | none ↦ do
      embedded ← has_embedded_ship_name report
      some (if embedded then clean_string (member "Name" (some report)) 255 else none)
  ]

  unfoldable pub position_candidate :
      RawProviderMessage → Json → Option Json → String → Option PositionCandidate
  position_candidate raw report meta now = do
    occurred_at ← occurrence_of raw meta
    ship_name ← ship_name_of report meta
    navigates ← has_navigation_fields report
    some (record {
      mmsi = mmsi_text meta (member "UserID" (some report));
      lat = member "Latitude" (some report);
      lon = member "Longitude" (some report);
      sog = present (member "Sog" (some report));
      cog = present (member "Cog" (some report));
      true_heading = present (member "TrueHeading" (some report));
      nav_status = if navigates then present (member "NavigationalStatus" (some report)) else none;
      rate_of_turn = if navigates then present (member "RateOfTurn" (some report)) else none;
      ship_name = ship_name;
      occurred_at = occurred_at;
      provider = raw.provider;
      ingested_at = now;
    })

  abbrev pub normalize_report :
      RawProviderMessage → Json → Option Json → String → Option (Option PositionEvent)
  normalize_report raw report meta now = do
    candidate ← position_candidate raw report meta now
    some (parse_position texts.is_datetime candidate)

  -- `now` is the text of the date.
  unfoldable pub normalize_position :
      RawProviderMessage → Option Json → Option Json → String → Option (Option PositionEvent)
  normalize_position raw none meta now = some none
  normalize_position raw (some report) meta now =
      if is_falsy (some report)
      then some none
      else if is_bool false (member "Valid" (some report))
      then some none
      else normalize_report raw report meta now

  -- The mmsi, the provider and the two times.
  unfoldable pub build_static_base_fields :
      RawProviderMessage → Option Json → Option Json → String → String → StaticCandidate
  build_static_base_fields raw meta user_id occurred_at now = record {
    mmsi = mmsi_text meta user_id;
    imo = none;
    name = none;
    call_sign = none;
    ship_type = none;
    dimension_to_bow = none;
    dimension_to_stern = none;
    dimension_to_port = none;
    dimension_to_starboard = none;
    destination = none;
    occurred_at = occurred_at;
    provider = raw.provider;
    ingested_at = now;
  }

  -- The number of seven digits.
  unfoldable pub imo_of : Option Json → Option String
  imo_of (some (num d)) =
      let text = texts.to_text (num d) in if is_digits 7 text then some text else none
  imo_of _ = none

  unfoldable pub from_ship_static_data : Option Json → StaticCandidate → Option StaticCandidate
  from_ship_static_data report base =
      let dim = dimensions_or_null (member "Dimension" report) in
      if is_falsy report
      then none
      else if is_bool false (member "Valid" report)
      then none
      else some (record base {
        name = clean_string (member "Name" report) 255;
        call_sign = clean_string (member "CallSign" report) 32;
        ship_type = positive_number (member "Type" report);
        imo = imo_of (member "ImoNumber" report);
        destination = clean_string (member "Destination" report) 120;
        dimension_to_bow = dim.bow;
        dimension_to_stern = dim.stern;
        dimension_to_port = dim.port;
        dimension_to_starboard = dim.starboard;
      })

  -- A static report, given what makes a candidate of it.
  unfoldable pub normalize_static :
      (Option Json → StaticCandidate → Option StaticCandidate)
      → RawProviderMessage
      → Option Json
      → Option Json
      → String
      → Option (Option StaticEvent)
  normalize_static from raw report meta now = do
    occurred_at ← occurrence_of raw meta
    let base = build_static_base_fields raw meta (member "UserID" report) occurred_at now
    some (from report base >>= parse_static texts.is_datetime)

  abbrev pub normalize_type :
      RawProviderMessage
      → String
      → Option Json
      → Option Json
      → String
      → Option (Option CanonicalEvent)
  normalize_type raw type message meta now =
      ite (str_discrete type "PositionReport")
        (as_position (normalize_position raw (member "PositionReport" message) meta now))
        (ite (str_discrete type "StandardClassBPositionReport")
          (as_position
            (normalize_position raw (member "StandardClassBPositionReport" message) meta now))
          (ite (str_discrete type "ExtendedClassBPositionReport")
            (as_position
              (normalize_position raw (member "ExtendedClassBPositionReport" message) meta now))
            (ite (str_discrete type "StaticDataReport")
              (as_static (
                normalize_static from_static_data_report raw (member "StaticDataReport" message)
                  meta now))
              (ite (str_discrete type "ShipStaticData")
                (as_static (
                  normalize_static from_ship_static_data raw (member "ShipStaticData" message) meta
                    now))
                (some none)))))

  -- By the type of the message, if it is a text.
  abbrev pub by_type :
      RawProviderMessage
      → Option Json
      → Option Json
      → Option Json
      → String
      → Option (Option CanonicalEvent)
  by_type raw (some (str type)) message meta now = normalize_type raw type message meta now
  by_type raw _ message meta now = some none

  -- A property of null is an exception.
  unfoldable pub normalize : RawProviderMessage → String → Option (Option CanonicalEvent)
  normalize raw now =
      let msg = some raw.payload in
      if is_some (present msg)
      then by_type raw (member "MessageType" msg) (member "Message" msg) (member "MetaData" msg) now
      else none
