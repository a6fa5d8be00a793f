-- ===== src/Ingestion/Normalizer/Contract.antt =====
-- What comes out of the schemas, and so of the normalizer.
use Prim.Native.String.{String}
use mathlib.Core.Option.{some-injective}
use ais_tracking_system.Prelude.{
  ◌≡◌, refl, subst, Bool, false, Option, none, some, leb, if_cases, ite_cases, is_some,
  str_discrete,
}
use ais_tracking_system.Prelude.Double.{of_nat, leb_Double}
use ais_tracking_system.Prelude.Throws.{◌>>=◌, >>=-eq-some}
use ais_tracking_system.Contracts.{PositionEvent, StaticEvent, CanonicalEvent, position, static}
use ais_tracking_system.Contracts.Json.{Json, null, bool, num, str, arr, obj}
use ais_tracking_system.Pipeline.Handle.{RawProviderMessage}
use ais_tracking_system.Ingestion.Schema.{
  PositionCandidate, StaticCandidate, parse_position, parse_static, is_digits, is_filled, text_if,
  number_between, nonnegative, negate, number, int_to, int, optional, required, optional_text, fits,
}
use ais_tracking_system.Ingestion.Normalizer.{
  Texts, normalize, normalize_position, normalize_static, normalize_report, position_candidate,
  as_position, as_static, normalize_type, by_type, is_falsy, is_bool, member, present,
  build_static_base_fields, occurrence_of, from_static_data_report, from_ship_static_data,
}
use ais_tracking_system.Ingestion.Normalizer.Valid.{
  IsPosition, IsStatic, is_between, text_if-passes, required-passes, number_between-passes,
  nonnegative-passes, int_to-passes, optional-passes, optional_text-passes,
}

parse_position-IsPosition :
    (is_datetime : String → Bool) (c : PositionCandidate) (r : PositionEvent)
    → parse_position is_datetime c ≡ some r
    → IsPosition is_datetime r
unfolding parse_position
parse_position-IsPosition is_datetime c r e =
    let (mmsi, e0, h0) = >>=-eq-some (text_if (is_digits 9) c.mmsi) _ e in
    let (lat, e1, h1) =
      >>=-eq-some (required (number_between (negate (of_nat 90)) (of_nat 90)) c.lat) _ h0 in
    let (lon, e2, h2) =
      >>=-eq-some (required (number_between (negate (of_nat 180)) (of_nat 180)) c.lon) _ h1 in
    let (sog, e3, h3) = >>=-eq-some (optional nonnegative c.sog) _ h2 in
    let (cog, e4, h4) =
      >>=-eq-some (optional (number_between (of_nat 0) (of_nat 360)) c.cog) _ h3 in
    let (heading, e5, h5) = >>=-eq-some (optional (int_to 511) c.true_heading) _ h4 in
    let (status, e6, h6) = >>=-eq-some (optional (int_to 15) c.nav_status) _ h5 in
    let (turn, e7, h7) = >>=-eq-some (optional number c.rate_of_turn) _ h6 in
    let (name, e8, h8) = >>=-eq-some (optional_text (fits 255) c.ship_name) _ h7 in
    let (occurred, e9, h9) = >>=-eq-some (text_if is_datetime c.occurred_at) _ h8 in
    let (provider, e10, h10) = >>=-eq-some (text_if is_filled c.provider) _ h9 in
    let (ingested, e11, h11) = >>=-eq-some (text_if is_datetime c.ingested_at) _ h10 in
    subst (IsPosition is_datetime) (some-injective _ r h11) (record {
      mmsi = text_if-passes _ c.mmsi mmsi e0;
      lat = required-passes _ _ c.lat lat e1;
      lon = required-passes _ _ c.lon lon e2;
      sog = optional-passes nonnegative (leb_Double (of_nat 0)) nonnegative-passes c.sog sog e3;
      cog =
          optional-passes _ (is_between (of_nat 0) (of_nat 360)) (number_between-passes _ _) c.cog
            cog e4;
      true_heading =
          optional-passes (int_to 511) (λ n. leb n 511) (int_to-passes 511) c.true_heading heading
            e5;
      nav_status =
          optional-passes (int_to 15) (λ n. leb n 15) (int_to-passes 15) c.nav_status status e6;
      ship_name = optional_text-passes (fits 255) c.ship_name name e8;
      occurred_at = text_if-passes _ c.occurred_at occurred e9;
      provider = text_if-passes _ c.provider provider e10;
      ingested_at = text_if-passes _ c.ingested_at ingested e11;
    })

parse_static-IsStatic :
    (is_datetime : String → Bool) (c : StaticCandidate) (r : StaticEvent)
    → parse_static is_datetime c ≡ some r
    → IsStatic is_datetime r
unfolding parse_static
parse_static-IsStatic is_datetime c r e =
    let (mmsi, e0, h0) = >>=-eq-some (text_if (is_digits 9) c.mmsi) _ e in
    let (imo, e1, h1) = >>=-eq-some (optional_text (is_digits 7) c.imo) _ h0 in
    let (name, e2, h2) = >>=-eq-some (optional_text (fits 255) c.name) _ h1 in
    let (sign, e3, h3) = >>=-eq-some (optional_text (fits 32) c.call_sign) _ h2 in
    let (type, e4, h4) = >>=-eq-some (optional (int_to 255) c.ship_type) _ h3 in
    let (bow, e5, h5) = >>=-eq-some (optional int c.dimension_to_bow) _ h4 in
    let (stern, e6, h6) = >>=-eq-some (optional int c.dimension_to_stern) _ h5 in
    let (port, e7, h7) = >>=-eq-some (optional int c.dimension_to_port) _ h6 in
    let (starboard, e8, h8) = >>=-eq-some (optional int c.dimension_to_starboard) _ h7 in
    let (destination, e9, h9) = >>=-eq-some (optional_text (fits 120) c.destination) _ h8 in
    let (occurred, e10, h10) = >>=-eq-some (text_if is_datetime c.occurred_at) _ h9 in
    let (provider, e11, h11) = >>=-eq-some (text_if is_filled c.provider) _ h10 in
    let (ingested, e12, h12) = >>=-eq-some (text_if is_datetime c.ingested_at) _ h11 in
    subst (IsStatic is_datetime) (some-injective _ r h12) (record {
      mmsi = text_if-passes _ c.mmsi mmsi e0;
      imo = optional_text-passes (is_digits 7) c.imo imo e1;
      name = optional_text-passes (fits 255) c.name name e2;
      call_sign = optional_text-passes (fits 32) c.call_sign sign e3;
      ship_type =
          optional-passes (int_to 255) (λ n. leb n 255) (int_to-passes 255) c.ship_type type e4;
      destination = optional_text-passes (fits 120) c.destination destination e9;
      occurred_at = text_if-passes _ c.occurred_at occurred e10;
      provider = text_if-passes _ c.provider provider e11;
      ingested_at = text_if-passes _ c.ingested_at ingested e12;
    })

-- An event that meets its schema.
abbrev pub IsCanonical : (String → Bool) → CanonicalEvent → Type 0
IsCanonical is_datetime (position e) = IsPosition is_datetime e
IsCanonical is_datetime (static e) = IsStatic is_datetime e

-- So does the event of a result, if there is one.
abbrev pub AllCanonical : (String → Bool) → Option (Option CanonicalEvent) → Type 0
AllCanonical is_datetime none = Unit {0}
AllCanonical is_datetime (some none) = Unit {0}
AllCanonical is_datetime (some (some e)) = IsCanonical is_datetime e

module _ (texts : Texts) where
  abbrev AllHere : Option (Option CanonicalEvent) → Type 0
  AllHere = AllCanonical texts.is_datetime

  parsed_position :
      (c : PositionCandidate) (o : Option PositionEvent)
      → parse_position texts.is_datetime c ≡ o
      → AllHere (as_position (some o))
  parsed_position c none e = tt
  parsed_position c (some r) e = parse_position-IsPosition texts.is_datetime c r e

  candidate-AllCanonical :
      (o : Option PositionCandidate)
      → AllHere (as_position (o >>= λ c. some (parse_position texts.is_datetime c)))
  candidate-AllCanonical none = tt
  candidate-AllCanonical (some c) = parsed_position c (parse_position texts.is_datetime c) refl

  normalize_position-AllCanonical :
      (raw : RawProviderMessage) (report meta : Option Json) (now : String)
      → AllHere (as_position (normalize_position texts raw report meta now))
  unfolding normalize_position
  normalize_position-AllCanonical raw none meta now = tt
  normalize_position-AllCanonical raw (some report) meta now =
      if_cases (λ (r : Option (Option PositionEvent)). AllHere (as_position r))
        (is_falsy (some report)) (some none) _ (λ e. tt)
        (λ e.
          if_cases (λ (r : Option (Option PositionEvent)). AllHere (as_position r))
            (is_bool false (member "Valid" (some report))) (some none)
            (normalize_report texts raw report meta now) (λ f. tt)
            (λ f. candidate-AllCanonical (position_candidate texts raw report meta now)))

  parsed_static :
      (c : StaticCandidate) (o : Option StaticEvent)
      → parse_static texts.is_datetime c ≡ o
      → AllHere (as_static (some o))
  parsed_static c none e = tt
  parsed_static c (some r) e = parse_static-IsStatic texts.is_datetime c r e

  static-AllCanonical :
      (o : Option StaticCandidate)
      → AllHere (as_static (some (o >>= parse_static texts.is_datetime)))
  static-AllCanonical none = tt
  static-AllCanonical (some c) = parsed_static c (parse_static texts.is_datetime c) refl

  normalize_static-AllCanonical :
      (from : Option Json → StaticCandidate → Option StaticCandidate) (raw : RawProviderMessage)
      (report meta : Option Json) (now : String)
      → AllHere (as_static (normalize_static texts from raw report meta now))
  unfolding normalize_static
  normalize_static-AllCanonical from raw report meta now = go (occurrence_of texts raw meta)
    where
      go :
          (o : Option String)
          → AllHere (
              as_static (
                o >>= λ occurred_at. some (
                  from report (
                    build_static_base_fields texts raw meta
                      (member "UserID" report)
                      occurred_at
                      now)
                  >>= parse_static texts.is_datetime)))
      go none = tt
      go (some occurred_at) = static-AllCanonical _

  normalize_type-AllCanonical :
      (raw : RawProviderMessage) (type : String) (message meta : Option Json) (now : String)
      → AllHere (normalize_type texts raw type message meta now)
  normalize_type-AllCanonical raw type message meta now =
      ite_cases AllHere (str_discrete type "PositionReport") _ _
        (normalize_position-AllCanonical raw _ meta now)
        (ite_cases AllHere (str_discrete type "StandardClassBPositionReport") _ _
          (normalize_position-AllCanonical raw _ meta now)
          (ite_cases AllHere (str_discrete type "ExtendedClassBPositionReport") _ _
            (normalize_position-AllCanonical raw _ meta now)
            (ite_cases AllHere (str_discrete type "StaticDataReport") _ _
              (normalize_static-AllCanonical from_static_data_report raw _ meta now)
              (ite_cases AllHere (str_discrete type "ShipStaticData") _ _
                (normalize_static-AllCanonical (from_ship_static_data texts) raw _ meta now) tt))))

  by_type-AllCanonical :
      (raw : RawProviderMessage) (type message meta : Option Json) (now : String)
      → AllHere (by_type texts raw type message meta now)
  by_type-AllCanonical raw (some (str type)) message meta now =
      normalize_type-AllCanonical raw type message meta now
  by_type-AllCanonical raw none message meta now = tt
  by_type-AllCanonical raw (some null) message meta now = tt
  by_type-AllCanonical raw (some (bool b)) message meta now = tt
  by_type-AllCanonical raw (some (num d)) message meta now = tt
  by_type-AllCanonical raw (some (arr a)) message meta now = tt
  by_type-AllCanonical raw (some (obj o)) message meta now = tt

  pub normalize-AllCanonical :
      (raw : RawProviderMessage) (now : String) → AllHere (normalize texts raw now)
  unfolding normalize
  normalize-AllCanonical raw now =
      if_cases AllHere (is_some (present (some raw.payload))) _ none
        (λ e. by_type-AllCanonical raw _ _ _ now) (λ e. tt)

-- Whatever JSON value comes in: an event that the normalizer returns meets the schema of its kind: nine
-- digits of MMSI, coordinates, course, heading and status in their ranges, texts within their lengths,
-- a filled provider and valid times.
pub normalize-IsCanonical :
    (texts : Texts) (raw : RawProviderMessage) (now : String) (event : CanonicalEvent)
    → normalize texts raw now ≡ some (some event)
    → IsCanonical texts.is_datetime event
normalize-IsCanonical texts raw now event e =
    subst (AllCanonical texts.is_datetime) e (normalize-AllCanonical texts raw now)
