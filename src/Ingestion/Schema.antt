-- ===== src/Ingestion/Schema.antt =====
-- The schemas of src/contracts/index.ts as what `safeParse` does to a candidate: each field is a
-- value of JSON or is absent. The texts of times are judged by a parameter.
use Prim.Native.String.{String}
use ais_tracking_system.Prelude.{
  ℕ, ◌+◌, ◌-◌, ◌*◌, ◌/◌, ◌%◌, ◌^◌, Bool, true, false, ◌&&◌, ◌||◌, Option, none, some, List, [], ◌∷◌,
  ltb, leb, ◌==◌, if◌then◌else◌, length,
}
use ais_tracking_system.Prelude.Double.{Double, is_nan, leb_Double, of_nat}
use ais_tracking_system.Prelude.Throws.{◌>>=◌}
use ais_tracking_system.Contracts.{PositionEvent, StaticEvent}
use ais_tracking_system.Contracts.Json.{Json, null, bool, num, str, arr, obj}
use ais_tracking_system.Storage.Digits.{codes, is_digit}
use ais_tracking_system.Ingestion.Clean.{length_of}

abbrev pub all_digit : List ℕ → Bool
all_digit [] = true
all_digit (c ∷ s) = is_digit c && all_digit s

-- `/^\d{k}$/`
unfoldable pub is_digits : ℕ → String → Bool
is_digits k s = (length (codes s) == k) && all_digit (codes s)

abbrev pub negate : Double → Double
negate d = record { negative = true; magnitude = d.magnitude }

-- The whole number that a double without its sign is, if it is one.
unfoldable pub whole : Double → Option ℕ
whole d =
    let exponent = d.magnitude / 2 ^ 52 in
    let mantissa = 2 ^ 52 + d.magnitude % 2 ^ 52 in
    if d.magnitude == 0
    then some 0
    else if leb 2047 exponent || ltb exponent 1023
    then none
    else if ltb 1075 exponent
    then some (mantissa * 2 ^ (exponent - 1075))
    else if mantissa % 2 ^ (1075 - exponent) == 0
    then some (mantissa / 2 ^ (1075 - exponent))
    else none

-- `z.number()` between two bounds, and without an upper one
unfoldable pub number_between : Double → Double → Json → Option Double
number_between low high (num d) = if leb_Double low d && leb_Double d high then some d else none
number_between low high _ = none

unfoldable pub nonnegative : Json → Option Double
nonnegative (num d) = if leb_Double (of_nat 0) d then some d else none
nonnegative _ = none

unfoldable pub number : Json → Option Double
number (num d) = if is_nan d then none else some d
number _ = none

-- `z.number().int()` from 0 on, to a bound
unfoldable pub int_to : ℕ → Json → Option ℕ
int_to high j = do d ← nonnegative j; n ← whole d; if leb n high then some n else none

unfoldable pub int : Json → Option ℕ
int j = do d ← nonnegative j; whole d

-- `z.string().max(n)`
unfoldable pub text_to : ℕ → Json → Option String
text_to n (str s) = if leb (length_of s) n then some s else none
text_to n _ = none

-- `.nullable().optional()`
unfoldable pub optional : {A : Type 0} → (Json → Option A) → Option Json → Option (Option A)
optional check none = some none
optional check (some null) = some none
optional check (some (bool b)) = check (bool b) >>= λ a. some (some a)
optional check (some (num d)) = check (num d) >>= λ a. some (some a)
optional check (some (str s)) = check (str s) >>= λ a. some (some a)
optional check (some (arr a)) = check (arr a) >>= λ a. some (some a)
optional check (some (obj o)) = check (obj o) >>= λ a. some (some a)

abbrev pub required : {A : Type 0} → (Json → Option A) → Option Json → Option A
required check none = none
required check (some j) = check j

-- A text that passes a test.
unfoldable pub text_if : (String → Bool) → String → Option String
text_if test s = if test s then some s else none

-- `z.string().min(1)`
unfoldable pub is_filled : String → Bool
is_filled String.[] = false
is_filled (String.◌∷◌ c s) = true

-- The candidates of the normalizer, without the two constants. They have no `traceId`.
pub record PositionCandidate : Type 0 where
  pub mmsi : String
  pub lat : Option Json
  pub lon : Option Json
  pub sog : Option Json
  pub cog : Option Json
  pub true_heading : Option Json
  pub nav_status : Option Json
  pub rate_of_turn : Option Json
  pub ship_name : Option String
  pub occurred_at : String
  pub provider : String
  pub ingested_at : String

pub record StaticCandidate : Type 0 where
  pub mmsi : String
  pub imo : Option String
  pub name : Option String
  pub call_sign : Option String
  pub ship_type : Option Json
  pub dimension_to_bow : Option Json
  pub dimension_to_stern : Option Json
  pub dimension_to_port : Option Json
  pub dimension_to_starboard : Option Json
  pub destination : Option String
  pub occurred_at : String
  pub provider : String
  pub ingested_at : String

-- A text or null, under a test.
abbrev pub optional_text : (String → Bool) → Option String → Option (Option String)
optional_text test none = some none
optional_text test (some s) = text_if test s >>= λ t. some (some t)

abbrev pub fits : ℕ → String → Bool
fits n s = leb (length_of s) n

-- `is_datetime` is `z.string().datetime({ offset: true })`.
module _ (is_datetime : String → Bool) where
  unfoldable pub parse_position : PositionCandidate → Option PositionEvent
  parse_position c = do
    mmsi ← text_if (is_digits 9) c.mmsi
    lat ← required (number_between (negate (of_nat 90)) (of_nat 90)) c.lat
    lon ← required (number_between (negate (of_nat 180)) (of_nat 180)) c.lon
    sog ← optional nonnegative c.sog
    cog ← optional (number_between (of_nat 0) (of_nat 360)) c.cog
    true_heading ← optional (int_to 511) c.true_heading
    nav_status ← optional (int_to 15) c.nav_status
    rate_of_turn ← optional number c.rate_of_turn
    ship_name ← optional_text (fits 255) c.ship_name
    occurred_at ← text_if is_datetime c.occurred_at
    provider ← text_if is_filled c.provider
    ingested_at ← text_if is_datetime c.ingested_at
    some (record {
      mmsi = mmsi;
      lat = lat;
      lon = lon;
      sog = sog;
      cog = cog;
      true_heading = true_heading;
      nav_status = nav_status;
      rate_of_turn = rate_of_turn;
      ship_name = ship_name;
      occurred_at = occurred_at;
      provider = provider;
      ingested_at = ingested_at;
      trace_id = none;
    })

  unfoldable pub parse_static : StaticCandidate → Option StaticEvent
  parse_static c = do
    mmsi ← text_if (is_digits 9) c.mmsi
    imo ← optional_text (is_digits 7) c.imo
    name ← optional_text (fits 255) c.name
    call_sign ← optional_text (fits 32) c.call_sign
    ship_type ← optional (int_to 255) c.ship_type
    bow ← optional int c.dimension_to_bow
    stern ← optional int c.dimension_to_stern
    port ← optional int c.dimension_to_port
    starboard ← optional int c.dimension_to_starboard
    destination ← optional_text (fits 120) c.destination
    occurred_at ← text_if is_datetime c.occurred_at
    provider ← text_if is_filled c.provider
    ingested_at ← text_if is_datetime c.ingested_at
    some (record {
      mmsi = mmsi;
      imo = imo;
      name = name;
      call_sign = call_sign;
      ship_type = ship_type;
      dimension_to_bow = bow;
      dimension_to_stern = stern;
      dimension_to_port = port;
      dimension_to_starboard = starboard;
      destination = destination;
      occurred_at = occurred_at;
      provider = provider;
      ingested_at = ingested_at;
      trace_id = none;
    })
