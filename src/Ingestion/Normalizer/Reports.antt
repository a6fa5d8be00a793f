-- ===== src/Ingestion/Normalizer/Reports.antt =====
-- The reports of static data, and the values that the normalizer takes without an exception.
use Prim.Native.String.{String}
use ais_tracking_system.Prelude.{
  ℕ, ◌≡◌, refl, subst, arith, Bool, true, false, ◌&&◌, Option, none, some, List, is_some, ◌⊎◌,
  if_cases, ite, str_discrete,
}
use ais_tracking_system.Prelude.Throws.{◌>>=◌}
use ais_tracking_system.Contracts.{CanonicalEvent, PositionEvent}
use ais_tracking_system.Contracts.Json.{Json, null, bool, num, str, arr, obj}
use ais_tracking_system.Pipeline.Handle.{RawProviderMessage}
use ais_tracking_system.Ingestion.Clean.{parse_ais_stream_timestamp}
use ais_tracking_system.Ingestion.Schema.{StaticCandidate}
use ais_tracking_system.Ingestion.Normalizer.{
  Texts, Dimensions, member, present, is_falsy, is_bool, is_zero, is_in, dimensions_or_null,
  from_static_data_report, from_ship_static_data, normalize, normalize_position, normalize_static,
  normalize_report, normalize_type, by_type, as_position, as_static, occurrence_of, ship_name_of,
  has_navigation_fields, has_embedded_ship_name, position_candidate,
}

-- Four zeros stand for unknown dimensions.
pub dimensions-known :
    (d : Option Json)
    → (let r = dimensions_or_null d in
        is_zero r.bow && is_zero r.stern && is_zero r.port && is_zero r.starboard ≡ false)
unfolding dimensions_or_null is_zero
dimensions-known d =
    let a = present (member "A" d) in
    let b = present (member "B" d) in
    let c = present (member "C" d) in
    let dd = present (member "D" d) in
    if_cases
      (λ (r : Dimensions).
        is_zero r.bow && is_zero r.stern && is_zero r.port && is_zero r.starboard ≡ false)
      (is_zero a && is_zero b && is_zero c && is_zero dd)
      (record { bow = none; stern = none; port = none; starboard = none })
      (record { bow = a; stern = b; port = c; starboard = dd }) (λ e. refl) (λ e. e)

dimensions-none :
    dimensions_or_null none ≡ record { bow = none; stern = none; port = none; starboard = none }
unfolding dimensions_or_null member present is_zero
dimensions-none = refl

abbrev pub part_valid : String → Option Json → Bool
part_valid part report = is_bool true (member "Valid" (member part report))

-- What a report of static data tells comes from a part that says that it is valid.
pub record IsVouched (report : Option Json) (c : StaticCandidate) : Type 0 where
  pub parts : (part_valid "ReportA" report ≡ true) ⊎ (part_valid "ReportB" report ≡ true)
  pub name : is_some c.name ≡ true → part_valid "ReportA" report ≡ true
  pub call_sign : is_some c.call_sign ≡ true → part_valid "ReportB" report ≡ true
  pub ship_type : is_some c.ship_type ≡ true → part_valid "ReportB" report ≡ true
  pub dimension_to_bow : is_some c.dimension_to_bow ≡ true → part_valid "ReportB" report ≡ true
  pub dimension_to_stern : is_some c.dimension_to_stern ≡ true → part_valid "ReportB" report ≡ true
  pub dimension_to_port : is_some c.dimension_to_port ≡ true → part_valid "ReportB" report ≡ true
  pub dimension_to_starboard :
      is_some c.dimension_to_starboard ≡ true → part_valid "ReportB" report ≡ true
  pub imo : c.imo ≡ none
  pub destination : c.destination ≡ none

pub from_static_data_report-IsVouched :
    (report : Option Json) (base c : StaticCandidate)
    → from_static_data_report report base ≡ some c
    → IsVouched report c
unfolding from_static_data_report
from_static_data_report-IsVouched report base c e = ground (arith, dimensions-none)

-- What the types of the messages promise of a time and of a report.
abbrev pub is_text_or_absent : Option Json → Bool
is_text_or_absent none = true
is_text_or_absent (some (str s)) = true
is_text_or_absent (some _) = false

abbrev pub is_object_or_absent : Option Json → Bool
is_object_or_absent none = true
is_object_or_absent (some (obj o)) = true
is_object_or_absent (some (arr a)) = true
is_object_or_absent (some _) = false

parse-returns :
    (to_iso : List ℕ → Option String) (time : Option Json)
    → is_text_or_absent time ≡ true
    → is_some (parse_ais_stream_timestamp to_iso time) ≡ true
unfolding parse_ais_stream_timestamp
parse-returns to_iso none h = refl
parse-returns to_iso (some (str s)) h = refl
parse-returns to_iso (some null) h = cc
parse-returns to_iso (some (bool b)) h = cc
parse-returns to_iso (some (num d)) h = cc
parse-returns to_iso (some (arr a)) h = cc
parse-returns to_iso (some (obj o)) h = cc

>>=-returns :
    {A B : Type 0} (o : Option A) (f : A → Option B)
    → is_some o ≡ true
    → ((a : A) → is_some (f a) ≡ true)
    → is_some (o >>= f) ≡ true
>>=-returns none f h k = cc
>>=-returns (some a) f h k = k a

ite_returns :
    {A : Type 0} (type name : String) (x y : Option A)
    → (type ≡ name → is_some x ≡ true)
    → is_some y ≡ true
    → is_some (ite (str_discrete type name) x y) ≡ true
ite_returns type name x y h k = go (str_discrete type name)
  where
    go : (d : Dec (type ≡ name)) → is_some (ite d x y) ≡ true
    go (yes e) = h e
    go (no n) = k

module _ (texts : Texts) where
  occurred_at-returns :
      (raw : RawProviderMessage) (meta : Option Json)
      → is_text_or_absent (member "time_utc" meta) ≡ true
      → is_some (occurrence_of texts raw meta) ≡ true
  unfolding occurrence_of
  occurred_at-returns raw meta h = >>=-returns _ _ (parse-returns texts.to_iso _ h) (λ a. refl)

  ship_name-returns :
      (report : Json) (meta : Option Json)
      → is_object_or_absent (some report) ≡ true
      → is_some (ship_name_of texts report meta) ≡ true
  unfolding ship_name_of has_embedded_ship_name is_in
  ship_name-returns (obj fields) meta k = ground arith
  ship_name-returns (arr items) meta k = ground arith
  ship_name-returns null meta k = cc
  ship_name-returns (bool b) meta k = cc
  ship_name-returns (num d) meta k = cc
  ship_name-returns (str s) meta k = cc

  navigation-returns :
      (report : Json)
      → is_object_or_absent (some report) ≡ true
      → is_some (has_navigation_fields report) ≡ true
  unfolding has_navigation_fields is_in
  navigation-returns (obj fields) k = refl
  navigation-returns (arr items) k = refl
  navigation-returns null k = cc
  navigation-returns (bool b) k = cc
  navigation-returns (num d) k = cc
  navigation-returns (str s) k = cc

  candidate-returns :
      (raw : RawProviderMessage) (report : Json) (meta : Option Json) (now : String)
      → is_text_or_absent (member "time_utc" meta) ≡ true
      → is_object_or_absent (some report) ≡ true
      → is_some (position_candidate texts raw report meta now) ≡ true
  unfolding position_candidate
  candidate-returns raw report meta now h k = >>=-returns _ _ (occurred_at-returns raw meta h) (λ a.
      >>=-returns _ _ (ship_name-returns report meta k)
        (λ b. >>=-returns _ _ (navigation-returns report k) (λ c. refl)))

  report-returns :
      (raw : RawProviderMessage) (report meta : Option Json) (now : String)
      → is_text_or_absent (member "time_utc" meta) ≡ true
      → is_object_or_absent report ≡ true
      → is_some (normalize_position texts raw report meta now) ≡ true
  unfolding normalize_position
  report-returns raw none meta now h k = refl
  report-returns raw (some report) meta now h k =
      let Returns : Option (Option PositionEvent) → Type 0 = λ r. is_some r ≡ true in
      if_cases Returns (is_falsy (some report)) (some none) _ (λ e. refl)
        (λ e.
          if_cases Returns (is_bool false (member "Valid" (some report))) (some none)
            (normalize_report texts raw report meta now) (λ e. refl)
            (λ e. >>=-returns _ _ (candidate-returns raw report meta now h k) (λ c. refl)))

  position-returns :
      (raw : RawProviderMessage) (report meta : Option Json) (now : String)
      → is_text_or_absent (member "time_utc" meta) ≡ true
      → is_object_or_absent report ≡ true
      → is_some (as_position (normalize_position texts raw report meta now)) ≡ true
  position-returns raw report meta now h k =
      >>=-returns _ _ (report-returns raw report meta now h k) (λ o. refl)

  static-returns :
      (from : Option Json → StaticCandidate → Option StaticCandidate) (raw : RawProviderMessage)
      (report meta : Option Json) (now : String)
      → is_text_or_absent (member "time_utc" meta) ≡ true
      → is_some (as_static (normalize_static texts from raw report meta now)) ≡ true
  unfolding normalize_static
  static-returns from raw report meta now h =
      >>=-returns _ _ (>>=-returns _ _ (occurred_at-returns raw meta h) (λ a. refl)) (λ o. refl)

  abbrev IsObject : Option Json → String → Type 0
  IsObject message name = is_object_or_absent (member name message) ≡ true

  normalize_type-returns :
      (raw : RawProviderMessage) (type : String) (message meta : Option Json) (now : String)
      → is_text_or_absent (member "time_utc" meta) ≡ true
      → is_object_or_absent (member type message) ≡ true
      → is_some (normalize_type texts raw type message meta now) ≡ true
  normalize_type-returns raw type message meta now h k =
      ite_returns type "PositionReport" _ _
        (λ e. position-returns raw _ meta now h (subst (IsObject message) e k))
        (ite_returns type "StandardClassBPositionReport" _ _
          (λ e. position-returns raw _ meta now h (subst (IsObject message) e k))
          (ite_returns type "ExtendedClassBPositionReport" _ _
            (λ e. position-returns raw _ meta now h (subst (IsObject message) e k))
            (ite_returns type "StaticDataReport" _ _
              (λ e. static-returns from_static_data_report raw _ meta now h)
              (ite_returns type "ShipStaticData" _ _
                (λ e. static-returns (from_ship_static_data texts) raw _ meta now h) refl))))

  by_type-returns :
      (raw : RawProviderMessage) (type message meta : Option Json) (now : String)
      → is_text_or_absent (member "time_utc" meta) ≡ true
      → ((name : String)
          → type ≡ some (str name)
          → is_object_or_absent (member name message) ≡ true)
      → is_some (by_type texts raw type message meta now) ≡ true
  by_type-returns raw (some (str type)) message meta now h k =
      normalize_type-returns raw type message meta now h (k type refl)
  by_type-returns raw none message meta now h k = refl
  by_type-returns raw (some null) message meta now h k = refl
  by_type-returns raw (some (bool b)) message meta now h k = refl
  by_type-returns raw (some (num d)) message meta now h k = refl
  by_type-returns raw (some (arr a)) message meta now h k = refl
  by_type-returns raw (some (obj o)) message meta now h k = refl

-- The normalizer throws on no payload that is there, whose time is a text or absent, and whose report
-- of the message's type is an object, an array or absent.
pub normalize-returns :
    (texts : Texts) (raw : RawProviderMessage) (now : String)
    → is_some (present (some raw.payload)) ≡ true
    → is_text_or_absent (member "time_utc" (member "MetaData" (some raw.payload))) ≡ true
    → ((name : String)
        → member "MessageType" (some raw.payload) ≡ some (str name)
        → is_object_or_absent (member name (member "Message" (some raw.payload))) ≡ true)
    → is_some (normalize texts raw now) ≡ true
unfolding normalize
normalize-returns texts raw now p h k =
    if_cases (λ (r : Option (Option CanonicalEvent)). is_some r ≡ true)
      (is_some (present (some raw.payload))) _ none (λ e. by_type-returns texts raw _ _ _ now h k)
      (λ e. cc)
