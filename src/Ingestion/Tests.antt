-- ===== src/Ingestion/Tests.antt =====
-- The theorems of the ingestion at concrete inputs.
use ais_tracking_system.Prelude.{
  ◌≡◌, refl, true, none, some, List, [], ◌∷◌, is_some, str_discrete, ℕ_discrete,
}
use ais_tracking_system.Prelude.Double.{of_nat}
use ais_tracking_system.Contracts.{PositionEvent, position}
use ais_tracking_system.Contracts.Json.{Json, num, str, bool, obj, end, field, property}
use ais_tracking_system.Storage.Digits.{is_digit}
use ais_tracking_system.Pipeline.Handle.{RawProviderMessage}
use ais_tracking_system.Ingestion.Clean.{
  clean_string, clean_text, trim_start, trim_end, is_padding, length_of, take_units,
  parse_ais_stream_timestamp,
}
use ais_tracking_system.Ingestion.Schema.{
  parse_position, is_digits, whole, number_between, nonnegative, number, int_to, optional, text_if,
  is_filled,
}
use ais_tracking_system.Ingestion.Normalizer.{
  Texts, normalize, normalize_position, position_candidate, member, present, is_falsy, is_bool,
  is_in, has_navigation_fields, has_embedded_ship_name, mmsi_text, occurrence_of, ship_name_of,
}
use ais_tracking_system.Ingestion.Normalizer.Contract.{IsCanonical, normalize-IsCanonical}
use ais_tracking_system.Ingestion.RawFilter.{
  accept, accepted, accept_type, is_record, is_accepted_envelope, meta_mmsi,
  is_ais_stream_accepted_message_type,
}
use ais_tracking_system.Ingestion.RawFilter.Accepted.{accepted-returns}
use ais_tracking_system.Ingestion.Adapter.{
  Adapter, adapter_step, starts, closes, new_adapter, start_adapter, connect,
}
use ais_tracking_system.Ingestion.Adapter.Connection.{
  IsReached, begin, next, IsLive, reached-IsLive,
}
use ais_tracking_system.Ingestion.Registry.{ProviderPair, resolve, pairs_by_id}
use ais_tracking_system.Ingestion.Registry.Entries.{IsResolved, distinct_from, resolve-IsResolved}

abbrev texts : Texts
texts = record { to_text = λ j. "123456789"; to_iso = λ s. none; is_datetime = λ s. true }

abbrev degrees : Json
degrees = num (of_nat 34)

abbrev report : Json
report = obj (
    field "Latitude" degrees
      (field "Longitude" degrees (field "Sog" (num (of_nat 7)) (field "Valid" (bool true) end))))

abbrev raw : RawProviderMessage
raw = record {
  provider = "aisstream";
  received_at = "t";
  payload =
      (obj (
        field "MessageType" (str "PositionReport") (
          field "Message" (obj (field "PositionReport" report end)) (
            field "MetaData"
              (obj (field "MMSI" (num (of_nat 123456789)) (field "ShipName" (str "ALPHA @@ ") end)))
              end))));
}

abbrev alpha : PositionEvent
alpha = record {
  mmsi = "123456789";
  lat = of_nat 34;
  lon = of_nat 34;
  sog = some (of_nat 7);
  cog = none;
  true_heading = none;
  nav_status = none;
  rate_of_turn = none;
  ship_name = some "ALPHA";
  occurred_at = "t";
  provider = "aisstream";
  ingested_at = "now";
  trace_id = none;
}

alpha_normalized : normalize texts raw "now" ≡ some (some (position alpha))
unfolding normalize normalize_position position_candidate member present is_falsy is_bool is_in
    has_navigation_fields has_embedded_ship_name mmsi_text occurrence_of ship_name_of clean_string
    clean_text trim_start trim_end is_padding length_of take_units parse_ais_stream_timestamp
    property parse_position is_digits whole number_between nonnegative number int_to optional
    text_if is_filled is_digit of_nat str_discrete ℕ_discrete
alpha_normalized = refl

normalize-IsCanonical_example : IsCanonical texts.is_datetime (position alpha)
normalize-IsCanonical_example =
    normalize-IsCanonical texts raw "now" (position alpha) alpha_normalized

raw_accepted : accept texts.to_text (some raw.payload) ≡ accepted
unfolding accept accept_type is_record is_accepted_envelope meta_mmsi
    is_ais_stream_accepted_message_type member present property is_digits is_digit str_discrete
raw_accepted = refl

accepted-returns_example : is_some (normalize texts raw "now") ≡ true
unfolding member property str_discrete
accepted-returns_example = accepted-returns texts raw "now" raw_accepted refl

-- Started and disconnected.
abbrev started : Adapter
started = adapter_step texts.to_text (λ n. n) (starts (some "key") "t") new_adapter

started-IsReached : IsReached texts.to_text (λ n. n) started
started-IsReached = next new_adapter (starts (some "key") "t") begin tt

started_connected : is_some started.socket ≡ true
unfolding adapter_step start_adapter connect new_adapter
started_connected = refl

reached-IsLive_example : IsLive (adapter_step texts.to_text (λ n. n) closes started)
unfolding adapter_step start_adapter connect new_adapter
reached-IsLive_example =
    reached-IsLive texts.to_text (λ n. n) (adapter_step texts.to_text (λ n. n) closes started)
      (next started closes started-IsReached refl)

abbrev pairs : List ProviderPair
pairs = record { adapter_id = "aisstream"; normalizer_provider = "aisstream" } ∷ []

resolve-IsResolved_example :
    IsResolved
      (pairs_by_id pairs [])
      (distinct_from [] ("aisstream" ∷ "aisstream" ∷ []))
      (resolve pairs ("aisstream" ∷ "aisstream" ∷ []))
resolve-IsResolved_example = resolve-IsResolved pairs ("aisstream" ∷ "aisstream" ∷ [])
