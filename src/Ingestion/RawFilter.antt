-- ===== src/Ingestion/RawFilter.antt =====
-- The filter of raw messages (src/ingestion/aisstream/aisstream.raw-filter.ts and
-- aisstream.message-types.ts).
pub mod Accepted
use Prim.Native.String.{String}
use ais_tracking_system.Prelude.{
  ℕ, Bool, true, false, not, Option, none, some, List, [], ◌∷◌, any, if◌then◌else◌, ite,
  str_discrete,
}
use ais_tracking_system.Contracts.Json.{Json, null, bool, num, str, arr, obj}
use ais_tracking_system.Ingestion.Schema.{is_digits}
use ais_tracking_system.Ingestion.Normalizer.{member, present}

pub data RawFilterResult : Type 0 where
  accepted non_vessel_mmsi invalid : RawFilterResult

abbrev pub aisstream_accepted_message_types : List String
aisstream_accepted_message_types =
    "PositionReport" ∷ "StandardClassBPositionReport" ∷ "ExtendedClassBPositionReport"
    ∷ "StaticDataReport" ∷ "ShipStaticData" ∷ []

unfoldable pub is_ais_stream_accepted_message_type : String → Bool
is_ais_stream_accepted_message_type value =
    any (λ type. ite (str_discrete type value) true false) aisstream_accepted_message_types

-- `typeof value === 'object' && value !== null`
unfoldable pub is_record : Option Json → Bool
is_record (some (obj fields)) = true
is_record (some (arr items)) = true
is_record _ = false

unfoldable pub is_accepted_envelope : Option Json → String → Bool
is_accepted_envelope message type =
    if not (is_record message) then false else is_record (member type message)

-- `String(msg.MetaData?.MMSI ?? '')`
unfoldable pub meta_mmsi : (Json → String) → Option Json → String
meta_mmsi to_text meta = elim (present (member "MMSI" meta)) [ none ↦ "" | some j ↦ to_text j ]

-- The rest of `accept`, for a type that is a text.
unfoldable pub accept_type : (Json → String) → Option Json → Option Json → String → RawFilterResult
accept_type to_text message meta type =
    if not (is_ais_stream_accepted_message_type type)
    then non_vessel_mmsi
    else if not (is_accepted_envelope message type)
    then invalid
    else if not (is_digits 9 (meta_mmsi to_text meta))
    then non_vessel_mmsi
    else accepted

abbrev pub accept_typed :
    (Json → String) → Option Json → Option Json → Option Json → RawFilterResult
accept_typed to_text message meta (some (str type)) = accept_type to_text message meta type
accept_typed to_text message meta _ = invalid

-- A property of an array that is none of its elements is absent.
unfoldable pub accept : (Json → String) → Option Json → RawFilterResult
accept to_text raw =
    if not (is_record raw)
    then invalid
    else accept_typed to_text (member "Message" raw) (member "MetaData" raw)
        (member "MessageType" raw)
