-- ===== src/Ingestion/RawFilter/Accepted.antt =====
-- What the filter accepts, before the normalizer.
use Prim.Native.String.{String}
use ais_tracking_system.Prelude.{
  ◌≡◌, refl, subst, arith, true, not, Option, none, some, is_some, if_cases,
}
use ais_tracking_system.Contracts.Json.{Json, null, bool, num, str, arr, obj}
use ais_tracking_system.Pipeline.Handle.{RawProviderMessage}
use ais_tracking_system.Ingestion.Schema.{is_digits}
use ais_tracking_system.Ingestion.Normalizer.{Texts, member, present, normalize}
use ais_tracking_system.Ingestion.Normalizer.Reports.{
  is_text_or_absent, is_object_or_absent, normalize-returns,
}
use ais_tracking_system.Ingestion.RawFilter.{
  RawFilterResult, accepted, invalid, is_record, is_accepted_envelope,
  is_ais_stream_accepted_message_type, meta_mmsi, accept_type, accept_typed, accept,
}

-- What is known of an accepted message: its type, the report of that type, and the MMSI.
pub record IsAccepted (to_text : Json → String) (raw : Option Json) : Type 0 where
  pub type : String
  pub typed : member "MessageType" raw ≡ some (str type)
  pub known : is_ais_stream_accepted_message_type type ≡ true
  pub report : is_record (member type (member "Message" raw)) ≡ true
  pub mmsi : is_digits 9 (meta_mmsi to_text (member "MetaData" raw)) ≡ true

accept_typed-IsAccepted :
    (to_text : Json → String) (raw type : Option Json)
    → member "MessageType" raw ≡ type
    → accept_typed to_text (member "Message" raw) (member "MetaData" raw) type ≡ accepted
    → IsAccepted to_text raw
unfolding accept_type is_accepted_envelope
accept_typed-IsAccepted to_text raw (some (str type)) t e = record {
  type = type;
  typed = t;
  known = ground arith;
  report = ground arith;
  mmsi = ground arith;
}
accept_typed-IsAccepted to_text raw none t e = cc
accept_typed-IsAccepted to_text raw (some null) t e = cc
accept_typed-IsAccepted to_text raw (some (bool b)) t e = cc
accept_typed-IsAccepted to_text raw (some (num d)) t e = cc
accept_typed-IsAccepted to_text raw (some (arr a)) t e = cc
accept_typed-IsAccepted to_text raw (some (obj o)) t e = cc

accept-IsAccepted :
    (to_text : Json → String) (raw : Option Json)
    → accept to_text raw ≡ accepted
    → IsAccepted to_text raw × (is_record raw ≡ true)
unfolding accept
accept-IsAccepted to_text raw e =
    if_cases
      (λ (r : RawFilterResult). r ≡ accepted → IsAccepted to_text raw × (is_record raw ≡ true))
      (not (is_record raw)) invalid _ (λ h k. cc)
      (λ h k. (accept_typed-IsAccepted to_text raw _ refl k, ground arith)) e

record-object : (j : Option Json) → is_record j ≡ true → is_object_or_absent j ≡ true
unfolding is_record
record-object none h = refl
record-object (some (obj o)) h = refl
record-object (some (arr a)) h = refl
record-object (some null) h = cc
record-object (some (bool b)) h = cc
record-object (some (num d)) h = cc
record-object (some (str s)) h = cc

record-present : (j : Option Json) → is_record j ≡ true → is_some (present j) ≡ true
unfolding is_record present
record-present (some (obj o)) h = refl
record-present (some (arr a)) h = refl
record-present none h = cc
record-present (some null) h = cc
record-present (some (bool b)) h = cc
record-present (some (num d)) h = cc
record-present (some (str s)) h = cc

-- The normalizer throws on no message that the filter accepts, if the time in its metadata is a text
-- or absent.
pub accepted-returns :
    (texts : Texts) (raw : RawProviderMessage) (now : String)
    → accept texts.to_text (some raw.payload) ≡ accepted
    → is_text_or_absent (member "time_utc" (member "MetaData" (some raw.payload))) ≡ true
    → is_some (normalize texts raw now) ≡ true
accepted-returns texts raw now e h =
    let (a, r) = accept-IsAccepted texts.to_text (some raw.payload) e in
    normalize-returns texts raw now (record-present (some raw.payload) r) h (λ name t.
      subst (λ n. is_object_or_absent (member n (member "Message" (some raw.payload))) ≡ true)
        (same a name t) (record-object _ a.report))
  where
    same :
        (a : IsAccepted texts.to_text (some raw.payload)) (name : String)
        → member "MessageType" (some raw.payload) ≡ some (str name)
        → a.type ≡ name
    same a name t = cc (a.typed, t)
