-- ===== src/Storage/Writer.antt =====
-- The consumer that stores the events of the stream (src/storage/storage-writer.consumer.ts). The
-- schema and the bus are parameters: a handler is given what the schema makes of the payload, and
-- `publish` says what becomes of an event, which may be in the stream though the call is rejected. Logs are left out.
pub mod Published
use ais_tracking_system.Prelude.{
  ℕ, String, Bool, true, false, Option, none, some, List, [], ◌∷◌, ◌≡◌, refl, ◌++◌, ite,
  str_discrete, if◌then◌else◌,
}
use ais_tracking_system.Contracts.{
  CanonicalEvent, position, static, PositionEvent, StaticEvent, VesselPersistedEvent,
  SourceEventKind, position_kind, static_kind,
}
use ais_tracking_system.Storage.Repository.{
  Repository, Moment, Times, PersistedVesselSummary, upsert_position, upsert_profile,
}

-- What the bus makes of an event: it is in the stream or not, and the call returns or is rejected.
pub record Publication : Type 0 where
  pub is_written : Bool
  pub is_rejected : Bool

-- The world of the consumer: the repository, what is published, and the publications that failed,
-- which are logged.
pub record WriterState : Type 0 where
  pub repository : Repository
  pub published : List VesselPersistedEvent
  pub failed_publishes : List VesselPersistedEvent

abbrev pub source_mmsi : CanonicalEvent → String
source_mmsi (position event) = event.mmsi
source_mmsi (static event) = event.mmsi

abbrev pub source_kind : CanonicalEvent → SourceEventKind
source_kind (position event) = position_kind
source_kind (static event) = static_kind

abbrev pub trace_of : CanonicalEvent → Option String
trace_of (position event) = event.trace_id
trace_of (static event) = event.trace_id

-- `text ? { traceId: text } : {}`
abbrev pub unless_empty : Option String → Option String
unless_empty none = none
unless_empty (some text) = ite (str_discrete text "") none (some text)

unfoldable pub persisted_event :
    CanonicalEvent → PersistedVesselSummary → String → VesselPersistedEvent
persisted_event source summary persisted_at = record {
  vessel_id = summary.vessel_id;
  mmsi = summary.mmsi;
  imo = summary.imo;
  name = summary.name;
  source_event_kind = source_kind source;
  persisted_at = persisted_at;
  trace_id = unless_empty (trace_of source);
}

unfoldable pub persist :
    Times
    → ℕ
    → Moment
    → CanonicalEvent
    → Repository
    → Option (Option PersistedVesselSummary) × Repository
persist times retention_days at (position event) s = upsert_position times retention_days at event s
persist times retention_days at (static event) s = upsert_profile times retention_days at event s

abbrev pub appended_if :
    Bool → VesselPersistedEvent → List VesselPersistedEvent → List VesselPersistedEvent
appended_if true event events = events ++ event ∷ []
appended_if false event events = events

module _ (publish : VesselPersistedEvent → Publication) where
  -- A rejection of the bus is caught.
  unfoldable pub publish_persisted_event :
      CanonicalEvent → PersistedVesselSummary → String → WriterState → WriterState
  publish_persisted_event source summary persisted_at s =
      let event = persisted_event source summary persisted_at in
      record s {
        published = appended_if (publish event).is_written event s.published;
        failed_publishes = appended_if (publish event).is_rejected event s.failed_publishes;
      }

  abbrev pub after_persist :
      CanonicalEvent
      → String
      → WriterState
      → Option (Option PersistedVesselSummary) × Repository
      → Option (Unit {0}) × WriterState
  after_persist event persisted_at s (none, r) = (none, record s { repository = r })
  after_persist event persisted_at s (some none, r) = (some tt, record s { repository = r })
  after_persist event persisted_at s (some (some summary), r) =
      (some tt, publish_persisted_event event summary persisted_at (record s { repository = r }))

  -- The handler, given what the schema makes of the payload: the bus acknowledges a message whose
  -- handler resolves.
  unfoldable pub store_event :
      Times
      → ℕ
      → Moment
      → String
      → Option CanonicalEvent
      → WriterState
      → Option (Unit {0}) × WriterState
  store_event times retention_days at persisted_at none s = (some tt, s)
  store_event times retention_days at persisted_at (some event) s =
      after_persist event persisted_at s (persist times retention_days at event s.repository)
