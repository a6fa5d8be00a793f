-- ===== src/Pipeline/Handle.antt =====
-- The pipeline's handling of a message (src/pipeline/ingestion-pipeline.service.ts). The state `W`
-- of Redis, the database, the clock and the stream is a parameter. So are the services: the
-- normalizer, `randomUUID`, the check against land and the bus.
pub mod Accounts
pub mod Log
pub mod Publish
pub mod Stream
use ais_tracking_system.Prelude.{
  ℕ, ◌+◌, String, Bool, true, false, not, ◌&&◌, Option, none, some, List, [], ◌∷◌, if◌then◌else◌,
}
use ais_tracking_system.Prelude.Double.{Double}
use ais_tracking_system.Prelude.Int.{ℤ}
use ais_tracking_system.Prelude.Task.{Task, await, ◌>>=◌, ◌>>◌, resolve}
use ais_tracking_system.Contracts.{PositionEvent, StaticEvent, CanonicalEvent, position, static}
use ais_tracking_system.Contracts.Json.{Json}
use ais_tracking_system.Geo.{GeoValidationReason, validation_error, GeoValidationResult}
use ais_tracking_system.Pipeline.{Redis}
use ais_tracking_system.Pipeline.Coverage.{point_in_any_bbox, ais_coverage_bboxes}
use ais_tracking_system.Pipeline.Dedup.{should_accept}
use ais_tracking_system.Pipeline.Sampler.{JsonText, SamplerConfig, should_emit}

pub data DropReason : Type 0 where
  duplicate sampled out_of_bbox on_land geo_validation_error non_vessel_mmsi invalid : DropReason

pub record RawProviderMessage : Type 0 where
  pub provider : String
  pub received_at : String
  pub payload : Json

pub data EventKind : Type 0 where
  position_kind static_kind : EventKind

pub record Services (W : Type 0) : Type 0 where
  pub redis : Redis W
  pub json : JsonText
  pub parse_date : String → Option ℤ
  pub normalize : RawProviderMessage → Task W (Option CanonicalEvent)
  pub random_uuid : Task W String
  pub validate_position : PositionEvent → Task W GeoValidationResult
  pub publish : String → CanonicalEvent → Task W String

pub record PipelineConfig : Type 0 where
  pub dedup_ttl_seconds : ℕ
  pub sampler : SamplerConfig

-- The counters, as the labels of their `inc` calls, newest first, and the number of logged errors.
pub record PipelineState (W : Type 0) : Type 0 where
  pub world : W
  pub received : List String
  pub dropped : List DropReason
  pub published : List EventKind
  pub errors : ℕ

abbrev pub mmsi_of : CanonicalEvent → String
mmsi_of (position e) = e.mmsi
mmsi_of (static e) = e.mmsi

abbrev pub occurred_at_of : CanonicalEvent → String
occurred_at_of (position e) = e.occurred_at
occurred_at_of (static e) = e.occurred_at

abbrev pub trace_id_of : CanonicalEvent → Option String
trace_id_of (position e) = e.trace_id
trace_id_of (static e) = e.trace_id

abbrev pub kind_of : CanonicalEvent → EventKind
kind_of (position e) = position_kind
kind_of (static e) = static_kind

abbrev pub with_trace_id : String → CanonicalEvent → CanonicalEvent
with_trace_id id (position e) = position (record e { trace_id = some id })
with_trace_id id (static e) = static (record e { trace_id = some id })

abbrev pub is_out_of_bbox : CanonicalEvent → Bool
is_out_of_bbox (position e) = not (point_in_any_bbox e.lat e.lon ais_coverage_bboxes)
is_out_of_bbox (static e) = false

abbrev pub to_geo_drop_reason : GeoValidationReason → DropReason
to_geo_drop_reason validation_error = geo_validation_error
to_geo_drop_reason _ = on_land

abbrev pub ais_events_stream : String
ais_events_stream = "ais.events.v1"

module _ {W : Type 0} where
  abbrev pub on_world : {A : Type 0} → Task W A → Task (PipelineState W) A
  on_world m s = let (value, world) = m s.world in (value, record s { world = world })

  abbrev pub drop : DropReason → Task (PipelineState W) (Unit {0})
  drop reason s = (some tt, record s { dropped = reason ∷ s.dropped })

  abbrev pub count_published : EventKind → Task (PipelineState W) (Unit {0})
  count_published kind s = (some tt, record s { published = kind ∷ s.published })

  -- `.catch`, which logs the error.
  abbrev pub logged : Option (Unit {0}) × PipelineState W → PipelineState W
  logged (some done, s) = s
  logged (none, s) = record s { errors = s.errors + 1 }

module _ {W : Type 0} (services : Services W) (config : PipelineConfig) where
  -- `event.traceId ?? randomUUID()`
  abbrev pub trace_id : Option String → Task W String
  trace_id (some id) = resolve id
  trace_id none = services.random_uuid

  -- Why the check against land drops the event, if it does.
  abbrev pub geo_drop_reason : CanonicalEvent → Task W (Option DropReason)
  geo_drop_reason (position e) = do
    result ← services.validate_position e
    resolve (if result.should_drop then some (to_geo_drop_reason result.reason) else none)
  geo_drop_reason (static e) = resolve none

  abbrev pub is_sampled_out : CanonicalEvent → Task W Bool
  is_sampled_out (position e) = do
    emit ← should_emit services.redis services.json config.sampler services.parse_date e
    resolve (not emit)
  is_sampled_out (static e) = resolve false

  unfoldable pub publish_traced : CanonicalEvent → Task (PipelineState W) (Unit {0})
  publish_traced traced = do
    id ← on_world (services.publish ais_events_stream traced)
    count_published (kind_of traced)

  unfoldable pub sample : CanonicalEvent → Task (PipelineState W) (Unit {0})
  unfolding publish_traced
  sample traced = do
    out ← on_world (is_sampled_out traced)
    if out then drop sampled else publish_traced traced

  unfoldable pub check_land : CanonicalEvent → Option DropReason → Task (PipelineState W) (Unit {0})
  unfolding sample
  check_land traced (some reason) = drop reason
  check_land traced none = sample traced

  unfoldable pub handle_fresh : CanonicalEvent → Task (PipelineState W) (Unit {0})
  unfolding check_land
  handle_fresh event = do
    id ← on_world (trace_id (trace_id_of event))
    let traced = with_trace_id id event
    if is_out_of_bbox event
        then drop out_of_bbox
        else (on_world (geo_drop_reason traced) >>= check_land traced)

  unfoldable pub handle_event : Option CanonicalEvent → Task (PipelineState W) (Unit {0})
  unfolding handle_fresh
  handle_event none = drop invalid
  handle_event (some event) = do
    accept ← on_world (
        should_accept services.redis config.dedup_ttl_seconds (mmsi_of event)
          (occurred_at_of event))
    if not accept then drop duplicate else handle_fresh event

  unfoldable pub handle : RawProviderMessage → Task (PipelineState W) (Unit {0})
  unfolding handle_event
  handle raw = on_world (services.normalize raw) >>= handle_event

  -- The callback of `onModuleInit`.
  unfoldable pub on_message : PipelineState W → String → RawProviderMessage → PipelineState W
  unfolding handle
  on_message s provider raw = logged (handle raw (record s { received = provider ∷ s.received }))

  unfoldable pub on_messages :
      PipelineState W → List (String × RawProviderMessage) → PipelineState W
  unfolding on_message
  on_messages s [] = s
  on_messages s ((provider, raw) ∷ messages) = on_messages (on_message s provider raw) messages
