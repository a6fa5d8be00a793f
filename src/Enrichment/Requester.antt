-- ===== src/Enrichment/Requester.antt =====
-- The requests to enrich a vessel (src/enrichment/vessel/vessel-enrichment.requester.ts, with the
-- types of enrichment.types.ts). The queue of BullMQ is a parameter, as are Redis, JSON and SHA-1:
-- `digest` is `createHash('sha1').update(text).digest('hex').slice(0, 16)`.
pub mod Fresh
use ais_tracking_system.Prelude.{
  ℕ, ◌≡◌, ◌≢◌, ◌↔◌, refl, sym, ap, ◌∙◌, String, ◌<>◌, Bool, Option, none, some, List, [], ◌∷◌, ite,
  if_pos, if_neg, str_discrete, get_or_else,
}
use ais_tracking_system.Prelude.Task.{Task, await, ◌>>=◌, ◌>>◌, resolve}
use ais_tracking_system.Contracts.Json.{Json, str, obj, field, end}
use ais_tracking_system.Enrichment.Matcher.{TextFunctions, normalize_name}

pub data EnrichmentTrigger : Type 0 where
  discovered stale profile_changed : EnrichmentTrigger

pub record EnrichmentJobData : Type 0 where
  pub vessel_id : String
  pub mmsi : String
  pub trigger : EnrichmentTrigger
  pub profile_hash : String
  pub observed_imo : Option String
  pub observed_name : Option String
  pub trace_id : Option String

pub record VesselEnrichmentRequest : Type 0 where
  pub vessel_id : String
  pub mmsi : String
  pub imo : Option String
  pub name : Option String
  pub trace_id : Option String

pub data VesselEnrichmentRequestResult : Type 0 where
  enqueued : EnrichmentTrigger → String → VesselEnrichmentRequestResult
  skipped_fresh : VesselEnrichmentRequestResult

-- `add` takes the job's data and its id.
pub record Queueing (W : Type 0) : Type 0 where
  pub get : String → Task W (Option String)
  pub add : EnrichmentJobData → String → Task W (Unit {0})
  pub stringify : Json → String
  pub digest : String → String
  pub texts : TextFunctions

abbrev pub trigger_text : EnrichmentTrigger → String
trigger_text discovered = "discovered"
trigger_text stale = "stale"
trigger_text profile_changed = "profile_changed"

abbrev pub profile_key : String → String
profile_key vessel_id = "enrich:profile:" <> vessel_id

abbrev pub checked_key : String → String
checked_key vessel_id = "enrich:checked:" <> vessel_id

abbrev pub unless_checked : Option String → Option EnrichmentTrigger
unless_checked none = some stale
unless_checked (some checked) = none

unfoldable pub decide : Option String → Option String → String → Option EnrichmentTrigger
decide none checked hash = some discovered
decide (some profile) checked hash =
    ite (str_discrete profile hash) (unless_checked checked) (some profile_changed)

module _ {W : Type 0} (queueing : Queueing W) where
  unfoldable pub profile_hash_for : Option String → Option String → String
  profile_hash_for imo name = queueing.digest (
      queueing.stringify (
        obj (
          field "imo" (str (get_or_else imo ""))
            (field "name" (str (normalize_name queueing.texts name)) end))))

  abbrev pub job_id : String → EnrichmentTrigger → String → String
  job_id vessel_id trigger hash =
      "enrich." <> vessel_id <> "." <> trigger_text trigger <> "." <> hash

  unfoldable pub enqueue_job :
      VesselEnrichmentRequest
      → String
      → Option EnrichmentTrigger
      → Task W VesselEnrichmentRequestResult
  enqueue_job r hash none = resolve skipped_fresh
  enqueue_job r hash (some trigger) = do
    queueing.add
        (record {
          vessel_id = r.vessel_id;
          mmsi = r.mmsi;
          trigger = trigger;
          profile_hash = hash;
          observed_imo = r.imo;
          observed_name = r.name;
          trace_id = r.trace_id;
        })
        (job_id r.vessel_id trigger hash)
    resolve (enqueued trigger (job_id r.vessel_id trigger hash))

  -- `Promise.all` starts the two reads in this order.
  unfoldable pub request : VesselEnrichmentRequest → Task W VesselEnrichmentRequestResult
  unfolding enqueue_job decide
  request r = do
    profile ← queueing.get (profile_key r.vessel_id)
    checked ← queueing.get (checked_key r.vessel_id)
    enqueue_job r (profile_hash_for r.imo r.name)
        (decide profile checked (profile_hash_for r.imo r.name))
