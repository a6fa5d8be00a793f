-- ===== src/Enrichment/Reconciler.antt =====
-- The requests for vessels whose check is missing or stale
-- (src/enrichment/vessel/vessel-enrichment.reconciler.ts). The query of the repository and
-- `toISOString` are parameters. A tick that comes while a run is under way meets the flag `in_flight`.
pub mod Counts
use ais_tracking_system.Prelude.{
  ℕ, suc, ◌-◌, ◌*◌, String, Bool, true, false, Option, none, some, List, [], ◌∷◌, length,
}
use ais_tracking_system.Prelude.Task.{Task, await, ◌>>=◌, resolve}
use ais_tracking_system.Enrichment.Requester.{
  VesselEnrichmentRequest, VesselEnrichmentRequestResult, enqueued, skipped_fresh, Queueing,
  request,
}

pub record VesselFingerprint : Type 0 where
  pub id : String
  pub mmsi : String
  pub imo : Option String
  pub name : Option String

pub record VesselEnrichmentReconciliationResult : Type 0 where
  pub scanned : ℕ
  pub enqueued : ℕ
  pub skipped : ℕ
  pub failed : ℕ
  pub skipped_run : Bool

pub record ReconciliationConfig : Type 0 where
  pub batch_size : ℕ
  pub staleness_seconds : ℕ

abbrev pub request_for : VesselFingerprint → VesselEnrichmentRequest
request_for c = record {
  vessel_id = c.id;
  mmsi = c.mmsi;
  imo = c.imo;
  name = c.name;
  trace_id = none;
}

abbrev pub nothing_done : Bool → VesselEnrichmentReconciliationResult
nothing_done skipped_run = record {
  scanned = 0;
  enqueued = 0;
  skipped = 0;
  failed = 0;
  skipped_run = skipped_run;
}

-- `none` is a request that was rejected.
unfoldable pub count_request :
    Option VesselEnrichmentRequestResult
    → VesselEnrichmentReconciliationResult
    → VesselEnrichmentReconciliationResult
count_request none t = record t { failed = suc t.failed }
count_request (some (enqueued trigger id)) t = record t { enqueued = suc t.enqueued }
count_request (some skipped_fresh) t = record t { skipped = suc t.skipped }

module _ {W : Type 0} (queueing : Queueing W) where
  -- The loop over the candidates.
  unfoldable pub request_all :
      List VesselFingerprint
      → VesselEnrichmentReconciliationResult
      → W
      → VesselEnrichmentReconciliationResult × W
  request_all [] t w = (t, w)
  request_all (c ∷ cs) t w =
      let asked = request queueing (request_for c) w in
      request_all cs (count_request asked.0 t) asked.1

  abbrev pub reconcile_all : List VesselFingerprint → Task W VesselEnrichmentReconciliationResult
  reconcile_all candidates w =
      let done = request_all candidates (nothing_done false) w in
      (some (record done.0 { scanned = length candidates }), done.1)

module _ {W : Type 0} (queueing : Queueing W)
    (find_vessels_needing_enrichment : ℕ → String → Task W (List VesselFingerprint))
    (to_iso : ℕ → String) (config : ReconciliationConfig) where
  unfoldable pub reconcile : ℕ → Task W VesselEnrichmentReconciliationResult
  reconcile now = do
    candidates ←
        find_vessels_needing_enrichment config.batch_size
          (to_iso (now - config.staleness_seconds * 1000))
    reconcile_all queueing candidates

  -- The flag comes first in the state; `finally` clears it.
  unfoldable pub run_once : ℕ → Task (Bool × W) VesselEnrichmentReconciliationResult
  run_once now (true, w) = (some (nothing_done true), (true, w))
  run_once now (false, w) = let ran = reconcile now w in (ran.0, (false, ran.1))
