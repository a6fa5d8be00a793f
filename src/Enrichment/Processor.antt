-- ===== src/Enrichment/Processor.antt =====
-- The worker that checks a vessel (src/enrichment/vessel/enrichment.processor.ts) and the handler of
-- stored vessels (vessel-persisted.consumer.ts beside it). The repository, the bus, Redis and the
-- counters are parameters, as is the present moment; the log is left out.
pub mod Cached
use ais_tracking_system.Prelude.{
  ℕ, zero, suc, String, Bool, true, false, Option, none, some, List, [], ◌∷◌, ◌++◌, ite,
  str_discrete, if◌then◌else◌,
}
use ais_tracking_system.Prelude.Task.{Task, await, ◌>>=◌, ◌>>◌, resolve}
use ais_tracking_system.Contracts.{
  SanctionMatch, MatchMethod, SanctionsStatus, clear, candidate, sanctioned, VesselEnrichedEvent,
  VesselPersistedEvent,
}
use ais_tracking_system.Enrichment.Matcher.{
  SanctionCandidate, MatchInput, MatchResult, is_given, normalize_name, match_candidates,
}
use ais_tracking_system.Enrichment.Requester.{
  EnrichmentJobData, VesselEnrichmentRequestResult, Queueing, profile_key, checked_key,
  profile_hash_for, request,
}
use ais_tracking_system.Enrichment.Reconciler.{VesselFingerprint}

-- The texts of `status`: the status of the check, or one of two others.
pub data JobStatus : Type 0 where
  job_skipped job_noop : JobStatus
  job_checked : SanctionsStatus → JobStatus

pub record ProcessResult : Type 0 where
  pub status : JobStatus
  pub matches : List SanctionMatch

pub record Processing (W : Type 0) : Type 0 where
  pub find_vessel_fingerprint_by_mmsi : String → Task W (Option VesselFingerprint)
  pub find_sanction_candidates_by_imo : String → Task W (List SanctionCandidate)
  pub find_sanction_candidates_by_mmsi : String → Task W (List SanctionCandidate)
  pub find_sanction_candidates_by_name : Option String → Task W (List SanctionCandidate)
  pub apply_enrichment : String → SanctionsStatus → List SanctionMatch → String → Task W ℕ
  pub publish : VesselEnrichedEvent → Task W String
  -- the last argument is the time to live
  pub set : String → String → Option ℕ → Task W (Unit {0})
  pub now : W → String
  pub count_job : JobStatus → W → W
  pub count_match : MatchMethod → W → W
  pub staleness_seconds : ℕ

-- `...(traceId ? { traceId } : {})`
abbrev pub given_text : Option String → Option String
given_text none = none
given_text (some t) = ite (str_discrete t "") none (some t)

module _ {W : Type 0} (queueing : Queueing W) (processing : Processing W) where
  abbrev pub candidates_if : {A : Type 0} → Bool → Task W (List A) → Task W (List A)
  candidates_if true found = found
  candidates_if false found = resolve []

  abbrev pub by_given :
      (String → Task W (List SanctionCandidate)) → Option String → Task W (List SanctionCandidate)
  by_given found none = resolve []
  by_given found (some t) = candidates_if (is_given queueing.texts (some t)) (found t)

  -- What follows the candidates by identifier.
  abbrev pub match_names : MatchInput → MatchResult → Task W MatchResult
  match_names input identified = elim identified.status [
    | sanctioned ↦ resolve identified
    | _ ↦
        candidates_if (ite (str_discrete (normalize_name queueing.texts input.name) "") false true)
          (processing.find_sanction_candidates_by_name input.name)
        >>= λ names. resolve (match_candidates queueing.texts input names)
  ]

  unfoldable pub match_sanctions : MatchInput → Task W MatchResult
  match_sanctions input = do
    by_imo ← by_given processing.find_sanction_candidates_by_imo input.imo
    by_mmsi ← by_given processing.find_sanction_candidates_by_mmsi input.mmsi
    match_names input (match_candidates queueing.texts input (by_imo ++ by_mmsi))

  unfoldable pub count_matches : List SanctionMatch → W → W
  count_matches [] w = w
  count_matches (m ∷ ms) w = count_matches ms (processing.count_match m.match_method w)

  abbrev pub counted : JobStatus → List SanctionMatch → Task W ProcessResult
  counted status matches w =
      (some (record { status = status; matches = matches }), processing.count_job status w)

  -- The event and the two keys, after an update.
  unfoldable pub announce :
      EnrichmentJobData → VesselFingerprint → MatchResult → String → Task W ProcessResult
  announce job f result checked_at = do
    processing.publish (record {
      vessel_id = job.vessel_id;
      mmsi = job.mmsi;
      status = result.status;
      matches = result.matches;
      checked_at = checked_at;
      trace_id = given_text job.trace_id;
    })
    processing.set (profile_key job.vessel_id) (profile_hash_for queueing f.imo f.name) none
    processing.set (checked_key job.vessel_id) checked_at (some processing.staleness_seconds)
    resolve (record { status = job_checked result.status; matches = result.matches })

  abbrev pub after_update :
      EnrichmentJobData → VesselFingerprint → MatchResult → String → ℕ → Task W ProcessResult
  after_update job f result checked_at zero w = counted job_noop result.matches w
  after_update job f result checked_at (suc n) w =
      announce job f result checked_at
        (processing.count_job (job_checked result.status) (count_matches result.matches w))

  unfoldable pub check_vessel : EnrichmentJobData → VesselFingerprint → Task W ProcessResult
  check_vessel job f = do
    result ← match_sanctions (record { imo = f.imo; mmsi = some f.mmsi; name = f.name })
    checked_at ← λ w. (some (processing.now w), w)
    updated ← processing.apply_enrichment job.vessel_id result.status result.matches checked_at
    after_update job f result checked_at updated

  abbrev pub process_found : EnrichmentJobData → Option VesselFingerprint → Task W ProcessResult
  process_found job none = counted job_skipped []
  process_found job (some f) =
      ite (str_discrete f.id job.vessel_id) (check_vessel job f) (counted job_skipped [])

  unfoldable pub process : EnrichmentJobData → Task W ProcessResult
  process job = do
    found ← processing.find_vessel_fingerprint_by_mmsi job.mmsi
    process_found job found

-- The handler of a valid event.
unfoldable pub handle_persisted :
    {W : Type 0} → Queueing W → VesselPersistedEvent → Task W VesselEnrichmentRequestResult
handle_persisted queueing event = request queueing (record {
  vessel_id = event.vessel_id;
  mmsi = event.mmsi;
  imo = event.imo;
  name = event.name;
  trace_id = event.trace_id;
})
