-- ===== src/Enrichment/Processor/Cached.antt =====
-- What the worker leaves in Redis for the requester.
use ais_tracking_system.Prelude.{
  ℕ, zero, suc, ◌≡◌, ◌≢◌, refl, sym, ap, subst, ite, String, Option, none, some, [], str_discrete,
}
use ais_tracking_system.Prelude.Task.{await, await-eq-some}
use ais_tracking_system.Enrichment.Matcher.{MatchResult}
use ais_tracking_system.Enrichment.Requester.{
  EnrichmentJobData, Queueing, skipped_fresh, profile_key, checked_key, profile_hash_for, request,
}
use ais_tracking_system.Enrichment.Requester.Fresh.{request_skipped_iff}
use ais_tracking_system.Enrichment.Reconciler.{VesselFingerprint, request_for}
use ais_tracking_system.Enrichment.Processor.{
  Processing, ProcessResult, JobStatus, job_skipped, job_noop, job_checked, announce, after_update,
  check_vessel, process_found, process, counted, match_sanctions,
}

-- Redis gives what was set, and setting one key keeps another; reading changes nothing.
pub record IsKept {W : Type 0} (queueing : Queueing W) (processing : Processing W) : Type 0 where
  pub stored :
      (k v : String) (ttl : Option ℕ) (w w1 : W)
      → processing.set k v ttl w ≡ (some tt, w1)
      → queueing.get k w1 ≡ (some (some v), w1)
  pub kept :
      (k k' v v' : String) (ttl : Option ℕ) (w w1 : W)
      → k ≢ k'
      → queueing.get k w ≡ (some (some v), w)
      → processing.set k' v' ttl w ≡ (some tt, w1)
      → queueing.get k w1 ≡ (some (some v), w1)

abbrev IsChecked : JobStatus → Type 0
IsChecked job_skipped = ⊥
IsChecked job_noop = ⊥
IsChecked (job_checked s) = Unit {0}

abbrev IsCheckedResult : Option ProcessResult → Type 0
IsCheckedResult none = ⊥
IsCheckedResult (some r) = IsChecked r.status

module _ {W : Type 0} (queueing : Queueing W) (processing : Processing W)
    (redis-IsKept : IsKept queueing processing) where
  -- The next request for the vessel is skipped.
  abbrev IsSkipped : VesselFingerprint → W → Type 0
  IsSkipped f w = (request queueing (request_for f) w).0 ≡ some skipped_fresh

  keys-IsSkipped :
      (f : VesselFingerprint) (at : String) (ttl : Option ℕ) (w w1 w2 : W)
      → profile_key f.id ≢ checked_key f.id
      → processing.set (profile_key f.id) (profile_hash_for queueing f.imo f.name) none w
        ≡ (some tt, w1)
      → processing.set (checked_key f.id) at ttl w1 ≡ (some tt, w2)
      → IsSkipped f w2
  keys-IsSkipped f at ttl w w1 w2 differ e1 e2 =
      let hash = profile_hash_for queueing f.imo f.name in
      let read =
        redis-IsKept.kept (profile_key f.id) (checked_key f.id) hash at ttl w1 w2 differ
          (redis-IsKept.stored (profile_key f.id) hash none w w1 e1) e2 in
      let checked = redis-IsKept.stored (checked_key f.id) at ttl w1 w2 e2 in
      (request_skipped_iff queueing (request_for f) w2 w2 w2 (some hash) (some at) read checked).1
        (refl, λ q. cc)

  announce-IsSkipped :
      (job : EnrichmentJobData) (f : VesselFingerprint) (result : MatchResult) (at : String)
      (w w1 : W) (r : ProcessResult)
      → f.id ≡ job.vessel_id
      → profile_key f.id ≢ checked_key f.id
      → announce queueing processing job f result at w ≡ (some r, w1)
      → IsSkipped f w1
  unfolding announce
  announce-IsSkipped job f result at w w1 r same differ e =
      let (id, w2, p, e2) = await-eq-some (processing.publish _ w) _ e in
      let hash = profile_hash_for queueing f.imo f.name in
      let ttl = some processing.staleness_seconds in
      let (done, w3, q, e3) =
        await-eq-some (processing.set (profile_key job.vessel_id) hash none w2) _ e2 in
      let (last, w4, s, e4) =
        await-eq-some (processing.set (checked_key job.vessel_id) at ttl w3) _ e3 in
      subst (IsSkipped f) (ap (λ p. p.1) e4) (
        keys-IsSkipped f at ttl w2 w3 w4 differ
          (subst (λ v. processing.set (profile_key v) hash none w2 ≡ (some tt, w3)) (sym same) q)
          (subst (λ v. processing.set (checked_key v) at ttl w3 ≡ (some tt, w4)) (sym same) s))

  update-IsSkipped :
      (job : EnrichmentJobData) (f : VesselFingerprint) (result : MatchResult) (at : String) (n : ℕ)
      (w w1 : W) (r : ProcessResult)
      → f.id ≡ job.vessel_id
      → profile_key f.id ≢ checked_key f.id
      → after_update queueing processing job f result at n w ≡ (some r, w1)
      → IsChecked r.status
      → IsSkipped f w1
  update-IsSkipped job f result at zero w w1 r same differ e c =
      absurd (subst IsCheckedResult (sym (ap (λ p. p.0) e)) c)
  update-IsSkipped job f result at (suc n) w w1 r same differ e c =
      announce-IsSkipped job f result at _ w1 r same differ e

  check-IsSkipped :
      (job : EnrichmentJobData) (f : VesselFingerprint) (w w1 : W) (r : ProcessResult)
      → f.id ≡ job.vessel_id
      → profile_key f.id ≢ checked_key f.id
      → check_vessel queueing processing job f w ≡ (some r, w1)
      → IsChecked r.status
      → IsSkipped f w1
  unfolding check_vessel
  check-IsSkipped job f w w1 r same differ e c =
      let (result, w2, p, e2) = await-eq-some (match_sanctions queueing processing _ w) _ e in
      let (n, w3, q, e3) =
        await-eq-some
          (processing.apply_enrichment job.vessel_id result.status result.matches
            (processing.now w2) w2)
          _ e2 in
      update-IsSkipped job f result (processing.now w2) n w3 w1 r same differ e3 c

  found-IsSkipped :
      (job : EnrichmentJobData) (f : VesselFingerprint) (w w1 : W) (r : ProcessResult)
      (d : Dec (f.id ≡ job.vessel_id))
      → profile_key f.id ≢ checked_key f.id
      → ite d
          (check_vessel queueing processing job f)
          (counted queueing processing job_skipped [])
          w
        ≡ (some r, w1)
      → IsChecked r.status
      → IsSkipped f w1
  found-IsSkipped job f w w1 r (yes same) differ e c = check-IsSkipped job f w w1 r same differ e c
  found-IsSkipped job f w w1 r (no other) differ e c =
      absurd (subst IsCheckedResult (sym (ap (λ p. p.0) e)) c)

  -- Where Redis gives what was set and the two keys of the vessel are different texts: after a job that
  -- has checked the vessel and returned, a request with the profile that was checked is skipped.
  pub process-IsSkipped :
      (job : EnrichmentJobData) (f : VesselFingerprint) (w w1 w2 : W) (r : ProcessResult)
      → processing.find_vessel_fingerprint_by_mmsi job.mmsi w ≡ (some (some f), w1)
      → profile_key f.id ≢ checked_key f.id
      → process queueing processing job w ≡ (some r, w2)
      → IsChecked r.status
      → IsSkipped f w2
  unfolding process
  process-IsSkipped job f w w1 w2 r found differ e c =
      found-IsSkipped job f w1 w2 r (str_discrete f.id job.vessel_id) differ
        (subst (λ x. await x (process_found queueing processing job) ≡ (some r, w2)) found e) c
