-- ===== src/Enrichment/Requester/Fresh.antt =====
-- Which vessels are left alone.
use ais_tracking_system.Prelude.{
  ◌≡◌, ◌≢◌, ◌↔◌, refl, ap, String, Option, none, some, ite, str_discrete, get_or_else,
}
use ais_tracking_system.Prelude.Task.{await, resolve}
use ais_tracking_system.Enrichment.Requester.{
  EnrichmentTrigger, profile_changed, VesselEnrichmentRequest, enqueued, skipped_fresh, Queueing,
  profile_key, checked_key, unless_checked, decide, profile_hash_for, enqueue_job, request,
}

decide_lem :
    (profile checked : Option String) (hash : String)
    → (decide profile checked hash ≡ none) ↔ ((profile ≡ some hash) × (checked ≢ none))
unfolding decide
decide_lem none checked hash = ((λ e. cc), (λ h. cc))
decide_lem (some profile) checked hash = either (str_discrete profile hash) checked
  where
    either :
        (d : Dec (profile ≡ hash)) (checked : Option String)
        → (ite d (unless_checked checked) (some profile_changed) ≡ none)
          ↔ ((some profile ≡ some hash) × (checked ≢ none))
    either (yes same) none = ((λ e. cc), (λ h. absurd (h.1 refl)))
    either (yes same) (some c) = ((λ e. (ap (λ t. some t) same, λ q. cc)), (λ h. refl))
    either (no other) c = ((λ e. cc), (λ h. absurd (other (ap (λ o. get_or_else o hash) h.0))))

module _ {W : Type 0} (queueing : Queueing W) where
  enqueue_job_lem :
      (r : VesselEnrichmentRequest) (hash : String) (o : Option EnrichmentTrigger) (w : W)
      → ((enqueue_job queueing r hash o w).0 ≡ some skipped_fresh) ↔ (o ≡ none)
  unfolding enqueue_job
  enqueue_job_lem r hash none w = ((λ e. refl), (λ e. refl))
  enqueue_job_lem r hash (some trigger) w = ((λ e. absurd (not_skipped _ _ e)), (λ e. cc))
    where
      not_skipped :
          (a : Option (Unit {0}) × W) (id : String)
          → (await a (λ done. resolve (enqueued trigger id))).0 ≢ some skipped_fresh
      not_skipped (none, v) id e = cc
      not_skipped (some done, v) id e = cc

  -- Where both keys can be read: a vessel's request is skipped exactly if the hash that is stored is
  -- that of the request's profile, its name normalized, and the key of the last check is still there.
  pub request_skipped_iff :
      (r : VesselEnrichmentRequest) (w w1 w2 : W) (profile checked : Option String)
      → queueing.get (profile_key r.vessel_id) w ≡ (some profile, w1)
      → queueing.get (checked_key r.vessel_id) w1 ≡ (some checked, w2)
      → ((request queueing r w).0 ≡ some skipped_fresh)
        ↔ ((profile ≡ some (profile_hash_for queueing r.imo r.name)) × (checked ≢ none))
  unfolding request
  request_skipped_iff r w w1 w2 profile checked e1 e2 =
      let hash = profile_hash_for queueing r.imo r.name in
      let jobs = enqueue_job_lem r hash (decide profile checked hash) w2 in
      let due = decide_lem profile checked hash in
      rw (e1, e2) ((λ h. due.0 (jobs.0 h)), (λ h. jobs.1 (due.1 h)))
