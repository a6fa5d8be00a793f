-- ===== src/Enrichment/Reconciler/Counts.antt =====
-- What a run counts.
use ais_tracking_system.Prelude.{
  ℕ, suc, ◌+◌, ◌-◌, ◌*◌, ◌≡◌, refl, ◌∙◌, arith, String, false, Option, none, some, List, [], ◌∷◌,
  length,
}
use ais_tracking_system.Prelude.Task.{Task}
use ais_tracking_system.Enrichment.Requester.{
  VesselEnrichmentRequestResult, enqueued, skipped_fresh, Queueing, request,
}
use ais_tracking_system.Enrichment.Reconciler.{
  VesselFingerprint, VesselEnrichmentReconciliationResult, ReconciliationConfig, request_for,
  nothing_done, count_request, request_all, reconcile, run_once,
}

abbrev total : VesselEnrichmentReconciliationResult → ℕ
total t = t.enqueued + t.skipped + t.failed

count_request-total :
    (r : Option VesselEnrichmentRequestResult) (t : VesselEnrichmentReconciliationResult)
    → total (count_request r t) ≡ suc (total t)
unfolding count_request
count_request-total none t = omega arith
count_request-total (some (enqueued trigger id)) t = omega arith
count_request-total (some skipped_fresh) t = omega arith

count_request-run :
    (r : Option VesselEnrichmentRequestResult) (t : VesselEnrichmentReconciliationResult)
    → (count_request r t).skipped_run ≡ t.skipped_run
unfolding count_request
count_request-run none t = refl
count_request-run (some (enqueued trigger id)) t = refl
count_request-run (some skipped_fresh) t = refl

module _ {W : Type 0} (queueing : Queueing W) where
  request_all-total :
      (cs : List VesselFingerprint) (t : VesselEnrichmentReconciliationResult) (w : W)
      → total (request_all queueing cs t w).0 ≡ total t + length cs
  unfolding request_all
  request_all-total [] t w = omega arith
  request_all-total (c ∷ cs) t w =
      let asked = request queueing (request_for c) w in
      omega (
        arith,
        request_all-total cs (count_request asked.0 t) asked.1,
        count_request-total asked.0 t,
      )

  request_all-run :
      (cs : List VesselFingerprint) (t : VesselEnrichmentReconciliationResult) (w : W)
      → (request_all queueing cs t w).0.skipped_run ≡ t.skipped_run
  unfolding request_all
  request_all-run [] t w = refl
  request_all-run (c ∷ cs) t w =
      let asked = request queueing (request_for c) w in
      request_all-run cs (count_request asked.0 t) asked.1 ∙ count_request-run asked.0 t

-- The run returned, and counted each of so many vessels once.
pub IsCounted : ℕ → Option VesselEnrichmentReconciliationResult → Type 0
IsCounted n none = ⊥
IsCounted n (some t) = (t.scanned ≡ n) × (total t ≡ n) × (t.skipped_run ≡ false)

module _ {W : Type 0} (queueing : Queueing W) (find : ℕ → String → Task W (List VesselFingerprint))
    (to_iso : ℕ → String) (config : ReconciliationConfig) where
  -- Where the query returns, a run that starts while none is under way returns, whichever of its
  -- requests are rejected; it counts each vessel of the query exactly once, as enqueued, as skipped or
  -- as failed; and it leaves the next run free to start.
  pub run_once-IsCounted :
      (now : ℕ) (w w1 : W) (candidates : List VesselFingerprint)
      → find config.batch_size (to_iso (now - config.staleness_seconds * 1000)) w
        ≡ (some candidates, w1)
      → (let ran = run_once queueing find to_iso config now (false, w) in
          IsCounted (length candidates) ran.0 × (ran.1.0 ≡ false))
  unfolding run_once reconcile IsCounted
  run_once-IsCounted now w w1 candidates e = rw e (
    (
      refl,
      omega (arith, request_all-total queueing candidates (nothing_done false) w1),
      request_all-run queueing candidates (nothing_done false) w1,
    ),
    refl,
  )
