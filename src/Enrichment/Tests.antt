-- ===== src/Enrichment/Tests.antt =====
-- Runs of the enrichment at concrete inputs.
use mathlib.Core.Option.{some-injective}
use ais_tracking_system.Contracts.{clear}
use ais_tracking_system.Prelude.{
  ℕ, ◌≡◌, ◌≢◌, ◌∙◌, refl, sym, ap, Bool, true, ite, if_pos, if_neg, str_discrete, List, String,
  false, some, none, [], ◌∷◌,
}
use ais_tracking_system.Prelude.StringMap
use ais_tracking_system.Prelude.StringMap.{StringMap, IsDistinct, get-put}
use ais_tracking_system.Enrichment.Requester.{
  EnrichmentJobData, discovered, Queueing, profile_key, checked_key, skipped_fresh,
  profile_hash_for, request,
}
use ais_tracking_system.Enrichment.Reconciler.{
  VesselFingerprint, ReconciliationConfig, request_for, run_once,
}
use ais_tracking_system.Enrichment.Reconciler.Counts.{IsCounted, run_once-IsCounted}
use ais_tracking_system.Enrichment.Processor.{
  Processing, job_checked, process, check_vessel, match_sanctions, announce, count_matches,
}
use ais_tracking_system.Enrichment.Processor.Cached.{IsKept, process-IsSkipped}
use ais_tracking_system.Prelude.Task.{Task}
use ais_tracking_system.Enrichment.Matcher.{
  add_by, normalize_name, SanctionCandidate, MatchInput, TextFunctions, match_candidates,
}
use ais_tracking_system.Enrichment.Matcher.Distinct.{keyed, match_candidates-IsDistinct}
use ais_tracking_system.Enrichment.Matcher.Status.{is_sanctioned, is_listed, match_candidates_lem}

abbrev texts : TextFunctions
texts = record {
  nfkd = λ s. s;
  without_marks = λ s. s;
  to_lower_case = λ s. s;
  spaced = λ s. s;
  trim = λ s. s;
  less = λ a b. false;
}

abbrev listed : SanctionCandidate
listed = record {
  entity_id = "e";
  source = "ofac";
  source_entity_id = "1";
  name = "ALPHA";
  imo = some "9074729";
  mmsi = some "273000000";
  aliases = [];
  flag = none;
  listing_date = none;
  programs = [];
}

-- Both numbers are those of the entity.
abbrev vessel : MatchInput
vessel = record { imo = some "9074729"; mmsi = some "273000000"; name = none }

match_candidates-IsDistinct_example :
    IsDistinct (keyed (match_candidates texts vessel (listed ∷ [])).matches)
match_candidates-IsDistinct_example = match_candidates-IsDistinct texts vessel (listed ∷ [])

match_candidates_lem_example :
    is_sanctioned (match_candidates texts vessel (listed ∷ [])).status
    ≡ is_listed texts vessel (listed ∷ [])
match_candidates_lem_example = match_candidates_lem texts vessel (listed ∷ [])

-- A Redis that keeps what is set.
abbrev storing : Queueing (StringMap String)
storing = record {
  get = λ k w. (some (StringMap.get k w), w);
  add = λ job id w. (some tt, w);
  stringify = λ j. "{}";
  digest = λ t. "hash";
  texts = texts;
}

abbrev fingerprint : VesselFingerprint
fingerprint = record { id = "v"; mmsi = "273000000"; imo = some "9000001"; name = none }

abbrev processing : Processing (StringMap String)
processing = record {
  find_vessel_fingerprint_by_mmsi = λ m w. (some (some fingerprint), w);
  find_sanction_candidates_by_imo = λ t w. (some [], w);
  find_sanction_candidates_by_mmsi = λ t w. (some [], w);
  find_sanction_candidates_by_name = λ t w. (some [], w);
  apply_enrichment = λ v s ms at w. (some 1, w);
  publish = λ ev w. (some "1-0", w);
  set = λ k v ttl w. (some tt, StringMap.put k v w);
  now = λ w. "t";
  count_job = λ s w. w;
  count_match = λ m w. w;
  staleness_seconds = 60;
}

storing-IsKept : IsKept storing processing
storing-IsKept = record {
  stored = λ k v ttl w w1 e.
      ap (λ o. (some o, w1))
        (ap (λ p. StringMap.get k p.1) (sym e)
          ∙ get-put k k v w
          ∙ if_pos (str_discrete k k) refl _ _);
  kept = λ k k' v v' ttl w w1 d e f.
      ap (λ o. (some o, w1))
        (ap (λ p. StringMap.get k p.1) (sym f)
          ∙ get-put k' k v' w
          ∙ if_neg (str_discrete k' k) (λ q. d (sym q)) _ _
          ∙ some-injective _ _ (ap (λ p. p.0) e));
}

abbrev job : EnrichmentJobData
job = record {
  vessel_id = "v";
  mmsi = "273000000";
  trigger = discovered;
  profile_hash = "hash";
  observed_imo = none;
  observed_name = none;
  trace_id = none;
}

abbrev cached : StringMap String
cached = ("enrich:profile:v", "hash") ∷ ("enrich:checked:v", "t") ∷ []

-- The test that tells the two keys apart.
abbrev is_profile : String → Bool
is_profile k = ite (str_discrete k "enrich:profile:v") true false

keys_differ : profile_key "v" ≢ checked_key "v"
unfolding str_discrete
keys_differ e = let h : true ≡ false = ap is_profile e in cc

process-IsSkipped_example :
    (request storing (request_for fingerprint) cached).0 ≡ some skipped_fresh
unfolding process check_vessel match_sanctions match_candidates add_by announce count_matches
    profile_hash_for normalize_name StringMap.put str_discrete
process-IsSkipped_example =
    process-IsSkipped storing processing storing-IsKept job fingerprint [] [] cached
      (record { status = job_checked clear; matches = [] }) refl keys_differ refl tt

abbrev reconciliation : ReconciliationConfig
reconciliation = record { batch_size = 10; staleness_seconds = 60 }

abbrev found_one : ℕ → String → Task (StringMap String) (List VesselFingerprint)
found_one n before w = (some (fingerprint ∷ []), w)

run_once-IsCounted_example :
    (let ran = run_once storing found_one (λ n. "t") reconciliation 1000000 (false, cached) in
      IsCounted 1 ran.0 × (ran.1.0 ≡ false))
run_once-IsCounted_example =
    run_once-IsCounted storing found_one (λ n. "t") reconciliation 1000000 cached cached
      (fingerprint ∷ []) refl
