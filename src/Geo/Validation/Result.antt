-- ===== src/Geo/Validation/Result.antt =====
-- The results of a validation.
use ais_tracking_system.Prelude.{ℕ, ◌≡◌, String, Option, none, some}
use ais_tracking_system.Prelude.Task.{Task}
use ais_tracking_system.Geo.{GeoValidationInput, GeoValidationResult}
use ais_tracking_system.Geo.Cache
use ais_tracking_system.Geo.Cache.{ResultText, CacheConfig}
use ais_tracking_system.Geo.Validation.{
  Repository, GeoConfig, GeoState, is_dropped, validate_position,
}
use ais_tracking_system.Pipeline.{Redis}

-- The position is dropped exactly if it is rejected for deep land or for an error.
abbrev pub IsJustified : GeoValidationResult → Type 0
IsJustified r = r.should_drop ≡ is_dropped r.verdict r.reason

-- The text of a justified result, as the service writes it.
abbrev pub IsWritten : ResultText → String → Type 0
IsWritten texts raw = (r : GeoValidationResult) × IsJustified r × (raw ≡ texts.stringify r)

-- JSON reads back what it has written. Redis gives a text under a key of the cache only if such a
-- text was there or has been set, which the predicate on the world says: the reads and the queries
-- keep it, and so does setting a text of that kind, whether or not these calls are rejected.
pub record IsCaching {W : Type 0} (repository : Repository W) (redis : Redis W) (texts : ResultText)
    (config : CacheConfig) (IsSound : W → Type 0) : Type 0 where
  pub round_trip : (r : GeoValidationResult) → texts.parse (texts.stringify r) ≡ some (some r)
  pub read :
      (version : String) (p : GeoValidationInput) (w : W) (raw : String)
      → IsSound w
      → (redis.get (Cache.build_key redis texts config version p) w).0 ≡ some (some raw)
      → IsWritten texts raw
  pub after_get : (k : String) (w : W) → IsSound w → IsSound (redis.get k w).1
  pub after_set :
      (k raw : String) (ttl : ℕ) (w : W)
      → IsSound w
      → IsWritten texts raw
      → IsSound (redis.set_ex k raw ttl w).1
  pub after_version : (w : W) → IsSound w → IsSound (repository.active_dataset_version w).1
  pub after_query :
      (p : GeoValidationInput) (w : W)
      → IsSound w
      → IsSound (repository.validate_position p.lon p.lat w).1

abbrev pub OnValue : {A : Type 0} → (A → Type 0) → Option A → Type 0
OnValue P none = Unit {0}
OnValue P (some a) = P a

-- A result that is there, and justified.
abbrev pub Answers : Option GeoValidationResult → Type 0
Answers o = (r : GeoValidationResult) × (o ≡ some r) × IsJustified r

module _ {W : Type 0} (repository : Repository W) (redis : Redis W) (texts : ResultText)
    (config : GeoConfig) (IsSound : W → Type 0)
    (caching : IsCaching repository redis texts config.cache IsSound) where
  -- The value, if there is one, is as it should be, and the cache is still sound.
  abbrev IsSafe : {A : Type 0} → (A → Type 0) → Option A × GeoState W → Type 0
  IsSafe P r = OnValue P r.0 × IsSound r.1.world
