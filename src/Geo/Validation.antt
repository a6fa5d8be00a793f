-- ===== src/Geo/Validation.antt =====
-- The service that validates a position (src/geo/geo-validation.service.ts). The gauge of the
-- active dataset is a map from versions to values, and the counters are the labels of their `inc`
-- calls, newest first; the histogram and the log are left out.
pub mod Gauge
pub mod Result
use ais_tracking_system.Prelude.{
  ℕ, String, Bool, true, false, not, ◌&&◌, Option, none, some, List, [], ◌∷◌, if◌then◌else◌, ite,
  str_discrete,
}
use ais_tracking_system.Prelude.Double.{Double}
use ais_tracking_system.Prelude.StringMap
use ais_tracking_system.Prelude.StringMap.{StringMap}
use ais_tracking_system.Prelude.Task.{Task, await, ◌>>=◌, ◌>>◌, resolve}
use ais_tracking_system.Geo.{
  GeoValidationVerdict, allow, reject, uncertain, GeoValidationReason, deep_land,
  dataset_unavailable, disabled, validation_error, GeoValidationInput, GeoValidationResult,
  GeoValidationRepositoryResult,
}
use ais_tracking_system.Geo.Cache
use ais_tracking_system.Geo.Cache.{CacheConfig, ResultText}
use ais_tracking_system.Pipeline.{Redis}

pub data GeoCacheResult : Type 0 where
  hit miss error cache_disabled : GeoCacheResult

pub data GeoValidationSource : Type 0 where
  bypass cache postgis failed : GeoValidationSource

-- The queries of GeoDatasetRepository, which run in PostGIS.
pub record Repository (W : Type 0) : Type 0 where
  pub active_dataset_version : Task W (Option String)
  pub validate_position : Double → Double → Task W GeoValidationRepositoryResult

pub record GeoConfig : Type 0 where
  pub validation_enabled : Bool
  pub fail_open : Bool
  pub cache : CacheConfig

pub record GeoState (W : Type 0) : Type 0 where
  pub world : W
  pub last_active_dataset_version : Option String
  pub has_logged_disabled : Bool
  pub active_dataset_info : StringMap ℕ
  pub validations : List (GeoValidationVerdict × GeoValidationReason × GeoValidationSource)
  pub cache_results : List GeoCacheResult

-- A text that passes `if (text)`.
abbrev pub truthy : Option String → Option String
truthy none = none
truthy (some t) = ite (str_discrete t "") none (some t)

-- `shouldDrop`
unfoldable pub is_dropped : GeoValidationVerdict → GeoValidationReason → Bool
is_dropped reject deep_land = true
is_dropped reject validation_error = true
is_dropped _ _ = false

unfoldable pub to_result : GeoValidationRepositoryResult → GeoValidationResult
unfolding is_dropped
to_result r = record {
  verdict = r.verdict;
  reason = r.reason;
  dataset_version = r.dataset_version;
  should_drop = is_dropped r.verdict r.reason;
}

unfoldable pub error_result : Bool → GeoValidationResult
error_result fail_open = record {
  verdict = if fail_open then allow else reject;
  reason = validation_error;
  dataset_version = none;
  should_drop = not fail_open;
}

abbrev pub is_cacheable : GeoValidationReason → Bool
is_cacheable dataset_unavailable = false
is_cacheable _ = true

-- The gauge without the last version, if that is another one.
abbrev pub without_other : Option String → String → StringMap ℕ → StringMap ℕ
without_other none version info = info
without_other (some last) version info =
    ite (str_discrete last version) info (StringMap.delete last info)

abbrev pub without : Option String → StringMap ℕ → StringMap ℕ
without none info = info
without (some last) info = StringMap.delete last info

module _ {W : Type 0} where
  abbrev pub on_world : {A : Type 0} → Task W A → Task (GeoState W) A
  on_world m s = let (value, world) = m s.world in (value, record s { world = world })

  -- `try`, with the rest given the value, or `none` where it was rejected.
  abbrev pub attempt : {A : Type 0} → Task (GeoState W) A → Task (GeoState W) (Option A)
  attempt m s = let (o, s') = m s in (some o, s')

  abbrev pub record_cache : GeoCacheResult → Task (GeoState W) (Unit {0})
  record_cache result s = (some tt, record s { cache_results = result ∷ s.cache_results })

  abbrev pub record_result :
      GeoValidationResult → GeoValidationSource → Task (GeoState W) GeoValidationResult
  record_result result source s = (
    some result,
    record s { validations = (result.verdict, result.reason, source) ∷ s.validations },
  )

  unfoldable pub record_active_dataset_version : String → Task (GeoState W) (Unit {0})
  record_active_dataset_version version s = (
    some tt,
    record s {
      last_active_dataset_version = some version;
      active_dataset_info =
          StringMap.put version 1
            (without_other (truthy s.last_active_dataset_version) version s.active_dataset_info);
    },
  )

  unfoldable pub clear_active_dataset_version : Task (GeoState W) (Unit {0})
  clear_active_dataset_version s = (
    some tt,
    record s {
      last_active_dataset_version = none;
      active_dataset_info = without (truthy s.last_active_dataset_version) s.active_dataset_info;
    },
  )

  abbrev pub log_disabled_once : Task (GeoState W) (Unit {0})
  log_disabled_once s = (some tt, record s { has_logged_disabled = true })

module _ {W : Type 0} (repository : Repository W) (redis : Redis W) (texts : ResultText)
    (config : GeoConfig) where
  abbrev pub count_read :
      Option (Option GeoValidationResult) → Task (GeoState W) (Option GeoValidationResult)
  count_read none = record_cache error >> resolve none
  count_read (some none) = record_cache miss >> resolve none
  count_read (some (some cached)) = record_cache hit >> resolve (some cached)

  unfoldable pub read_cache :
      String → GeoValidationInput → Task (GeoState W) (Option GeoValidationResult)
  read_cache version p =
      if not config.cache.enabled
      then (record_cache cache_disabled >> resolve none)
      else (attempt (on_world (Cache.get redis texts config.cache version p)) >>= count_read)

  abbrev pub count_written : Option (Unit {0}) → Task (GeoState W) (Unit {0})
  count_written none = record_cache error
  count_written (some done) = resolve tt

  unfoldable pub write_cache :
      String → GeoValidationInput → GeoValidationResult → Task (GeoState W) (Unit {0})
  write_cache version p result =
      attempt (on_world (Cache.set redis texts config.cache version p result)) >>= count_written

  -- The active version is recorded, and the result is cached, if it comes from a dataset.
  abbrev pub keep :
      Option String → GeoValidationInput → GeoValidationResult → Task (GeoState W) (Unit {0})
  keep none p result = resolve tt
  keep (some version) p result =
      record_active_dataset_version version
      >> (if is_cacheable result.reason then write_cache version p result else resolve tt)

  unfoldable pub query : GeoValidationInput → Task (GeoState W) GeoValidationResult
  unfolding to_result
  query p = do
    r ← on_world (repository.validate_position p.lon p.lat)
    keep (truthy (to_result r).dataset_version) p (to_result r)
    record_result (to_result r) postgis

  abbrev pub look_up :
      GeoValidationInput → Option String → Task (GeoState W) (Option GeoValidationResult)
  look_up p none = clear_active_dataset_version >> resolve none
  look_up p (some version) = record_active_dataset_version version >> read_cache version p

  abbrev pub answer :
      GeoValidationInput → Option GeoValidationResult → Task (GeoState W) GeoValidationResult
  answer p (some cached) = record_result cached cache
  answer p none = query p

  -- The body of the `try`.
  unfoldable pub validate_enabled : GeoValidationInput → Task (GeoState W) GeoValidationResult
  unfolding query read_cache
  validate_enabled p = do
    version ← on_world repository.active_dataset_version
    cached ← look_up p (truthy version)
    answer p cached

  abbrev pub caught : Option GeoValidationResult → Task (GeoState W) GeoValidationResult
  caught (some result) = resolve result
  caught none = record_result (error_result config.fail_open) failed

  unfoldable pub validate_position : GeoValidationInput → Task (GeoState W) GeoValidationResult
  unfolding validate_enabled
  validate_position p =
      if not config.validation_enabled
      then (log_disabled_once
          >> record_result
              (record {
                verdict = allow;
                reason = disabled;
                dataset_version = none;
                should_drop = false;
              })
              bypass)
      else (attempt (validate_enabled p) >>= caught)
