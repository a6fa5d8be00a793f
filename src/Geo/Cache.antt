-- ===== src/Geo/Cache.antt =====
-- The cache of results by place (src/geo/geo-cache.service.ts). `toFixed` and JSON are parameters:
-- `parse` is `JSON.parse` read as a result or null, and `none` where it throws.
use ais_tracking_system.Prelude.{
  ℕ, String, ◌<>◌, Bool, not, Option, none, some, if◌then◌else◌, ite, str_discrete,
}
use ais_tracking_system.Prelude.Double.{Double}
use ais_tracking_system.Prelude.Task.{Task, ◌>>=◌, resolve}
use ais_tracking_system.Geo.{
  GeoValidationVerdict, allow, reject, uncertain, GeoValidationInput, GeoValidationResult,
}
use ais_tracking_system.Pipeline.{Redis}

pub record CacheConfig : Type 0 where
  pub enabled : Bool
  pub precision : ℕ
  pub ttl_seconds : ℕ
  pub uncertain_ttl_seconds : ℕ

pub record ResultText : Type 0 where
  pub to_fixed : Double → ℕ → String
  pub of_nat : ℕ → String
  pub parse : String → Option (Option GeoValidationResult)
  pub stringify : GeoValidationResult → String

abbrev pub ttl_of : CacheConfig → GeoValidationVerdict → ℕ
ttl_of config uncertain = config.uncertain_ttl_seconds
ttl_of config allow = config.ttl_seconds
ttl_of config reject = config.ttl_seconds

module _ {W : Type 0} (redis : Redis W) (texts : ResultText) (config : CacheConfig) where
  unfoldable pub build_key : String → GeoValidationInput → String
  build_key version p =
      "geo:validation:"
      <> version
      <> ":p"
      <> texts.of_nat config.precision
      <> ":"
      <> texts.to_fixed p.lat config.precision
      <> ":"
      <> texts.to_fixed p.lon config.precision

  abbrev pub parsed : Option String → Task W (Option GeoValidationResult)
  parsed none w = (some none, w)
  parsed (some raw) w = ite (str_discrete raw "") (some none, w) (texts.parse raw, w)

  unfoldable pub get : String → GeoValidationInput → Task W (Option GeoValidationResult)
  get version p =
      if not config.enabled then resolve none else (redis.get (build_key version p) >>= parsed)

  unfoldable pub set : String → GeoValidationInput → GeoValidationResult → Task W (Unit {0})
  set version p result =
      if not config.enabled
      then resolve tt
      else redis.set_ex (build_key version p) (texts.stringify result)
          (ttl_of config result.verdict)
