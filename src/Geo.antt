-- ===== src/Geo.antt =====
-- The check of a position against land: its types (src/geo/geo-validation.types.ts).
pub mod Cache
pub mod Tests
pub mod Validation
use ais_tracking_system.Prelude.{ℕ, String, Bool, Option}
use ais_tracking_system.Prelude.Double.{Double}

pub data GeoValidationVerdict : Type 0 where
  allow reject uncertain : GeoValidationVerdict

pub data GeoValidationReason : Type 0 where
  manual_allow navigable_water coastal_tolerance deep_land not_land : GeoValidationReason
  dataset_unavailable invalid_coordinates disabled validation_error : GeoValidationReason

pub record GeoValidationInput : Type 0 where
  pub lat : Double
  pub lon : Double
  pub mmsi : Option String
  pub provider : Option String
  pub trace_id : Option String

pub record GeoValidationResult : Type 0 where
  pub verdict : GeoValidationVerdict
  pub reason : GeoValidationReason
  pub dataset_version : Option String
  pub should_drop : Bool

-- Its reason is neither `disabled` nor `validation_error`, by its type in the source.
pub record GeoValidationRepositoryResult : Type 0 where
  pub verdict : GeoValidationVerdict
  pub reason : GeoValidationReason
  pub dataset_version : Option String
