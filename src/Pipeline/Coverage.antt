-- ===== src/Pipeline/Coverage.antt =====
-- The coverage boxes and the test for a point in one of them (src/shared/config/constants.ts). A
-- coordinate is given by the bits of its double.
use ais_tracking_system.Prelude.{ℕ, Bool, true, false, ◌&&◌, List, [], ◌∷◌, any, map, String}
use ais_tracking_system.Prelude.Double.{Double, leb_Double}

pub record Bbox : Type 0 where
  pub min_lon : Double
  pub min_lat : Double
  pub max_lon : Double
  pub max_lat : Double

abbrev pub plus : ℕ → Double
plus bits = record { negative = false; magnitude = bits }

abbrev pub minus : ℕ → Double
minus bits = record { negative = true; magnitude = bits }

-- 27.0, 40.5, 42.5, 47.5
abbrev pub black_sea_bbox : Bbox
black_sea_bbox = record {
  min_lon = plus 0x403b000000000000;
  min_lat = plus 0x4044400000000000;
  max_lon = plus 0x4045400000000000;
  max_lat = plus 0x4047c00000000000;
}

-- 34.782715, 32.787275, 36.254883, 36.967449
abbrev pub levant_east_mediterranean_bbox : Bbox
levant_east_mediterranean_bbox = record {
  min_lon = plus 0x40416430014f8b59;
  min_lat = plus 0x404064c56d5cfaad;
  max_lon = plus 0x404220a00192a737;
  max_lat = plus 0x40427bd55e6bc622;
}

-- 9.492188, 30.477083, 35.084839, 46.437857
abbrev pub central_east_mediterranean_bbox : Bbox
central_east_mediterranean_bbox = record {
  min_lon = plus 0x4022fc0010c6f7a1;
  min_lat = plus 0x403e7a221c8a7a42;
  max_lon = plus 0x40418adc011d3672;
  max_lat = plus 0x4047380bb2bba98f;
}

-- -6.152344, 34.452218, 9.09668, 48.57479
abbrev pub west_mediterranean_europe_bbox : Bbox
west_mediterranean_europe_bbox = record {
  min_lon = minus 0x40189c0010c6f7a1;
  min_lat = plus 0x404139e2478854ce;
  max_lon = plus 0x402231800a7c5ac4;
  max_lat = plus 0x40484992b7fe08af;
}

pub record Zone : Type 0 where
  pub name : String
  pub bbox : Bbox

abbrev pub ais_coverage_zones : List Zone
ais_coverage_zones =
    record { name = "Black Sea"; bbox = black_sea_bbox }
    ∷ record { name = "Levant / East Mediterranean"; bbox = levant_east_mediterranean_bbox }
    ∷ record { name = "Central / East Mediterranean"; bbox = central_east_mediterranean_bbox }
    ∷ record { name = "West Mediterranean / Europe"; bbox = west_mediterranean_europe_bbox }
    ∷ []

abbrev pub ais_coverage_bboxes : List Bbox
ais_coverage_bboxes = map (λ zone. zone.bbox) ais_coverage_zones

unfoldable pub point_in_bbox : Double → Double → Bbox → Bool
point_in_bbox lat lon bbox =
    leb_Double bbox.min_lon lon
    && leb_Double lon bbox.max_lon
    && leb_Double bbox.min_lat lat
    && leb_Double lat bbox.max_lat

unfoldable pub point_in_any_bbox : Double → Double → List Bbox → Bool
unfolding point_in_bbox
point_in_any_bbox lat lon bboxes = any (λ bbox. point_in_bbox lat lon bbox) bboxes
