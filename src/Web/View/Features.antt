-- ===== src/Web/View/Features.antt =====
-- The features that the map draws.
use ais_tracking_system.Prelude.{
  ℕ, ◌≡◌, refl, arith, true, ◌&&◌, Option, none, some, is_some, [], ◌∷◌, All, All-append, or_else,
  get_or_else, if_cases,
}
use ais_tracking_system.Prelude.Double.{Double, of_nat, leb_Double}
use ais_tracking_system.Prelude.StringMap.{StringMap}
use ais_tracking_system.Web.MergeReducer.{Vessel}
use ais_tracking_system.Web.View.{
  VesselFeature, ship_type_color, feature_of, feature_at, build_feature_collection, valid_degrees,
  heading_degrees,
}

-- The feature has a color, and a rotation from 0 to 359.
abbrev pub IsDrawn : VesselFeature → Type 0
IsDrawn f =
    (is_some f.color ≡ true)
    × (leb_Double (of_nat 0) f.rotation && leb_Double f.rotation (of_nat 359) ≡ true)

color-found : (code : Option ℕ) → is_some (ship_type_color code) ≡ true
unfolding ship_type_color
color-found none = refl
color-found (some code) = ground arith

abbrev IsTurned : Option Double → Type 0
IsTurned none = Unit {0}
IsTurned (some d) = leb_Double (of_nat 0) d && leb_Double d (of_nat 359) ≡ true

valid-IsTurned : (o : Option Double) → IsTurned (valid_degrees o)
valid-IsTurned none = tt
valid-IsTurned (some d) =
    if_cases IsTurned (leb_Double (of_nat 0) d && leb_Double d (of_nat 359)) _ _ (λ e. e) (λ e. tt)

heading-IsTurned : (o : Option ℕ) → IsTurned (heading_degrees o)
heading-IsTurned none = tt
heading-IsTurned (some n) = valid-IsTurned (some (of_nat n))

or-IsTurned : (a b : Option Double) → IsTurned a → IsTurned b → IsTurned (or_else a b)
or-IsTurned none b h k = k
or-IsTurned (some a) b h k = h

get-IsTurned :
    (a : Option Double)
    → IsTurned a
    → leb_Double (of_nat 0) (get_or_else a (of_nat 0))
        && leb_Double (get_or_else a (of_nat 0)) (of_nat 359)
      ≡ true
unfolding of_nat
get-IsTurned none h = refl
get-IsTurned (some a) h = h

feature-IsDrawn : (v : Vessel) (lat lon : Double) → IsDrawn (feature_of v lat lon)
unfolding feature_of
feature-IsDrawn v lat lon = (
  color-found v.ship_type,
  get-IsTurned (or_else (valid_degrees v.cog) (heading_degrees v.true_heading))
      (or-IsTurned _ _ (valid-IsTurned v.cog) (heading-IsTurned v.true_heading)),
)

at-AllDrawn : (v : Vessel) (lat lon : Option Double) → All IsDrawn (feature_at v lat lon)
at-AllDrawn v (some lat) (some lon) = (feature-IsDrawn v lat lon, tt)
at-AllDrawn v (some lat) none = tt
at-AllDrawn v none lon = tt

-- Every feature of the map has a color, so the search of the categories never fails, and a rotation
-- from 0 to 359.
pub features-AllDrawn :
    (vessels : StringMap Vessel) → All IsDrawn (build_feature_collection vessels)
unfolding build_feature_collection
features-AllDrawn [] = tt
features-AllDrawn ((k, v) ∷ vessels) =
    All-append IsDrawn (feature_at v v.lat v.lon) (build_feature_collection vessels)
      (at-AllDrawn v v.lat v.lon) (features-AllDrawn vessels)
