-- ===== src/Ingestion/Normalizer/Valid.antt =====
-- The events that the schemas let through, and those that the normalizer gives.
use Prim.Native.String.{String}
use mathlib.Core.Option.{some-injective}
use ais_tracking_system.Prelude.{
  ℕ, ◌≡◌, subst, arith, Bool, true, ◌&&◌, Option, none, some, leb, if_cases,
}
use ais_tracking_system.Prelude.Double.{Double, of_nat, leb_Double}
use ais_tracking_system.Prelude.Throws.{◌>>=◌, >>=-eq-some}
use ais_tracking_system.Contracts.{PositionEvent, StaticEvent}
use ais_tracking_system.Contracts.Json.{Json, null, bool, num, str, arr, obj}
use ais_tracking_system.Ingestion.Schema.{
  is_digits, is_filled, text_if, number_between, nonnegative, negate, int_to, whole, optional,
  required, optional_text, fits,
}

-- A test of a value that is there.
abbrev pub Holds : {A : Type 0} → (A → Bool) → Option A → Type 0
Holds p none = Unit {0}
Holds p (some a) = p a ≡ true

abbrev pub is_between : Double → Double → Double → Bool
is_between low high d = leb_Double low d && leb_Double d high

-- The schema of positions, field by field.
pub record IsPosition (is_datetime : String → Bool) (e : PositionEvent) : Type 0 where
  pub mmsi : is_digits 9 e.mmsi ≡ true
  pub lat : is_between (negate (of_nat 90)) (of_nat 90) e.lat ≡ true
  pub lon : is_between (negate (of_nat 180)) (of_nat 180) e.lon ≡ true
  pub sog : Holds (leb_Double (of_nat 0)) e.sog
  pub cog : Holds (is_between (of_nat 0) (of_nat 360)) e.cog
  pub true_heading : Holds (λ n. leb n 511) e.true_heading
  pub nav_status : Holds (λ n. leb n 15) e.nav_status
  pub ship_name : Holds (fits 255) e.ship_name
  pub occurred_at : is_datetime e.occurred_at ≡ true
  pub provider : is_filled e.provider ≡ true
  pub ingested_at : is_datetime e.ingested_at ≡ true

-- The schema of profiles.
pub record IsStatic (is_datetime : String → Bool) (e : StaticEvent) : Type 0 where
  pub mmsi : is_digits 9 e.mmsi ≡ true
  pub imo : Holds (is_digits 7) e.imo
  pub name : Holds (fits 255) e.name
  pub call_sign : Holds (fits 32) e.call_sign
  pub ship_type : Holds (λ n. leb n 255) e.ship_type
  pub destination : Holds (fits 120) e.destination
  pub occurred_at : is_datetime e.occurred_at ≡ true
  pub provider : is_filled e.provider ≡ true
  pub ingested_at : is_datetime e.ingested_at ≡ true

pub text_if-passes : (t : String → Bool) (s u : String) → text_if t s ≡ some u → t u ≡ true
unfolding text_if
text_if-passes t s u e =
    if_cases (λ (o : Option String). o ≡ some u → t u ≡ true) (t s) (some s) none
      (λ p q. subst (λ v. t v ≡ true) (some-injective s u q) p) (λ p q. cc) e

pub required-passes :
    (low high : Double) (o : Option Json) (d : Double)
    → required (number_between low high) o ≡ some d
    → is_between low high d ≡ true
unfolding number_between
required-passes low high (some (num d)) r e = ground arith
required-passes low high none r e = cc
required-passes low high (some null) r e = cc
required-passes low high (some (bool b)) r e = cc
required-passes low high (some (str s)) r e = cc
required-passes low high (some (arr a)) r e = cc
required-passes low high (some (obj a)) r e = cc

pub number_between-passes :
    (low high : Double) (j : Json) (d : Double)
    → number_between low high j ≡ some d
    → is_between low high d ≡ true
number_between-passes low high j d e = required-passes low high (some j) d e

pub nonnegative-passes :
    (j : Json) (d : Double) → nonnegative j ≡ some d → leb_Double (of_nat 0) d ≡ true
unfolding nonnegative
nonnegative-passes (num d) r e = ground arith
nonnegative-passes null r e = cc
nonnegative-passes (bool b) r e = cc
nonnegative-passes (str s) r e = cc
nonnegative-passes (arr a) r e = cc
nonnegative-passes (obj a) r e = cc

pub int_to-passes : (high : ℕ) (j : Json) (n : ℕ) → int_to high j ≡ some n → leb n high ≡ true
unfolding int_to
int_to-passes high j n e =
    let (d, f, g) = >>=-eq-some (nonnegative j) _ e in
    let (m, h, k) = >>=-eq-some (whole d) _ g in ground arith

module _ {A : Type 0} (check : Json → Option A) (p : A → Bool)
    (passes : (j : Json) (a : A) → check j ≡ some a → p a ≡ true) where
  some-passes : (j : Json) (r : Option A) → (check j >>= λ a. some (some a)) ≡ some r → Holds p r
  some-passes j r e =
      let (a, f, g) = >>=-eq-some (check j) _ e in
      subst (Holds p) (some-injective (some a) r g) (passes j a f)

  pub optional-passes : (o : Option Json) (r : Option A) → optional check o ≡ some r → Holds p r
  unfolding optional
  optional-passes none r e = subst (Holds p) (some-injective none r e) tt
  optional-passes (some null) r e = subst (Holds p) (some-injective none r e) tt
  optional-passes (some (bool b)) r e = some-passes (bool b) r e
  optional-passes (some (num d)) r e = some-passes (num d) r e
  optional-passes (some (str s)) r e = some-passes (str s) r e
  optional-passes (some (arr a)) r e = some-passes (arr a) r e
  optional-passes (some (obj a)) r e = some-passes (obj a) r e

pub optional_text-passes :
    (t : String → Bool) (o r : Option String) → optional_text t o ≡ some r → Holds t r
optional_text-passes t none r e = subst (Holds t) (some-injective none r e) tt
optional_text-passes t (some s) r e =
    let (u, f, g) = >>=-eq-some (text_if t s) _ e in
    subst (Holds t) (some-injective (some u) r g) (text_if-passes t s u f)
