-- ===== src/Web/MergeReducer/Stamps.antt =====
-- The order of timestamps, and what the reducer's comparisons say about it.
use ais_tracking_system.Prelude.{◌≡◌, String, true, false, Option, some, none, arith, is_some}
use ais_tracking_system.Prelude.Int.{ℤ, ◌≤ℤ◌}
use ais_tracking_system.Web.MergeReducer.{truthy, date_geq, newer_than, is_newer, max_timestamp}

-- What does not parse comes before all dates.
infix 50 ◌≼◌
abbrev pub ◌≼◌ : Option ℤ → Option ℤ → Type 0
none ≼ b = Unit {0}
some a ≼ none = ⊥
some a ≼ some b = a ≤ℤ b

pub ≼_refl : (a : Option ℤ) → a ≼ a
≼_refl none = tt
≼_refl (some a) = omega arith

pub ≼_trans : (a b c : Option ℤ) → a ≼ b → b ≼ c → a ≼ c
≼_trans none b c h k = tt
≼_trans (some a) none c h k = elim h [ ]
≼_trans (some a) (some b) none h k = elim k [ ]
≼_trans (some a) (some b) (some c) h k = omega arith

module _ (parse : String → Option ℤ) where
  abbrev pub stamp_of : Option String → Option ℤ
  stamp_of none = none
  stamp_of (some s) = parse s

  -- The date that a timestamp stands for, if it is there and parses.
  unfoldable pub stamp : Option String → Option ℤ
  unfolding truthy
  stamp t = stamp_of (truthy t)

  newer_than_lem : (a b : Option String) → newer_than parse a b ≡ true → stamp_of b ≼ stamp_of a
  newer_than_lem none b h = cc
  newer_than_lem (some s) none h = tt
  newer_than_lem (some s) (some t) h = geq (parse s) (parse t) h
    where
      geq : (a b : Option ℤ) → date_geq parse a b ≡ true → b ≼ a
      geq none b e = cc
      geq (some a) none e = cc
      geq (some a) (some b) e = ground arith

  pub is_newer_lem : (a b : Option String) → is_newer parse a b ≡ true → stamp b ≼ stamp a
  unfolding is_newer stamp
  is_newer_lem a b h = newer_than_lem (truthy a) (truthy b) h

  not_geq : (a b : Option ℤ) → is_some b ≡ true → date_geq parse a b ≡ false → a ≼ b
  not_geq none b dated e = tt
  not_geq (some a) none dated e = cc
  not_geq (some a) (some b) dated e = ground arith

  -- The later of two timestamps is not before the first, if the second one parses.
  pub max_timestamp_lem :
      (a b : Option String) → is_some (stamp b) ≡ true → stamp a ≼ stamp (max_timestamp parse a b)
  unfolding max_timestamp stamp truthy
  max_timestamp_lem none b dated = tt
  max_timestamp_lem (some s) none dated = cc
  max_timestamp_lem (some s) (some t) dated =
      ground (arith, not_geq (parse s) (parse t), ≼_refl (parse s))
