-- ===== src/Prelude/Double.antt =====
-- The numbers of JavaScript as far as the program compares them: an IEEE 754 double is its sign bit
-- and its other 63 bits, read as a number. Two doubles that are not NaN compare as those numbers do
-- with their signs, and the two zeros are equal.
use Prim.Native.Nat.{ℕ, zero, suc, ◌+◌, ◌-◌, ◌*◌, ◌/◌, ◌^◌}
use mathlib.Core.Bool.{Bool, false, not, ◌&&◌}
use package.ais_tracking_system.Prelude.Tests.{ltb, if◌then◌else◌}
use package.ais_tracking_system.Prelude.Int.{ℤ, pos, negsuc, leb_ℤ, ltb_ℤ}

pub record Double : Type 0 where
  pub negative : Bool
  pub magnitude : ℕ

-- The bits of +Infinity: what lies above them is NaN.
abbrev pub infinity_bits : ℕ
infinity_bits = 0x7ff0000000000000

abbrev pub is_nan : Double → Bool
is_nan d = ltb infinity_bits d.magnitude

abbrev pub signed : Double → ℤ
signed d = if d.negative && ltb 0 d.magnitude then negsuc (d.magnitude - 1) else pos d.magnitude

-- `a <= b` and `a < b`
abbrev pub leb_Double : Double → Double → Bool
leb_Double a b = not (is_nan a) && not (is_nan b) && leb_ℤ (signed a) (signed b)

abbrev pub ltb_Double : Double → Double → Bool
ltb_Double a b = not (is_nan a) && not (is_nan b) && ltb_ℤ (signed a) (signed b)

-- `a === b`
abbrev pub eq_Double : Double → Double → Bool
eq_Double a b = leb_Double a b && leb_Double b a

-- The exponent of the leading bit of a number below 2 ^ 53.
abbrev pub log2 : ℕ → ℕ → ℕ
log2 zero n = 0
log2 (suc fuel) n = let rest = log2 fuel (n / 2) in if ltb n 2 then 0 else suc rest

-- The double of an integer below 2 ^ 53.
unfoldable pub of_nat : ℕ → Double
of_nat n =
    let e = log2 53 n in
    record {
      negative = false;
      magnitude = if ltb 0 n then (1022 + e) * 2 ^ 52 + n * 2 ^ (52 - e) else 0;
    }
