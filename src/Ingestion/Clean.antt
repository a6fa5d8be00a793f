-- ===== src/Ingestion/Clean.antt =====
-- The texts of AIS messages (`cleanString` and `parseAisStreamTimestamp` of
-- src/ingestion/aisstream/aisstream.normalizer.ts). Lengths count UTF-16 code units; a text that
-- would be cut inside a character is cut before it.
use Prim.Native.Char.{Char, code}
use Prim.Native.String.{String}
use mathlib.Core.Option.{some-injective}
use ais_tracking_system.Prelude.{
  ℕ, zero, suc, ◌+◌, ◌-◌, ◌≤◌, ◌≡◌, refl, subst, arith, Bool, false, ◌&&◌, ◌||◌, Option, none, some,
  List, [], ◌∷◌, ltb, leb, ◌==◌, if◌then◌else◌, if_cases, ℕ_discrete,
}
use ais_tracking_system.Prelude.Throws.{◌>>=◌}
use ais_tracking_system.Contracts.Json.{Json, null, bool, num, str, arr, obj}
use ais_tracking_system.Storage.Digits.{codes, is_digit, after, join}

-- `[\s@]`
unfoldable pub is_padding : ℕ → Bool
is_padding c =
    (c == 64)
    || (c == 32)
    || (leb 9 c && leb c 13)
    || (c == 0xa0)
    || (c == 0x1680)
    || (leb 0x2000 c && leb c 0x200a)
    || (c == 0x2028)
    || (c == 0x2029)
    || (c == 0x202f)
    || (c == 0x205f)
    || (c == 0x3000)
    || (c == 0xfeff)

-- A character of one or two code units.
abbrev pub units : Char → ℕ
units c = if ltb (code c) 0x10000 then 1 else 2

unfoldable pub length_of : String → ℕ
length_of String.[] = 0
length_of (String.◌∷◌ c s) = units c + length_of s

abbrev pub trim_onto : Char → String → String
trim_onto c String.[] = if is_padding (code c) then String.[] else String.◌∷◌ c String.[]
trim_onto c (String.◌∷◌ d s) = String.◌∷◌ c (String.◌∷◌ d s)

-- `s.replace(/[\s@]+$/u, '')`
unfoldable pub trim_end : String → String
trim_end String.[] = String.[]
trim_end (String.◌∷◌ c s) = trim_onto c (trim_end s)

-- `s.replace(/^[\s@]+/u, '')`
unfoldable pub trim_start : String → String
trim_start String.[] = String.[]
trim_start (String.◌∷◌ c s) =
    let rest = trim_start s in if is_padding (code c) then rest else String.◌∷◌ c s

-- `s.slice(0, n)`
unfoldable pub take_units : ℕ → String → String
take_units n String.[] = String.[]
take_units n (String.◌∷◌ c s) =
    let rest = take_units (n - units c) s in
    if leb (units c) n then String.◌∷◌ c rest else String.[]

abbrev pub clipped : ℕ → String → Option String
clipped max_len String.[] = none
clipped max_len (String.◌∷◌ c s) =
    if ltb max_len (length_of (String.◌∷◌ c s))
    then some (take_units max_len (String.◌∷◌ c s))
    else some (String.◌∷◌ c s)

unfoldable pub clean_text : ℕ → String → Option String
clean_text max_len s = clipped max_len (trim_start (trim_end s))

-- `cleanString` of a property
unfoldable pub clean_string : Option Json → ℕ → Option String
clean_string (some (str s)) max_len = clean_text max_len s
clean_string _ max_len = none

length-take_units : (n : ℕ) (s : String) → length_of (take_units n s) ≤ n
unfolding take_units length_of
length-take_units n String.[] = omega arith
length-take_units n (String.◌∷◌ c s) =
    if_cases (λ (u : String). length_of u ≤ n) (leb (units c) n) _ _
      (λ e.
        let h : units c ≤ n = ground arith in omega (arith, h, length-take_units (n - units c) s))
      (λ e. omega arith)

-- A text that fits, and begins with a character that is no padding.
abbrev pub IsClean : ℕ → String → Type 0
IsClean max_len String.[] = ⊥
IsClean max_len (String.◌∷◌ c s) =
    (length_of (String.◌∷◌ c s) ≤ max_len) × (is_padding (code c) ≡ false)

-- The text is empty or does not begin with padding.
abbrev Starts : String → Type 0
Starts String.[] = Unit {0}
Starts (String.◌∷◌ c s) = is_padding (code c) ≡ false

trim_start-Starts : (s : String) → Starts (trim_start s)
unfolding trim_start
trim_start-Starts String.[] = tt
trim_start-Starts (String.◌∷◌ c s) =
    if_cases Starts (is_padding (code c)) (trim_start s) (String.◌∷◌ c s) (λ e. trim_start-Starts s)
      (λ e. e)

take_units-IsClean :
    (n : ℕ) (c : Char) (s : String)
    → 2 ≤ n
    → is_padding (code c) ≡ false
    → IsClean n (take_units n (String.◌∷◌ c s))
unfolding take_units length_of
take_units-IsClean n c s h p =
    if_cases (λ (u : String). IsClean n u) (leb (units c) n)
      (String.◌∷◌ c (take_units (n - units c) s)) String.[]
      (λ e.
        let k : units c ≤ n = ground arith in
        (omega (arith, k, length-take_units (n - units c) s), p))
      (λ e. ground arith)

clipped-IsClean : (n : ℕ) (u t : String) → 2 ≤ n → Starts u → clipped n u ≡ some t → IsClean n t
clipped-IsClean n String.[] t h p e = cc
clipped-IsClean n (String.◌∷◌ c u) t h p e =
    if_cases (λ (o : Option String). o ≡ some t → IsClean n t) (ltb n (length_of (String.◌∷◌ c u)))
      _ _ (λ a b. subst (IsClean n) (some-injective _ t b) (take_units-IsClean n c u h p))
      (λ a b. subst (IsClean n) (some-injective _ t b) (ground arith, p)) e

pub clean_text-IsClean :
    (max_len : ℕ) (s t : String) → 2 ≤ max_len → clean_text max_len s ≡ some t → IsClean max_len t
unfolding clean_text
clean_text-IsClean max_len s t h e =
    clipped-IsClean max_len (trim_start (trim_end s)) t h (trim_start-Starts (trim_end s)) e

-- `\d{k}` as its digits, from the start of a text.
unfoldable pub digits : ℕ → List ℕ → Option (List ℕ × List ℕ)
digits zero s = some ([], s)
digits (suc k) [] = none
digits (suc k) (c ∷ s) =
    let rest = digits k s in
    if is_digit c then (do (front, tail) ← rest; some (c ∷ front, tail)) else none

-- `\d+` as far as it goes.
unfoldable pub all_digits : List ℕ → List ℕ
all_digits [] = []
all_digits (c ∷ s) = let rest = all_digits s in if is_digit c then c ∷ rest else []

-- `frac.slice(0, 3).padEnd(3, '0')`
unfoldable pub three : List ℕ → List ℕ
three (a ∷ b ∷ c ∷ s) = a ∷ b ∷ c ∷ []
three (a ∷ b ∷ []) = a ∷ b ∷ 48 ∷ []
three (a ∷ []) = a ∷ 48 ∷ 48 ∷ []
three [] = 48 ∷ 48 ∷ 48 ∷ []

-- `(?:\.(\d+))?`
unfoldable pub milliseconds : List ℕ → List ℕ
milliseconds s = elim (after (codes ".") s) [
  | none ↦ three []
  | some rest ↦ three (all_digits rest)
]

unfoldable pub iso_of : List ℕ → Option (List ℕ)
iso_of s = do
  (y, s) ← digits 4 s
  s ← after (codes "-") s
  (mo, s) ← digits 2 s
  s ← after (codes "-") s
  (d, s) ← digits 2 s
  s ← after (codes " ") s
  (h, s) ← digits 2 s
  s ← after (codes ":") s
  (mi, s) ← digits 2 s
  s ← after (codes ":") s
  (se, s) ← digits 2 s
  some (
      join (
        y
        ∷ codes "-"
        ∷ mo
        ∷ codes "-"
        ∷ d
        ∷ codes "T"
        ∷ h
        ∷ codes ":"
        ∷ mi
        ∷ codes ":"
        ∷ se
        ∷ codes "."
        ∷ milliseconds s
        ∷ codes "Z"
        ∷ []))

-- `to_iso` is `toISOString` of the date of a text, if it is one. A value that is not a text is one
-- that has no `match`, unless it is falsy: the outer `none` is the exception.
unfoldable pub parse_ais_stream_timestamp :
    (List ℕ → Option String) → Option Json → Option (Option String)
parse_ais_stream_timestamp to_iso (some (str s)) = some (iso_of (codes s) >>= to_iso)
parse_ais_stream_timestamp to_iso none = some none
parse_ais_stream_timestamp to_iso (some null) = some none
parse_ais_stream_timestamp to_iso (some (bool b)) = if b then none else some none
parse_ais_stream_timestamp to_iso (some (num d)) = if d.magnitude == 0 then some none else none
parse_ais_stream_timestamp to_iso (some (arr a)) = none
parse_ais_stream_timestamp to_iso (some (obj o)) = none

stamp :
    iso_of (codes "2026-04-28 04:52:17.518241663 +0000 UTC")
    ≡ some (codes "2026-04-28T04:52:17.518Z")
unfolding iso_of digits is_digit after milliseconds all_digits three ℕ_discrete
stamp = refl
