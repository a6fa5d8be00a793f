-- ===== src/Storage/Digits.antt =====
-- Texts of digits. A text is the list of its code units here, since its characters are read.
use Prim.Native.Char.{code}
use Prim.Native.String.{String}
use ais_tracking_system.Prelude.{
  ℕ, zero, suc, ◌+◌, ◌-◌, ◌*◌, ◌/◌, ◌%◌, ◌≤◌, ◌<◌, ◌≡◌, refl, ap, ◌∙◌, arith, Bool, ◌&&◌, Option,
  none, some, List, [], ◌∷◌, ◌++◌, length, ℕ_discrete, ite, ltb, leb, if◌then◌else◌,
}

abbrev pub codes : String → List ℕ
codes String.[] = []
codes (String.◌∷◌ c s) = code c ∷ codes s

-- A template's parts in a row.
abbrev pub join : List (List ℕ) → List ℕ
join [] = []
join (s ∷ parts) = s ++ join parts

abbrev pub digit : ℕ → ℕ
digit n = b'0' + n

-- `n.toString()` of a number below 10 ^ fuel.
unfoldable pub decimal : ℕ → ℕ → List ℕ
decimal zero n = []
decimal (suc fuel) n =
    let front = decimal fuel (n / 10) in
    if ltb n 10 then digit n ∷ [] else front ++ digit (n % 10) ∷ []

-- The digits of a safe integer are 16 at most.
abbrev pub to_string : ℕ → List ℕ
to_string = decimal 16

-- `s.padStart(k, '0')`
unfoldable pub zeros : ℕ → List ℕ
zeros zero = []
zeros (suc k) = b'0' ∷ zeros k

abbrev pub pad_start : ℕ → List ℕ → List ℕ
pad_start k s = zeros (k - length s) ++ s

unfoldable pub is_digit : ℕ → Bool
is_digit c = leb b'0' c && leb c b'9'

-- `\d{k}` with its number, from the start of a text.
unfoldable pub number : ℕ → ℕ → List ℕ → Option (ℕ × List ℕ)
number zero n s = some (n, s)
number (suc k) n [] = none
number (suc k) n (c ∷ s) =
    let rest = number k (10 * n + (c - b'0')) s in if is_digit c then rest else none

-- What follows a literal.
unfoldable pub after : List ℕ → List ℕ → Option (List ℕ)
after [] s = some s
after (c ∷ p) [] = none
after (c ∷ p) (d ∷ s) = ite (ℕ_discrete c d) (after p s) none

pub after-append : (p s : List ℕ) → after p (p ++ s) ≡ some s
unfolding after
after-append [] s = refl
after-append (c ∷ p) s = ground (arith, after-append p s)

pub decimal-two :
    (n : ℕ) → n < 100 → pad_start 2 (to_string n) ≡ digit (n / 10) ∷ digit (n % 10) ∷ []
unfolding decimal zeros
decimal-two n h = ground arith

pub decimal-four :
    (n : ℕ)
    → 1000 ≤ n
    → n < 10000
    → to_string n
      ≡ digit (n / 10 / 10 / 10)
        ∷ digit (n / 10 / 10 % 10)
        ∷ digit (n / 10 % 10)
        ∷ digit (n % 10)
        ∷ []
unfolding decimal
decimal-four n h k = ground arith

number_two :
    (a b : ℕ) (s : List ℕ)
    → a < 10
    → b < 10
    → number 2 0 (digit a ∷ digit b ∷ s) ≡ some (10 * a + b, s)
unfolding number is_digit
number_two a b s ha hb = ground arith

number_four :
    (a b c d : ℕ) (s : List ℕ)
    → a < 10
    → b < 10
    → c < 10
    → d < 10
    → number 4 0 (digit a ∷ digit b ∷ digit c ∷ digit d ∷ s)
      ≡ some (10 * (10 * (10 * a + b) + c) + d, s)
unfolding number is_digit
number_four a b c d s ha hb hc hd = ground arith

pub number-decimal_two :
    (n : ℕ) (s : List ℕ) → n < 100 → number 2 0 (pad_start 2 (to_string n) ++ s) ≡ some (n, s)
number-decimal_two n s h = rw (decimal-two n h) (
    number_two (n / 10) (n % 10) s (omega arith) (omega arith)
    ∙ ap (λ m. some (m, s)) (omega arith))

pub number-decimal_four :
    (n : ℕ) (s : List ℕ) → 1000 ≤ n → n < 10000 → number 4 0 (to_string n ++ s) ≡ some (n, s)
number-decimal_four n s h k = rw (decimal-four n h k) (
    number_four (n / 10 / 10 / 10) (n / 10 / 10 % 10) (n / 10 % 10) (n % 10) s (omega arith)
      (omega arith) (omega arith) (omega arith)
    ∙ ap (λ m. some (m, s)) (omega arith))
