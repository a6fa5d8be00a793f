-- ===== src/Storage/Partitions/Identifiers.antt =====
-- The names that are put into statements.
use ais_tracking_system.Prelude.{
  ℕ, zero, suc, ◌+◌, ◌-◌, ◌*◌, ◌/◌, ◌%◌, ◌≡◌, refl, sym, subst, arith, true, some, List, [], ◌∷◌,
  ◌++◌,
}
use ais_tracking_system.Prelude.Throws.{>>=-eq-some}
use ais_tracking_system.Storage.Digits.{
  codes, join, to_string, decimal, zeros, number, after, is_digit, digit,
}
use ais_tracking_system.Storage.Partitions.{
  history_partition_parent, pad, at_end, match_partition, parse_history_partition_day,
  is_identifier_rest, is_identifier, quote_identifier,
}

after-eq-some : (p s r : List ℕ) → after p s ≡ some r → s ≡ p ++ r
unfolding after
after-eq-some [] s r e = ground arith
after-eq-some (c ∷ p) [] r e = cc
after-eq-some (c ∷ p) (d ∷ s) r e = ground (arith, after-eq-some p s r)

number-is_identifier :
    (k n : ℕ) (s : List ℕ) (m : ℕ) (r : List ℕ)
    → number k n s ≡ some (m, r)
    → is_identifier_rest r ≡ true
    → is_identifier_rest s ≡ true
unfolding number is_digit
number-is_identifier zero n s m r e h = ground arith
number-is_identifier (suc k) n [] m r e h = cc
number-is_identifier (suc k) n (c ∷ s) m r e h =
    ground (arith, number-is_identifier k (10 * n + (c - 48)) s m r)

is_identifier-append :
    (s t : List ℕ)
    → is_identifier_rest s ≡ true
    → is_identifier_rest t ≡ true
    → is_identifier_rest (s ++ t) ≡ true
is_identifier-append [] t h k = k
is_identifier-append (c ∷ s) t h k = ground (arith, is_identifier-append s t)

decimal-is_identifier : (fuel n : ℕ) → is_identifier_rest (decimal fuel n) ≡ true
unfolding decimal
decimal-is_identifier zero n = refl
decimal-is_identifier (suc fuel) n =
    let front = decimal fuel (n / 10) in
    ground (
      arith,
      is_identifier-append front (digit (n % 10) ∷ []) (decimal-is_identifier fuel (n / 10)),
    )

zeros-is_identifier : (k : ℕ) → is_identifier_rest (zeros k) ≡ true
unfolding zeros
zeros-is_identifier zero = refl
zeros-is_identifier (suc k) = zeros-is_identifier k

pad-is_identifier : (n : ℕ) → is_identifier_rest (pad n) ≡ true
pad-is_identifier n =
    is_identifier-append (zeros _) (to_string n) (zeros-is_identifier _)
      (decimal-is_identifier 16 n)

pub name-is_identifier :
    (y m d : ℕ)
    → is_identifier (
        join (
          history_partition_parent
          ∷ codes "_y"
          ∷ to_string y
          ∷ codes "m"
          ∷ pad m
          ∷ codes "d"
          ∷ pad d
          ∷ []))
      ≡ true
unfolding is_identifier
name-is_identifier y m d = is_identifier-append (to_string y) _ (decimal-is_identifier 16 y) (
    is_identifier-append (pad m) _ (pad-is_identifier m)
      (is_identifier-append (pad d) [] (pad-is_identifier d) refl))

end-is_identifier :
    {A : Type 0} (r : List ℕ) (a : A) {b : A} → at_end r a ≡ some b → is_identifier_rest r ≡ true
end-is_identifier [] a e = refl
end-is_identifier (c ∷ r) a e = cc

-- Each group of the pattern is digits.
match-is_identifier :
    (name : List ℕ) {f : ℕ × ℕ × ℕ} → match_partition name ≡ some f → is_identifier name ≡ true
unfolding match_partition is_identifier
match-is_identifier name h =
    let (r0, e0, h0) = >>=-eq-some (after (history_partition_parent ++ codes "_y") name) _ h in
    let ((y, r1), e1, h1) = >>=-eq-some (number 4 0 r0) _ h0 in
    let (r2, e2, h2) = >>=-eq-some (after (codes "m") r1) _ h1 in
    let ((m, r3), e3, h3) = >>=-eq-some (number 2 0 r2) _ h2 in
    let (r4, e4, h4) = >>=-eq-some (after (codes "d") r3) _ h3 in
    let ((d, r5), e5, h5) = >>=-eq-some (number 2 0 r4) _ h4 in
    let i4 = number-is_identifier 2 0 r4 d r5 e5 (end-is_identifier r5 (y, m, d) h5) in
    let i3 =
      subst (λ s. is_identifier_rest s ≡ true) (sym (after-eq-some (codes "d") r3 r4 e4)) i4 in
    let i2 = number-is_identifier 2 0 r2 m r3 e3 i3 in
    let i1 =
      subst (λ s. is_identifier_rest s ≡ true) (sym (after-eq-some (codes "m") r1 r2 e2)) i2 in
    let i0 = number-is_identifier 4 0 r0 y r1 e1 i1 in
    subst (λ s. is_identifier s ≡ true)
      (sym (after-eq-some (history_partition_parent ++ codes "_y") name r0 e0)) i0

pub quote-parsed :
    (name : List ℕ) {day : ℕ}
    → parse_history_partition_day name ≡ some day
    → quote_identifier name ≡ some (join (codes "\"" ∷ name ∷ codes "\"" ∷ []))
unfolding parse_history_partition_day quote_identifier
quote-parsed name h =
    let (f, e, k) = >>=-eq-some (match_partition name) _ h in rw (match-is_identifier name e) refl
