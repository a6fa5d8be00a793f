-- ===== src/Enrichment/Matcher/Status.antt =====
-- The status that the matcher gives.
use ais_tracking_system.Prelude.{
  ◌≡◌, refl, ◌∙◌, ap, Bool, true, false, ◌&&◌, ◌||◌, List, [], ◌∷◌, ◌++◌, any, if◌then◌else◌, arith,
}
use ais_tracking_system.Prelude.StringMap
use ais_tracking_system.Prelude.StringMap.{StringMap}
use ais_tracking_system.Contracts.{
  SanctionMatch, MatchMethod, imo, mmsi, SanctionsStatus, clear, candidate, sanctioned,
}
use ais_tracking_system.Enrichment.Matcher.{
  SanctionCandidate, MatchInput, TextFunctions, add_new, add_by, insert, sort, matches_by,
  match_candidates, by_name, by_identifier, result_of, is_given, has_value, comes_before,
}
use ais_tracking_system.Enrichment.Matcher.Distinct.{IsTracked, add_by-IsTracked}

abbrev pub nonempty : List SanctionMatch → Bool
nonempty [] = false
nonempty (m ∷ ms) = true

abbrev pub is_sanctioned : SanctionsStatus → Bool
is_sanctioned sanctioned = true
is_sanctioned clear = false
is_sanctioned candidate = false

nonempty-matches_by :
    (method : MatchMethod) (test : SanctionCandidate → Bool) (cs : List SanctionCandidate)
    → nonempty (matches_by method test cs) ≡ any test cs
unfolding matches_by
nonempty-matches_by method test [] = refl
nonempty-matches_by method test (c ∷ cs) = ground (arith, nonempty-matches_by method test cs)

nonempty-append : (out : List SanctionMatch) (m : SanctionMatch) → nonempty (out ++ m ∷ []) ≡ true
nonempty-append [] m = refl
nonempty-append (n ∷ out) m = refl

add_new_keeps :
    (seen : StringMap (Unit {0})) (out ms : List SanctionMatch)
    → nonempty out ≡ true
    → nonempty (add_new seen out ms).1 ≡ true
unfolding add_new
add_new_keeps seen out [] h = h
add_new_keeps seen out (m ∷ ms) h =
    either (StringMap.has m.entity_id seen) (add_new_keeps seen out ms h)
      (add_new_keeps (StringMap.put m.entity_id tt seen) (out ++ m ∷ []) ms (nonempty-append out m))
  where
    either :
        (b : Bool)
        → nonempty (add_new seen out ms).1 ≡ true
        → nonempty (add_new (StringMap.put m.entity_id tt seen) (out ++ m ∷ []) ms).1 ≡ true
        → nonempty
            (add_new
              (if b then seen else StringMap.put m.entity_id tt seen)
              (if b then out else out ++ m ∷ [])
              ms).1
          ≡ true
    either true h k = h
    either false h k = k

nonempty-add_new :
    (seen : StringMap (Unit {0})) (out ms : List SanctionMatch)
    → IsTracked (seen, out)
    → nonempty (add_new seen out ms).1 ≡ nonempty out || nonempty ms
unfolding add_new StringMap.has
nonempty-add_new seen (n ∷ out) ms h = add_new_keeps seen (n ∷ out) ms refl
nonempty-add_new seen [] [] h = refl
nonempty-add_new seen [] (m ∷ ms) h = either (StringMap.has m.entity_id seen) (h.same m.entity_id)
  where
    either :
        (b : Bool)
        → b ≡ false
        → nonempty
            (add_new
              (if b then seen else StringMap.put m.entity_id tt seen)
              (if b then [] else m ∷ [])
              ms).1
          ≡ true
    either true e = cc
    either false e = add_new_keeps (StringMap.put m.entity_id tt seen) (m ∷ []) ms refl

module _ (texts : TextFunctions) where
  nonempty-insert :
      (m : SanctionMatch) (ms : List SanctionMatch) → nonempty (insert texts m ms) ≡ true
  unfolding insert
  nonempty-insert m [] = refl
  nonempty-insert m (n ∷ ms) = either (comes_before texts n m)
    where
      either : (b : Bool) → nonempty (if b then n ∷ insert texts m ms else m ∷ n ∷ ms) ≡ true
      either true = refl
      either false = refl

  nonempty-sort : (ms : List SanctionMatch) → nonempty (sort texts ms) ≡ nonempty ms
  unfolding sort
  nonempty-sort [] = refl
  nonempty-sort (m ∷ ms) = nonempty-insert m (sort texts ms)

  nonempty-add_by :
      (method : MatchMethod) (test : SanctionCandidate → Bool) (given : Bool)
      (cs : List SanctionCandidate) (r : StringMap (Unit {0}) × List SanctionMatch)
      → IsTracked r
      → nonempty (add_by texts method test given cs r).1 ≡ nonempty r.1 || (given && any test cs)
  unfolding add_by
  nonempty-add_by method test false cs (seen, out) h = or_false (nonempty out)
    where
      or_false : (b : Bool) → b ≡ b || false
      or_false true = refl
      or_false false = refl
  nonempty-add_by method test true cs (seen, out) h =
      nonempty-add_new seen out (sort texts (matches_by method test cs)) h
      ∙ ap (λ b. nonempty out || b)
          (nonempty-sort (matches_by method test cs) ∙ nonempty-matches_by method test cs)

  -- A candidate has the vessel's IMO number or its MMSI.
  abbrev pub is_listed : MatchInput → List SanctionCandidate → Bool
  is_listed input cs =
      (is_given texts input.imo && any (λ c. has_value texts input.imo c.imo) cs)
      || (is_given texts input.mmsi && any (λ c. has_value texts input.mmsi c.mmsi) cs)

  -- The matcher's status is `sanctioned` exactly if some candidate has the vessel's IMO number or
  -- its MMSI, where the vessel has one; a name alone never makes it so.
  pub match_candidates_lem :
      (input : MatchInput) (cs : List SanctionCandidate)
      → is_sanctioned (match_candidates texts input cs).status ≡ is_listed input cs
  unfolding match_candidates StringMap.has
  match_candidates_lem input cs =
      named (by_identifier texts input cs)
      ∙ nonempty-add_by mmsi (λ c. has_value texts input.mmsi c.mmsi) (is_given texts input.mmsi) cs
          _ by_imo
      ∙ ap
          (λ b. b || (is_given texts input.mmsi && any (λ c. has_value texts input.mmsi c.mmsi) cs))
          (nonempty-add_by imo (λ c. has_value texts input.imo c.imo) (is_given texts input.imo) cs
            ([], []) start)
    where
      start : IsTracked ([], [])
      start = record { same = λ k. refl; distinct = tt }

      by_imo : IsTracked (
          add_by texts imo
            (λ c. has_value texts input.imo c.imo)
            (is_given texts input.imo)
            cs
            ([], []))
      by_imo =
          add_by-IsTracked texts imo (λ c. has_value texts input.imo c.imo)
            (is_given texts input.imo) cs ([], []) start

      unnamed : (out : List SanctionMatch) → is_sanctioned (result_of texts out).status ≡ false
      unnamed [] = refl
      unnamed (m ∷ out) = refl

      named :
          (r : StringMap (Unit {0}) × List SanctionMatch)
          → is_sanctioned (by_name texts input cs r).status ≡ nonempty r.1
      named (seen, m ∷ out) = refl
      named (seen, []) = unnamed _
