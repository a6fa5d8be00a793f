-- ===== src/Enrichment/Matcher/Distinct.antt =====
-- The entities that the matcher lists.
use ais_tracking_system.Prelude.{
  ◌≡◌, refl, sym, ◌∙◌, ap, subst, String, Bool, true, false, List, [], ◌∷◌, ◌++◌, map,
  if◌then◌else◌, ite, str_discrete,
}
use ais_tracking_system.Prelude.StringMap
use ais_tracking_system.Prelude.StringMap.{
  StringMap, IsDistinct, has-put, put_absent, put-IsDistinct,
}
use ais_tracking_system.Contracts.{SanctionMatch, MatchMethod, imo, mmsi, name_candidate}
use ais_tracking_system.Enrichment.Matcher.{
  SanctionCandidate, MatchInput, TextFunctions, add_new, add_by, sort, matches_by, match_candidates,
  by_name, by_identifier, result_of, has_name, normalize_name, is_given, has_value,
}

-- The matches by their entities.
abbrev pub keyed : List SanctionMatch → StringMap SanctionMatch
keyed ms = map (λ m. (m.entity_id, m)) ms

-- What is seen is what is listed, once.
pub record IsTracked (r : StringMap (Unit {0}) × List SanctionMatch) : Type 0 where
  pub same : (k : String) → StringMap.has k r.0 ≡ StringMap.has k (keyed r.1)
  pub distinct : IsDistinct (keyed r.1)

keyed-append :
    (out : List SanctionMatch) (m : SanctionMatch)
    → keyed (out ++ m ∷ []) ≡ keyed out ++ (m.entity_id, m) ∷ []
keyed-append [] m = refl
keyed-append (n ∷ out) m = ap (λ l. (n.entity_id, n) ∷ l) (keyed-append out m)

added :
    (seen : StringMap (Unit {0})) (out : List SanctionMatch) (m : SanctionMatch)
    → StringMap.has m.entity_id seen ≡ false
    → IsTracked (seen, out)
    → IsTracked (StringMap.put m.entity_id tt seen, out ++ m ∷ [])
added seen out m new h =
    let e : keyed (out ++ m ∷ []) ≡ StringMap.put m.entity_id m (keyed out) =
      keyed-append out m
      ∙ sym (put_absent m.entity_id m (keyed out) (sym (h.same m.entity_id) ∙ new)) in
    record {
      same = λ k.
          has-put m.entity_id k tt seen
          ∙ ap (λ b. ite (str_discrete m.entity_id k) true b) (h.same k)
          ∙ sym (has-put m.entity_id k m (keyed out))
          ∙ ap (λ l. StringMap.has k l) (sym e);
      distinct =
          subst (λ l. IsDistinct l) (sym e) (put-IsDistinct m.entity_id m (keyed out) h.distinct);
    }

pub add_new-IsTracked :
    (seen : StringMap (Unit {0})) (out ms : List SanctionMatch)
    → IsTracked (seen, out)
    → IsTracked (add_new seen out ms)
unfolding add_new
add_new-IsTracked seen out [] h = h
add_new-IsTracked seen out (m ∷ ms) h =
    either (StringMap.has m.entity_id seen) refl (add_new-IsTracked seen out ms h) (λ new.
      add_new-IsTracked (StringMap.put m.entity_id tt seen) (out ++ m ∷ []) ms
        (added seen out m new h))
  where
    either :
        (b : Bool)
        → StringMap.has m.entity_id seen ≡ b
        → IsTracked (add_new seen out ms)
        → (StringMap.has m.entity_id seen ≡ false
            → IsTracked (add_new (StringMap.put m.entity_id tt seen) (out ++ m ∷ []) ms))
        → IsTracked (
            add_new
              (if b then seen else StringMap.put m.entity_id tt seen)
              (if b then out else out ++ m ∷ [])
              ms)
    either true e h k = h
    either false e h k = k e

module _ (texts : TextFunctions) where
  pub add_by-IsTracked :
      (method : MatchMethod) (test : SanctionCandidate → Bool) (given : Bool)
      (cs : List SanctionCandidate) (r : StringMap (Unit {0}) × List SanctionMatch)
      → IsTracked r
      → IsTracked (add_by texts method test given cs r)
  unfolding add_by
  add_by-IsTracked method test false cs (seen, out) h = h
  add_by-IsTracked method test true cs (seen, out) h =
      add_new-IsTracked seen out (sort texts (matches_by method test cs)) h

  pub by_identifier-IsTracked :
      (input : MatchInput) (cs : List SanctionCandidate) → IsTracked (by_identifier texts input cs)
  unfolding StringMap.has
  by_identifier-IsTracked input cs =
      add_by-IsTracked mmsi (λ c. has_value texts input.mmsi c.mmsi) (is_given texts input.mmsi) cs
        _
        (add_by-IsTracked imo (λ c. has_value texts input.imo c.imo) (is_given texts input.imo) cs
          ([], []) (record { same = λ k. refl; distinct = tt }))

  result_of-IsDistinct :
      (out : List SanctionMatch)
      → IsDistinct (keyed out)
      → IsDistinct (keyed (result_of texts out).matches)
  result_of-IsDistinct [] h = tt
  result_of-IsDistinct (m ∷ out) h = h

  -- Whatever the candidates, no entity is matched twice, be it by different methods.
  pub match_candidates-IsDistinct :
      (input : MatchInput) (cs : List SanctionCandidate)
      → IsDistinct (keyed (match_candidates texts input cs).matches)
  unfolding match_candidates
  match_candidates-IsDistinct input cs =
      named (by_identifier texts input cs) (by_identifier-IsTracked input cs)
    where
      named :
          (r : StringMap (Unit {0}) × List SanctionMatch)
          → IsTracked r
          → IsDistinct (keyed (by_name texts input cs r).matches)
      named (seen, m ∷ out) h = h.distinct
      named (seen, []) h =
          result_of-IsDistinct _
            (add_by-IsTracked name_candidate (has_name texts (normalize_name texts input.name))
              (ite (str_discrete (normalize_name texts input.name) "") false true) cs (seen, [])
              h).distinct
