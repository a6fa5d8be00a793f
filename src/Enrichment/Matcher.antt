-- ===== src/Enrichment/Matcher.antt =====
-- The matcher of vessels against sanction lists (src/enrichment/vessel/matcher.ts). The text
-- functions of JavaScript that it calls are parameters.
pub mod Distinct
pub mod Status
use ais_tracking_system.Prelude.{
  ℕ, String, Bool, true, false, ◌||◌, Option, none, some, List, [], ◌∷◌, ◌++◌, map, any, ite,
  str_discrete, if◌then◌else◌,
}
use ais_tracking_system.Prelude.StringMap
use ais_tracking_system.Prelude.StringMap.{StringMap}
use ais_tracking_system.Contracts.{
  SanctionMatch, MatchMethod, imo, mmsi, name_candidate, SanctionsStatus, clear, candidate,
  sanctioned,
}

pub record SanctionCandidate : Type 0 where
  pub entity_id : String
  pub source : String
  pub source_entity_id : String
  pub name : String
  pub imo : Option String
  pub mmsi : Option String
  pub aliases : List String
  pub flag : Option String
  pub listing_date : Option String
  pub programs : List String

pub record MatchInput : Type 0 where
  pub imo : Option String
  pub mmsi : Option String
  pub name : Option String

pub record MatchResult : Type 0 where
  pub status : SanctionsStatus
  pub matches : List SanctionMatch

-- `normalize('NFKD')`, the two replacements, `toLowerCase`, `trim` and `<`.
pub record TextFunctions : Type 0 where
  pub nfkd : String → String
  pub without_marks : String → String
  pub to_lower_case : String → String
  pub spaced : String → String
  pub trim : String → String
  pub less : String → String → Bool

abbrev pub to_match : SanctionCandidate → MatchMethod → SanctionMatch
to_match row method = record {
  entity_id = row.entity_id;
  source = row.source;
  source_entity_id = row.source_entity_id;
  name = row.name;
  match_method = method;
  aliases = row.aliases;
  flag = row.flag;
  listing_date = row.listing_date;
  programs = row.programs;
}

-- `x !== null && x === wanted`
unfoldable pub is_same : String → Option String → Bool
is_same wanted none = false
is_same wanted (some x) = ite (str_discrete x wanted) true false

-- The `filter` and the `map` to matches by one method.
unfoldable pub matches_by :
    MatchMethod → (SanctionCandidate → Bool) → List SanctionCandidate → List SanctionMatch
matches_by method test [] = []
matches_by method test (c ∷ cs) =
    let rest = matches_by method test cs in if test c then to_match c method ∷ rest else rest

-- The loop that adds the matches whose entity is new, with `seen` and `out`.
unfoldable pub add_new :
    StringMap (Unit {0})
    → List SanctionMatch
    → List SanctionMatch
    → StringMap (Unit {0}) × List SanctionMatch
add_new seen out [] = (seen, out)
add_new seen out (m ∷ ms) =
    add_new (if StringMap.has m.entity_id seen then seen else StringMap.put m.entity_id tt seen)
      (if StringMap.has m.entity_id seen then out else out ++ m ∷ []) ms

module _ (texts : TextFunctions) where
  unfoldable pub normalize_name : Option String → String
  normalize_name none = ""
  normalize_name (some input) =
      ite (str_discrete input "") ""
        (texts.trim (texts.spaced (texts.to_lower_case (texts.without_marks (texts.nfkd input)))))

  abbrev pub compare_by : String → String → Bool → Bool
  compare_by a b rest = if texts.less a b then true else if texts.less b a then false else rest

  -- `byMatchOrder(a, b) < 0`
  unfoldable pub comes_before : SanctionMatch → SanctionMatch → Bool
  comes_before a b =
      compare_by a.source b.source (
        compare_by a.source_entity_id b.source_entity_id (compare_by a.entity_id b.entity_id false))

  -- `sort`, which is stable.
  unfoldable pub insert : SanctionMatch → List SanctionMatch → List SanctionMatch
  unfolding comes_before
  insert m [] = m ∷ []
  insert m (n ∷ ms) = let rest = insert m ms in if comes_before n m then n ∷ rest else m ∷ n ∷ ms

  unfoldable pub sort : List SanctionMatch → List SanctionMatch
  unfolding insert
  sort [] = []
  sort (m ∷ ms) = insert m (sort ms)

  -- `if (wanted) { … }` around one loop.
  unfoldable pub add_by :
      MatchMethod
      → (SanctionCandidate → Bool)
      → Bool
      → List SanctionCandidate
      → StringMap (Unit {0}) × List SanctionMatch
      → StringMap (Unit {0}) × List SanctionMatch
  unfolding sort matches_by add_new
  add_by method test false cs (seen, out) = (seen, out)
  add_by method test true cs (seen, out) = add_new seen out (sort (matches_by method test cs))

  abbrev pub is_given : Option String → Bool
  is_given none = false
  is_given (some t) = ite (str_discrete t "") false true

  abbrev pub has_value : Option String → Option String → Bool
  has_value none x = false
  has_value (some wanted) x = is_same wanted x

  unfoldable pub has_name : String → SanctionCandidate → Bool
  unfolding normalize_name
  has_name normalized c =
      ite (str_discrete (normalize_name (some c.name)) normalized) true
        (any (λ a. ite (str_discrete (normalize_name (some a)) normalized) true false) c.aliases)

  abbrev pub result_of : List SanctionMatch → MatchResult
  result_of [] = record { status = clear; matches = [] }
  result_of (m ∷ out) = record { status = candidate; matches = m ∷ out }

  -- `sanctioned` if there is a match by now, and by name otherwise.
  abbrev pub by_name :
      MatchInput → List SanctionCandidate → StringMap (Unit {0}) × List SanctionMatch → MatchResult
  by_name input cs (seen, m ∷ out) = record { status = sanctioned; matches = m ∷ out }
  by_name input cs (seen, []) =
      let normalized = normalize_name input.name in
      result_of
        (add_by name_candidate (has_name normalized) (ite (str_discrete normalized "") false true)
          cs (seen, [])).1

  abbrev pub by_identifier :
      MatchInput → List SanctionCandidate → StringMap (Unit {0}) × List SanctionMatch
  by_identifier input cs =
      add_by mmsi (λ c. has_value input.mmsi c.mmsi) (is_given input.mmsi) cs
        (add_by imo (λ c. has_value input.imo c.imo) (is_given input.imo) cs ([], []))

  unfoldable pub match_candidates : MatchInput → List SanctionCandidate → MatchResult
  unfolding add_by has_name normalize_name
  match_candidates input cs = by_name input cs (by_identifier input cs)
