-- ===== src/Ingestion/Registry/Entries.antt =====
-- The entries that a configuration resolves to.
use Prim.Native.String.{String}
use ais_tracking_system.Prelude.{
  ◌≡◌, refl, ap, Bool, true, false, Option, none, some, List, [], ◌∷◌, ◌++◌, map, All,
  if◌then◌else◌, ite, str_discrete,
}
use ais_tracking_system.Prelude.StringMap.{StringMap, get}
use ais_tracking_system.Ingestion.Registry.{
  ProviderPair, RegistryEntry, Resolution, resolved, unknown, mismatch, is_seen, pairs_by_id,
  entry_of, before, resolve_from, resolve,
}

-- The ids in the order of their first occurrences, without those seen.
abbrev pub distinct_from : List String → List String → List String
distinct_from seen [] = []
distinct_from seen (id ∷ ids) =
    let again = distinct_from seen ids in
    let fresh = distinct_from (id ∷ seen) ids in if is_seen id seen then again else id ∷ fresh

-- The entry's pair is the registered one of its id, and its normalizer is made for it.
abbrev pub IsPaired : StringMap ProviderPair → RegistryEntry → Type 0
IsPaired by_id e = (get e.id by_id ≡ some e.pair) × (e.pair.normalizer_provider ≡ e.id)

-- The id is one of those, and the ids before it have entries.
abbrev pub IsFirst : StringMap ProviderPair → List String → String → Type 0
IsFirst by_id ids id =
    (es : List RegistryEntry) × (rest : List String) × (ids ≡ map (λ e. e.id) es ++ id ∷ rest)
    × All (IsPaired by_id) es

-- What a resolution says: all the ids have entries, or the first failing one is named.
abbrev pub IsResolved : StringMap ProviderPair → List String → Resolution → Type 0
IsResolved by_id ids (resolved es) = (map (λ e. e.id) es ≡ ids) × All (IsPaired by_id) es
IsResolved by_id ids (unknown id) = IsFirst by_id ids id × (get id by_id ≡ none)
IsResolved by_id ids (mismatch id) =
    (pair : ProviderPair) × IsFirst by_id ids id
    × (get id by_id ≡ some pair)
    × ¬ (pair.normalizer_provider ≡ id)

before-IsResolved :
    (by_id : StringMap ProviderPair) (id : String) (o : Option ProviderPair) (ids : List String)
    (r : Resolution)
    → get id by_id ≡ o
    → IsResolved by_id ids r
    → IsResolved by_id (id ∷ ids) (before (entry_of id o) r)
before-IsResolved by_id id none ids r e h = (([], ids, refl, tt), e)
before-IsResolved by_id id (some pair) ids r e h = go (str_discrete pair.normalizer_provider id) r h
  where
    later :
        {other : String}
        → pair.normalizer_provider ≡ id
        → IsFirst by_id ids other
        → IsFirst by_id (id ∷ ids) other
    later p (es, rest, q, paired) =
        (record { id = id; pair = pair } ∷ es, rest, ap (λ is. id ∷ is) q, ((e, p), paired))

    go :
        (d : Dec (pair.normalizer_provider ≡ id)) (r : Resolution)
        → IsResolved by_id ids r
        → IsResolved by_id
            (id ∷ ids)
            (before (ite d (resolved (record { id = id; pair = pair } ∷ [])) (mismatch id)) r)
    go (yes p) (resolved es) h = (ap (λ is. id ∷ is) h.0, ((e, p), h.1))
    go (yes p) (unknown other) h = (later p h.0, h.1)
    go (yes p) (mismatch other) (found, f, h, n) = (found, later p f, h, n)
    go (no n) r h = (pair, ([], ids, refl, tt), e, n)

resolve_from-IsResolved :
    (by_id : StringMap ProviderPair) (seen ids : List String)
    → IsResolved by_id (distinct_from seen ids) (resolve_from by_id seen ids)
unfolding resolve_from
resolve_from-IsResolved by_id seen [] = (refl, tt)
resolve_from-IsResolved by_id seen (id ∷ ids) =
    go (is_seen id seen) (resolve_from-IsResolved by_id seen ids)
      (resolve_from-IsResolved by_id (id ∷ seen) ids)
  where
    go :
        (b : Bool)
        → IsResolved by_id (distinct_from seen ids) (resolve_from by_id seen ids)
        → IsResolved by_id (distinct_from (id ∷ seen) ids) (resolve_from by_id (id ∷ seen) ids)
        → IsResolved by_id
            (if b then distinct_from seen ids else id ∷ distinct_from (id ∷ seen) ids)
            (if b
              then resolve_from by_id seen ids
              else before (entry_of id (get id by_id)) (resolve_from by_id (id ∷ seen) ids))
    go true h k = h
    go false h k = before-IsResolved by_id id (get id by_id) _ _ refl k

-- The registry resolves the requested ids, each once and in the order of their first occurrences, to
-- pairs that are registered and whose normalizer is made for the id; otherwise it names the first of
-- these ids that is not registered or whose normalizer is made for another, and says which it is.
pub resolve-IsResolved :
    (candidates : List ProviderPair) (requested : List String)
    → IsResolved
        (pairs_by_id candidates [])
        (distinct_from [] requested)
        (resolve candidates requested)
unfolding resolve
resolve-IsResolved candidates requested =
    resolve_from-IsResolved (pairs_by_id candidates []) [] requested
