-- ===== src/Ingestion/Registry.antt =====
-- The providers that are configured (src/ingestion/provider-registry.ts). An adapter is the id that it
-- gives itself; its health is read by a parameter. Logs are left out.
pub mod Entries
pub mod Counted
use Prim.Native.String.{String}
use ais_tracking_system.Prelude.{
  ℕ, ◌+◌, ◌-◌, Bool, true, false, Option, none, some, List, [], ◌∷◌, ◌++◌, any, ltb, get_or_else,
  if◌then◌else◌, ite, str_discrete,
}
use ais_tracking_system.Prelude.Int.{ℤ, pos, negsuc, ◌-ℤ◌, pos_part}
use ais_tracking_system.Prelude.StringMap.{StringMap, get, put}

pub record ProviderPair : Type 0 where
  pub adapter_id : String
  pub normalizer_provider : String

pub record RegistryEntry : Type 0 where
  pub id : String
  pub pair : ProviderPair

-- The entries, or one of the two errors with the id that it names.
pub data Resolution : Type 0 where
  resolved : List RegistryEntry → Resolution
  unknown mismatch : String → Resolution

abbrev pub is_seen : String → List String → Bool
is_seen id seen = any (λ other. ite (str_discrete other id) true false) seen

-- A later pair of the same id replaces an earlier one.
unfoldable pub pairs_by_id : List ProviderPair → StringMap ProviderPair → StringMap ProviderPair
pairs_by_id [] by_id = by_id
pairs_by_id (pair ∷ pairs) by_id = pairs_by_id pairs (put pair.adapter_id pair by_id)

-- The entry of an id, or its error.
abbrev pub entry_of : String → Option ProviderPair → Resolution
entry_of id none = unknown id
entry_of id (some pair) =
    ite (str_discrete pair.normalizer_provider id) (resolved (record { id = id; pair = pair } ∷ []))
      (mismatch id)

abbrev pub before : Resolution → Resolution → Resolution
before (resolved es) (resolved fs) = resolved (es ++ fs)
before (resolved es) (unknown id) = unknown id
before (resolved es) (mismatch id) = mismatch id
before (unknown id) later = unknown id
before (mismatch id) later = mismatch id

-- The loop over the requested ids, with the set of those seen.
unfoldable pub resolve_from : StringMap ProviderPair → List String → List String → Resolution
resolve_from by_id seen [] = resolved []
resolve_from by_id seen (id ∷ ids) =
    let again = resolve_from by_id seen ids in
    let fresh = resolve_from by_id (id ∷ seen) ids in
    if is_seen id seen then again else before (entry_of id (get id by_id)) fresh

unfoldable pub resolve : List ProviderPair → List String → Resolution
resolve candidates requested = resolve_from (pairs_by_id candidates []) [] requested

-- What `health` of an adapter tells here: the time of the last message as `new Date` reads it.
pub record HealthReading : Type 0 where
  pub connected : Bool
  pub last_message_at : Option ℕ
  pub reconnect_count : ℕ

-- The baselines of the registry, and the metrics by provider; an age is in milliseconds, or -1.
pub record RegistryState : Type 0 where
  pub reconnect_baseline : StringMap ℕ
  pub connected_gauge : StringMap ℕ
  pub last_message_age : StringMap ℤ
  pub reconnects_counter : StringMap ℕ

abbrev pub age_of : ℕ → Option ℕ → ℤ
age_of now none = negsuc 0
age_of now (some at) = pos (now - at)

-- `?? 0`, and a counter that was never increased
abbrev pub count_in : String → StringMap ℕ → ℕ
count_in id m = get_or_else (get id m) 0

-- The increase of the counter, where there is one. `reconnect_count - baseline` is positive there.
unfoldable pub count_reconnects : String → ℕ → RegistryState → RegistryState
count_reconnects id reconnect_count s =
    let baseline = count_in id s.reconnect_baseline in
    if ltb baseline reconnect_count
    then record s {
      reconnects_counter =
          put id (count_in id s.reconnects_counter + (reconnect_count - baseline))
            s.reconnects_counter;
      reconnect_baseline = put id reconnect_count s.reconnect_baseline;
    }
    else s

unfoldable pub refresh_entry : ℕ → String → HealthReading → RegistryState → RegistryState
refresh_entry now id h s = count_reconnects id h.reconnect_count (record s {
  connected_gauge = put id (if h.connected then 1 else 0) s.connected_gauge;
  last_message_age = put id (age_of now h.last_message_at) s.last_message_age;
})

unfoldable pub refresh_metrics :
    ℕ → (String → HealthReading) → List RegistryEntry → RegistryState → RegistryState
refresh_metrics now health [] s = s
refresh_metrics now health (e ∷ es) s =
    refresh_metrics now health es (refresh_entry now e.id (health e.id) s)

-- The baselines that the start of the module sets.
unfoldable pub set_baselines :
    (String → HealthReading) → List RegistryEntry → RegistryState → RegistryState
set_baselines health [] s = s
set_baselines health (e ∷ es) s =
    set_baselines health es (record s {
      reconnect_baseline = put e.id (health e.id).reconnect_count s.reconnect_baseline;
    })
