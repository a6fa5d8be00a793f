-- ===== src/Ingestion/Registry/Counted.antt =====
-- The counter of reconnects.
use Prim.Native.String.{String}
use ais_tracking_system.Prelude.{
  ℕ, ◌+◌, ◌-◌, ◌≤◌, ◌≡◌, refl, arith, some, List, [], ◌∷◌, ltb, get_or_else, if_cases, ite,
  str_discrete,
}
use ais_tracking_system.Prelude.StringMap.{StringMap, get, put, get-put}
use ais_tracking_system.Ingestion.Registry.{
  RegistryEntry, RegistryState, HealthReading, count_in, count_reconnects, refresh_entry,
  refresh_metrics,
}

-- From one state to a later one: the counter of a provider grows as much as its baseline, which does
-- not shrink.
abbrev pub IsCounted : String → RegistryState → RegistryState → Type 0
IsCounted id s t =
    (count_in id t.reconnects_counter + count_in id s.reconnect_baseline
      ≡ count_in id s.reconnects_counter + count_in id t.reconnect_baseline)
    × (count_in id s.reconnect_baseline ≤ count_in id t.reconnect_baseline)

count_in-put :
    (id other : String) (n : ℕ) (m : StringMap ℕ)
    → count_in id (put other n m) ≡ ite (str_discrete other id) n (count_in id m)
count_in-put id other n m = rw (get-put other id n m) (go (str_discrete other id))
  where
    go :
        (d : Dec (other ≡ id))
        → get_or_else (ite d (some n) (get id m)) 0 ≡ ite d n (get_or_else (get id m) 0)
    go (yes p) = refl
    go (no p) = refl

count_reconnects-IsCounted :
    (id other : String) (n : ℕ) (s : RegistryState) → IsCounted id s (count_reconnects other n s)
unfolding count_reconnects
count_reconnects-IsCounted id other n s =
    let baseline = count_in other s.reconnect_baseline in
    let counted = count_in other s.reconnects_counter + (n - baseline) in
    if_cases (λ (t : RegistryState). IsCounted id s t) (ltb baseline n) _ s
      (λ e. ground (
        arith,
        count_in-put id other counted s.reconnects_counter,
        count_in-put id other n s.reconnect_baseline,
      ))
      (λ e. (refl, omega arith))

refresh_entry-IsCounted :
    (id other : String) (now : ℕ) (h : HealthReading) (s : RegistryState)
    → IsCounted id s (refresh_entry now other h s)
unfolding refresh_entry
refresh_entry-IsCounted id other now h s = count_reconnects-IsCounted id other h.reconnect_count _

-- However often the metrics are refreshed, and whatever the adapters tell: a provider's counter of
-- reconnects grows exactly as much as the count that was last taken into account for it.
pub refresh_metrics-IsCounted :
    (id : String) (now : ℕ) (health : String → HealthReading) (entries : List RegistryEntry)
    (s : RegistryState)
    → IsCounted id s (refresh_metrics now health entries s)
unfolding refresh_metrics
refresh_metrics-IsCounted id now health [] s = (refl, omega arith)
refresh_metrics-IsCounted id now health (e ∷ es) s =
    let first = refresh_entry-IsCounted id e.id now (health e.id) s in
    let rest =
      refresh_metrics-IsCounted id now health es (refresh_entry now e.id (health e.id) s) in
    (omega (arith, first.0, rest.0), omega (arith, first.1, rest.1))
