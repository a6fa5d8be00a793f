-- ===== src/Web/MergeReducer/Prune.antt =====
-- What the client's table holds after vessels not heard of are dropped.
use ais_tracking_system.Prelude.{
  ℕ, ◌≡◌, refl, sym, ◌∙◌, String, Bool, true, false, Option, some, none, [], ◌∷◌, arith, Bool-cases,
  inl, inr, if◌then◌else◌, or_else,
}
use ais_tracking_system.Prelude.Int.{ℤ}
use ais_tracking_system.Prelude.StringMap
use ais_tracking_system.Prelude.StringMap.{StringMap, IsDistinct, get-put, get-has}
use ais_tracking_system.Web.MergeReducer.{Vessel}
use ais_tracking_system.Web.MergeReducer.Apply.{is_stale, prune_from, prune_stale_vessels}

module _ (parse : String → Option ℤ) (now : ℤ) (max_age_ms : ℕ) where
  -- A vessel that is not stale.
  abbrev pub if_fresh : Option Vessel → Option Vessel
  if_fresh none = none
  if_fresh (some v) = if is_stale parse now max_age_ms v then none else some v

  get-prune_from :
      (prev next : StringMap Vessel) (changed : Bool) (j : String)
      → IsDistinct prev
      → StringMap.get j (prune_from parse now max_age_ms prev next changed).0
        ≡ or_else (if_fresh (StringMap.get j prev)) (StringMap.get j next)
  unfolding prune_from StringMap.get
  get-prune_from [] next changed j d = refl
  get-prune_from ((mmsi, v) ∷ prev) next changed j d = ground (
    arith,
    get-prune_from prev next true j d.1,
    get-prune_from prev (StringMap.put mmsi v next) changed j d.1,
    get-put mmsi j v next,
    get-has j prev,
  )

  prune_from_changed :
      (prev next : StringMap Vessel) → (prune_from parse now max_age_ms prev next true).1 ≡ true
  unfolding prune_from
  prune_from_changed [] next = refl
  prune_from_changed ((mmsi, v) ∷ prev) next =
      ground
        (arith, prune_from_changed prev next, prune_from_changed prev (StringMap.put mmsi v next))

  prune_from_unchanged :
      (prev next : StringMap Vessel) (j : String)
      → (prune_from parse now max_age_ms prev next false).1 ≡ false
      → if_fresh (StringMap.get j prev) ≡ StringMap.get j prev
  unfolding prune_from StringMap.get
  prune_from_unchanged [] next j e = refl
  prune_from_unchanged ((mmsi, v) ∷ prev) next j e =
      ground (
        arith,
        prune_from_changed prev next,
        prune_from_unchanged prev (StringMap.put mmsi v next) j,
      )

  -- In a table whose keys are distinct, dropping the stale vessels leaves every other vessel as it
  -- is, and no stale one.
  pub get-prune_stale_vessels :
      (prev : StringMap Vessel) (j : String)
      → IsDistinct prev
      → StringMap.get j (prune_stale_vessels parse prev now max_age_ms)
        ≡ if_fresh (StringMap.get j prev)
  unfolding prune_stale_vessels StringMap.get
  get-prune_stale_vessels prev j d =
      elim (Bool-cases (prune_from parse now max_age_ms prev [] false).1) [
        | inl changed ↦
            rw changed
              (get-prune_from prev [] false j d ∙ or_none (if_fresh (StringMap.get j prev)))
        | inr same ↦ rw same (sym (prune_from_unchanged prev [] j same))
      ]
    where
      or_none : (o : Option Vessel) → or_else o none ≡ o
      or_none none = refl
      or_none (some v) = refl
