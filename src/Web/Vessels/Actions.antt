-- ===== src/Web/Vessels/Actions.antt =====
-- What the store's actions keep of the vessels.
use ais_tracking_system.Prelude.{
  String, ◌≡◌, refl, inl, inr, true, Option, some, none, List, All, Bool-cases,
}
use ais_tracking_system.Prelude.Int.{ℤ}
use ais_tracking_system.Prelude.StringMap
use ais_tracking_system.Prelude.StringMap.{StringMap, IsDistinct, put-IsDistinct}
use ais_tracking_system.Web.MergeReducer.{Vessel}
use ais_tracking_system.Web.MergeReducer.Apply.{is_stale, apply_snapshot_rows}
use ais_tracking_system.Web.MergeReducer.Monotone.{
  Advances, Grows, Grows-refl, IsDated, apply_position-Grows, apply_static-Grows,
  apply_snapshot_rows-Grows, apply_detail_sanctions-Grows, apply_enriched-Grows,
}
use ais_tracking_system.Web.MergeReducer.Prune.{if_fresh, get-prune_stale_vessels}
use ais_tracking_system.Web.Vessels.Distinct.{apply_snapshot_rows-IsDistinct, act_all-IsDistinct}
use ais_tracking_system.Web.Vessels.{
  VesselsState, Action, set_status, set_error, prune_stale, snapshot, position, static, enriched,
  detail_sanctions, initial_state, act, act_all, snapshot_retention_ms,
}

module _ (parse : String → Option ℤ) where
  -- The timestamps that an action brings and the reducer does not itself check are readable.
  abbrev pub IsDatedAction : Action → Type 0
  IsDatedAction (snapshot rows now) = All (λ row. IsDated parse row.last_seen_at) rows
  IsDatedAction (position ev) = IsDated parse ev.ingested_at
  IsDatedAction (enriched ev) = IsDated parse ev.checked_at
  IsDatedAction _ = Unit {0}

  -- The action's time, if it drops stale vessels.
  abbrev pub prunes_at : Action → Option ℤ
  prunes_at (prune_stale now) = some now
  prunes_at (snapshot rows now) = some now
  prunes_at _ = none

  -- The vessels with the rows of a snapshot, before any is dropped.
  abbrev pub with_rows : Action → StringMap Vessel → StringMap Vessel
  with_rows (snapshot rows now) vessels = apply_snapshot_rows parse vessels rows
  with_rows _ vessels = vessels

  -- The vessel `v`, which the action turns into `brought`, is stale at the action's time.
  abbrev pub Expires : Action → Vessel → Option Vessel → Type 0
  Expires a v brought =
      (now : ℤ) × (w : Vessel) × (prunes_at a ≡ some now)
      × (brought ≡ some w)
      × Advances parse v w
      × (is_stale parse now snapshot_retention_ms w ≡ true)

  -- What becomes of a vessel.
  abbrev pub Continues : Action → Option Vessel → Option Vessel → Option Vessel → Type 0
  Continues a none brought after = Unit {0}
  Continues a (some v) brought none = Expires a v brought
  Continues a (some v) brought (some w) = Advances parse v w

  grown :
      (a : Action) (before brought after : Option Vessel)
      → Grows parse before after
      → Continues a before brought after
  grown a none brought after h = tt
  grown a (some v) brought none h = elim h [ ]
  grown a (some v) brought (some w) h = h

  pruned :
      (a : Action) (now : ℤ) (before after : Option Vessel)
      → prunes_at a ≡ some now
      → Grows parse before after
      → Continues a before after (if_fresh parse now snapshot_retention_ms after)
  pruned a now none after e h = tt
  pruned a now (some v) none e h = elim h [ ]
  pruned a now (some v) (some w) e h =
      elim (Bool-cases (is_stale parse now snapshot_retention_ms w)) [
        | inl stale ↦ rw stale (now, w, e, refl, h, stale)
        | inr fresh ↦ rw fresh h
      ]

  act-Continues :
      (s : VesselsState) (a : Action) (k : String)
      → IsDistinct s.vessels
      → IsDatedAction a
      → Continues a
          (StringMap.get k s.vessels)
          (StringMap.get k (with_rows a s.vessels))
          (StringMap.get k (act parse s a).vessels)
  unfolding act
  act-Continues s (set_status status) k d dated =
      grown (set_status status) _ _ _ (Grows-refl parse (StringMap.get k s.vessels))
  act-Continues s (set_error e) k d dated =
      grown (set_error e) _ _ _ (Grows-refl parse (StringMap.get k s.vessels))
  act-Continues s (prune_stale now) k d dated =
      rw (get-prune_stale_vessels parse now snapshot_retention_ms s.vessels k d)
        (pruned (prune_stale now) now _ _ refl (Grows-refl parse (StringMap.get k s.vessels)))
  act-Continues s (snapshot rows now) k d dated =
      rw
        (get-prune_stale_vessels parse now snapshot_retention_ms
          (apply_snapshot_rows parse s.vessels rows) k
          (apply_snapshot_rows-IsDistinct parse s.vessels rows d))
        (pruned (snapshot rows now) now _ _ refl
          (apply_snapshot_rows-Grows parse s.vessels rows k dated))
  act-Continues s (position ev) k d dated =
      grown (position ev) _ _ _ (apply_position-Grows parse s.vessels ev k dated)
  act-Continues s (static ev) k d dated =
      grown (static ev) _ _ _ (apply_static-Grows parse s.vessels ev k)
  act-Continues s (enriched ev) k d dated =
      grown (enriched ev) _ _ _ (apply_enriched-Grows parse s.vessels ev k dated)
  act-Continues s (detail_sanctions row) k d dated =
      grown (detail_sanctions row) _ _ _ (apply_detail_sanctions-Grows parse s.vessels row k)

  -- After any actions on the initial store, an action that brings readable timestamps takes no
  -- vessel back in any of its four timestamps, and removes a vessel only if the action drops stale
  -- vessels and that vessel, with the rows of the action's snapshot applied, is stale at the time
  -- of the action.
  pub act-act_all-Continues :
      (actions : List Action) (a : Action) (k : String)
      → IsDatedAction a
      → Continues a
          (StringMap.get k (act_all parse initial_state actions).vessels)
          (StringMap.get k (with_rows a (act_all parse initial_state actions).vessels))
          (StringMap.get k (act parse (act_all parse initial_state actions) a).vessels)
  act-act_all-Continues actions a k dated =
      act-Continues (act_all parse initial_state actions) a k
        (act_all-IsDistinct parse initial_state actions tt) dated
