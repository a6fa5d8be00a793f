-- ===== src/Web/MergeReducer/Monotone.antt =====
-- How events move the timestamps of the client's vessels.
use ais_tracking_system.Prelude.{
  ◌≡◌, refl, String, Bool, true, false, not, ◌&&◌, Option, some, none, List, [], ◌∷◌, arith,
  str_discrete, is_some, Option-cases, Bool-cases, inl, inr, All, if_pos, if_neg, subst,
  if◌then◌else◌,
}
use ais_tracking_system.Prelude.Int.{ℤ}
use ais_tracking_system.Prelude.StringMap
use ais_tracking_system.Prelude.StringMap.{StringMap, get-put}
use ais_tracking_system.Contracts.{PositionEvent, StaticEvent, VesselEnrichedEvent}
use ais_tracking_system.Web.MergeReducer.{
  Vessel, SnapshotRow, DetailSanctions, truthy, base_of, is_newer, date_lt,
}
use ais_tracking_system.Web.MergeReducer.Apply.{
  merge_row, apply_rows, apply_snapshot_rows, apply_detail_sanctions, moved, apply_position,
  profiled, apply_static, checked_before, apply_enriched,
}
use ais_tracking_system.Web.MergeReducer.Stamps.{
  ◌≼◌, ≼_refl, ≼_trans, stamp, is_newer_lem, max_timestamp_lem,
}

module _ (parse : String → Option ℤ) where
  -- The one vessel is the other one at a later time, in each of its four timestamps.
  pub record Advances (v w : Vessel) : Type 0 where
    pub position : stamp parse v.occurred_at ≼ stamp parse w.occurred_at
    pub profile : stamp parse v.static_occurred_at ≼ stamp parse w.static_occurred_at
    pub sanctions : stamp parse v.sanctions_checked_at ≼ stamp parse w.sanctions_checked_at
    pub seen : stamp parse v.last_seen_at ≼ stamp parse w.last_seen_at

  pub Advances-refl : (v : Vessel) → Advances v v
  Advances-refl v = record {
    position = ≼_refl _;
    profile = ≼_refl _;
    sanctions = ≼_refl _;
    seen = ≼_refl _;
  }

  pub Advances-trans : (u v w : Vessel) → Advances u v → Advances v w → Advances u w
  Advances-trans u v w h k = record {
    position = ≼_trans _ (stamp parse v.occurred_at) _ h.position k.position;
    profile = ≼_trans _ (stamp parse v.static_occurred_at) _ h.profile k.profile;
    sanctions = ≼_trans _ (stamp parse v.sanctions_checked_at) _ h.sanctions k.sanctions;
    seen = ≼_trans _ (stamp parse v.last_seen_at) _ h.seen k.seen;
  }

  -- What is known of a vessel is not lost, and advances.
  abbrev pub Grows : Option Vessel → Option Vessel → Type 0
  Grows none after = Unit {0}
  Grows (some v) none = ⊥
  Grows (some v) (some w) = Advances v w

  pub Grows-refl : (o : Option Vessel) → Grows o o
  Grows-refl none = tt
  Grows-refl (some v) = Advances-refl v

  pub Grows-trans : (a b c : Option Vessel) → Grows a b → Grows b c → Grows a c
  Grows-trans none b c h k = tt
  Grows-trans (some u) none c h k = elim h [ ]
  Grows-trans (some u) (some v) none h k = elim k [ ]
  Grows-trans (some u) (some v) (some w) h k = Advances-trans u v w h k

  base-Grows :
      (j : String) (w : Vessel) (m : StringMap Vessel)
      → Advances (base_of m j) w
      → Grows (StringMap.get j m) (some w)
  unfolding base_of
  base-Grows j w m h = elim (Option-cases (StringMap.get j m)) [
    | inl missing ↦ rw missing tt
    | inr (v, found) ↦ rw found (rw found at h)
  ]

  put-Grows :
      (k j : String) (w : Vessel) (m : StringMap Vessel)
      → Advances (base_of m k) w
      → Grows (StringMap.get j m) (StringMap.get j (StringMap.put k w m))
  put-Grows k j w m h = elim (str_discrete k j) [
    | yes same ↦
        rw (get-put k j w m, if_pos _ same)
          (base-Grows j w m (subst (λ i. Advances (base_of m i) w) same h))
    | no other ↦ rw (get-put k j w m, if_neg _ other) (Grows-refl (StringMap.get j m))
  ]

  -- The timestamps of the events parse.
  abbrev pub IsDated : String → Type 0
  IsDated t = is_some (stamp parse (some t)) ≡ true

  moved-Advances :
      (v : Vessel) (ev : PositionEvent)
      → is_newer parse (some ev.occurred_at) v.occurred_at ≡ true
      → IsDated ev.ingested_at
      → Advances v (moved parse v ev)
  unfolding moved
  moved-Advances v ev newer dated = record {
    position = is_newer_lem parse (some ev.occurred_at) v.occurred_at newer;
    profile = ≼_refl _;
    sanctions = ≼_refl _;
    seen = max_timestamp_lem parse v.last_seen_at (some ev.ingested_at) dated;
  }

  pub apply_position-Grows :
      (m : StringMap Vessel) (ev : PositionEvent) (j : String)
      → IsDated ev.ingested_at
      → Grows (StringMap.get j m) (StringMap.get j (apply_position parse m ev))
  unfolding apply_position
  apply_position-Grows m ev j dated =
      elim (Bool-cases (is_newer parse (some ev.occurred_at) (base_of m ev.mmsi).occurred_at)) [
        | inl newer ↦ rw newer (
            put-Grows ev.mmsi j (moved parse (base_of m ev.mmsi) ev) m
              (moved-Advances (base_of m ev.mmsi) ev newer dated))
        | inr old ↦ rw old (Grows-refl (StringMap.get j m))
      ]

  profiled-Advances :
      (accept : Bool) (v : Vessel) (ev : StaticEvent)
      → is_newer parse (some ev.occurred_at) v.static_occurred_at ≡ accept
      → Advances v (profiled parse accept v ev)
  unfolding profiled
  profiled-Advances false v ev e = Advances-refl v
  profiled-Advances true v ev e = record {
    position = ≼_refl _;
    profile = is_newer_lem parse (some ev.occurred_at) v.static_occurred_at e;
    sanctions = ≼_refl _;
    seen = ≼_refl _;
  }

  pub apply_static-Grows :
      (m : StringMap Vessel) (ev : StaticEvent) (j : String)
      → Grows (StringMap.get j m) (StringMap.get j (apply_static parse m ev))
  unfolding apply_static
  apply_static-Grows m ev j =
      let base = base_of m ev.mmsi in
      let accept = is_newer parse (some ev.occurred_at) base.static_occurred_at in
      elim (Bool-cases (StringMap.has ev.mmsi m && not accept)) [
        | inl skip ↦ rw skip (Grows-refl (StringMap.get j m))
        | inr go ↦ rw go (
            put-Grows ev.mmsi j (profiled parse accept base ev) m
              (profiled-Advances accept base ev refl))
      ]

  -- A timestamp that is replaced by a newer one only.
  kept :
      (t current : Option String)
      → stamp parse current ≼ stamp parse (if is_newer parse t current then t else current)
  kept t current = elim (Bool-cases (is_newer parse t current)) [
    | inl newer ↦ rw newer (is_newer_lem parse t current newer)
    | inr old ↦ rw old (≼_refl _)
  ]

  put_from-Grows :
      (k j : String) (w : Vessel) (prev next : StringMap Vessel)
      → Grows (StringMap.get j prev) (StringMap.get j next)
      → Advances (base_of prev k) w
      → Grows (StringMap.get j prev) (StringMap.get j (StringMap.put k w next))
  put_from-Grows k j w prev next g h = elim (str_discrete k j) [
    | yes same ↦
        rw (get-put k j w next, if_pos _ same)
          (base-Grows j w prev (subst (λ i. Advances (base_of prev i) w) same h))
    | no other ↦ rw (get-put k j w next, if_neg _ other) g
  ]

  merge_row-Advances :
      (v : Vessel) (row : SnapshotRow)
      → IsDated row.last_seen_at
      → Advances v (merge_row parse v row)
  unfolding merge_row
  merge_row-Advances v row dated = record {
    position = kept (some row.occurred_at) v.occurred_at;
    profile = ≼_refl _;
    sanctions = kept row.sanctions_checked_at v.sanctions_checked_at;
    seen = max_timestamp_lem parse v.last_seen_at (some row.last_seen_at) dated;
  }

  apply_rows-Grows :
      (prev next : StringMap Vessel) (rows : List SnapshotRow) (j : String)
      → ((i : String) → Grows (StringMap.get i prev) (StringMap.get i next))
      → All (λ row. IsDated row.last_seen_at) rows
      → Grows (StringMap.get j prev) (StringMap.get j (apply_rows parse prev next rows))
  unfolding apply_rows
  apply_rows-Grows prev next [] j h dated = h j
  apply_rows-Grows prev next (row ∷ rows) j h dated =
      let merged = merge_row parse (base_of prev row.mmsi) row in
      apply_rows-Grows prev (StringMap.put row.mmsi merged next) rows j
        (λ i.
          put_from-Grows row.mmsi i merged prev next (h i)
            (merge_row-Advances (base_of prev row.mmsi) row dated.0))
        dated.1

  pub apply_snapshot_rows-Grows :
      (m : StringMap Vessel) (rows : List SnapshotRow) (j : String)
      → All (λ row. IsDated row.last_seen_at) rows
      → Grows (StringMap.get j m) (StringMap.get j (apply_snapshot_rows parse m rows))
  unfolding apply_snapshot_rows
  apply_snapshot_rows-Grows m rows j dated =
      apply_rows-Grows m m rows j (λ i. Grows-refl (StringMap.get i m)) dated

  pub apply_detail_sanctions-Grows :
      (m : StringMap Vessel) (row : DetailSanctions) (j : String)
      → Grows (StringMap.get j m) (StringMap.get j (apply_detail_sanctions parse m row))
  unfolding apply_detail_sanctions
  apply_detail_sanctions-Grows m row j =
      let base = base_of m row.mmsi in
      elim (Bool-cases (is_newer parse row.sanctions_checked_at base.sanctions_checked_at)) [
        | inl newer ↦ rw newer (
            put-Grows row.mmsi j _ m (record {
              position = ≼_refl _;
              profile = ≼_refl _;
              sanctions =
                  is_newer_lem parse row.sanctions_checked_at base.sanctions_checked_at newer;
              seen = ≼_refl _;
            }))
        | inr old ↦ rw old (Grows-refl (StringMap.get j m))
      ]

  not_lt : (a b : Option ℤ) → is_some a ≡ true → date_lt parse a b ≡ false → b ≼ a
  not_lt none b dated e = cc
  not_lt (some a) none dated e = tt
  not_lt (some a) (some b) dated e = ground arith

  not_before :
      (t : String) (current : Option String)
      → IsDated t
      → checked_before parse t (truthy current) ≡ false
      → stamp parse current ≼ stamp parse (some t)
  unfolding stamp truthy
  not_before t none dated e = tt
  not_before t (some s) dated e = ground (arith, not_lt (parse t) (parse s))

  pub apply_enriched-Grows :
      (m : StringMap Vessel) (ev : VesselEnrichedEvent) (j : String)
      → IsDated ev.checked_at
      → Grows (StringMap.get j m) (StringMap.get j (apply_enriched parse m ev))
  unfolding apply_enriched
  apply_enriched-Grows m ev j dated =
      let base = base_of m ev.mmsi in
      elim (Bool-cases (checked_before parse ev.checked_at (truthy base.sanctions_checked_at))) [
        | inl stale ↦ rw stale (Grows-refl (StringMap.get j m))
        | inr fresh ↦ rw fresh (
            put-Grows ev.mmsi j _ m (record {
              position = ≼_refl _;
              profile = ≼_refl _;
              sanctions = not_before ev.checked_at base.sanctions_checked_at dated fresh;
              seen = ≼_refl _;
            }))
      ]
