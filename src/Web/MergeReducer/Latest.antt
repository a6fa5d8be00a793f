-- ===== src/Web/MergeReducer/Latest.antt =====
-- The position that the client shows of a vessel, and those that it has received.
use mathlib.Core.List.{Memᴰ}
use ais_tracking_system.Prelude.{
  ◌≡◌, refl, ◌≢◌, ap, String, true, false, Option, some, none, List, [], ◌∷◌, arith, str_discrete,
  is_some, get_or_else, Bool-cases, inl, inr, All, if_pos, if_neg, subst,
}
use ais_tracking_system.Prelude.Int.{ℤ}
use ais_tracking_system.Prelude.StringMap
use ais_tracking_system.Prelude.StringMap.{StringMap, get-put}
use ais_tracking_system.Contracts.{PositionEvent}
use ais_tracking_system.Web.MergeReducer.{
  Vessel, truthy, empty_vessel, base_of, is_newer, date_geq, newer_than,
}
use ais_tracking_system.Web.MergeReducer.Apply.{moved, apply_position}
use ais_tracking_system.Web.MergeReducer.Stamps.{
  ◌≼◌, ≼_refl, ≼_trans, stamp_of, stamp, is_newer_lem,
}

-- The vessel stands where the event says.
abbrev pub HasPosition : Vessel → PositionEvent → Type 0
HasPosition v ev =
    (v.lat ≡ some ev.lat)
    × (v.lon ≡ some ev.lon)
    × (v.sog ≡ ev.sog)
    × (v.cog ≡ ev.cog)
    × (v.true_heading ≡ ev.true_heading)
    × (v.nav_status ≡ ev.nav_status)
    × (v.occurred_at ≡ some ev.occurred_at)

module _ (parse : String → Option ℤ) where
  -- The events are applied in the order in which they arrive; the list has the newest arrival first.
  unfoldable pub apply_positions : List PositionEvent → StringMap Vessel
  apply_positions [] = []
  apply_positions (ev ∷ evs) = apply_position parse (apply_positions evs) ev

  abbrev pub IsDated : PositionEvent → Type 0
  IsDated ev = is_some (stamp parse (some ev.occurred_at)) ≡ true

  -- The vessel's position is that of one of the events of vessel `k`, and none of them is later.
  pub record IsLatest (k : String) (evs : List PositionEvent) (v : Vessel) : Type 0 where
    pub event : PositionEvent
    pub received : Memᴰ event evs
    pub same_vessel : event.mmsi ≡ k
    pub placed : HasPosition v event
    pub dated : is_some (stamp parse v.occurred_at) ≡ true
    pub latest :
        All (λ e. e.mmsi ≡ k → stamp parse (some e.occurred_at) ≼ stamp parse v.occurred_at) evs

  abbrev pub Shows : String → List PositionEvent → Option Vessel → Type 0
  Shows k evs none = All (λ e. e.mmsi ≢ k) evs
  Shows k evs (some v) = IsLatest k evs v

  not_newer :
      (t : String) (current : Option String)
      → is_some (stamp parse current) ≡ true
      → is_newer parse (some t) current ≡ false
      → stamp parse (some t) ≼ stamp parse current
  unfolding stamp truthy is_newer
  not_newer t none dated e = cc
  not_newer t (some s) dated e = ground (arith, not_geq (parse t) (parse s))
    where
      not_geq : (a b : Option ℤ) → is_some b ≡ true → date_geq parse a b ≡ false → a ≼ b
      not_geq none b h k = tt
      not_geq (some a) none h k = cc
      not_geq (some a) (some b) h k = ground arith

  raise :
      (k : String) (a b : Option ℤ) (evs : List PositionEvent)
      → a ≼ b
      → All (λ e. e.mmsi ≡ k → stamp parse (some e.occurred_at) ≼ a) evs
      → All (λ e. e.mmsi ≡ k → stamp parse (some e.occurred_at) ≼ b) evs
  raise k a b [] h l = tt
  raise k a b (e ∷ evs) h l = ((λ same. ≼_trans _ a b (l.0 same) h), raise k a b evs h l.1)

  vacuous :
      (k : String) (b : Option ℤ) (evs : List PositionEvent)
      → All (λ e. e.mmsi ≢ k) evs
      → All (λ e. e.mmsi ≡ k → stamp parse (some e.occurred_at) ≼ b) evs
  vacuous k b [] h = tt
  vacuous k b (e ∷ evs) h = ((λ same. absurd (h.0 same)), vacuous k b evs h.1)

  -- An event of another vessel.
  other-Shows :
      (k : String) (evs : List PositionEvent) (o : Option Vessel) (ev : PositionEvent)
      → ev.mmsi ≢ k
      → Shows k evs o
      → Shows k (ev ∷ evs) o
  other-Shows k evs none ev ne h = (ne, h)
  other-Shows k evs (some v) ev ne h = record {
    event = h.event;
    received = Memᴰ.tail h.received;
    same_vessel = h.same_vessel;
    placed = h.placed;
    dated = h.dated;
    latest = ((λ same. absurd (ne same)), h.latest);
  }

  -- An event that is newer than what is known of its vessel.
  newer-Shows :
      (k : String) (evs : List PositionEvent) (o : Option Vessel) (base : Vessel)
      (ev : PositionEvent)
      → base ≡ get_or_else o (empty_vessel ev.mmsi)
      → ev.mmsi ≡ k
      → IsDated ev
      → is_newer parse (some ev.occurred_at) base.occurred_at ≡ true
      → Shows k evs o
      → IsLatest k (ev ∷ evs) (moved parse base ev)
  unfolding moved
  newer-Shows k evs none base ev e same dated newer h = record {
    event = ev;
    received = Memᴰ.head refl;
    same_vessel = same;
    placed = (refl, refl, refl, refl, refl, refl, refl);
    dated = dated;
    latest = ((λ s. ≼_refl _), vacuous k _ evs h);
  }
  newer-Shows k evs (some v) base ev e same dated newer h = record {
    event = ev;
    received = Memᴰ.head refl;
    same_vessel = same;
    placed = (refl, refl, refl, refl, refl, refl, refl);
    dated = dated;
    latest = (
      (λ s. ≼_refl _),
      raise k (stamp parse v.occurred_at) _ evs
          (subst (λ b. stamp parse b.occurred_at ≼ stamp parse (some ev.occurred_at)) e
            (is_newer_lem parse (some ev.occurred_at) base.occurred_at newer))
          h.latest,
    );
  }

  -- A vessel without a position takes any event.
  dated_is_newer :
      (t : String) → is_some (stamp parse (some t)) ≡ true → is_newer parse (some t) none ≡ true
  unfolding stamp truthy is_newer
  dated_is_newer t dated = readable (truthy (some t)) dated
    where
      readable :
          (o : Option String) → is_some (stamp_of parse o) ≡ true → newer_than parse o none ≡ true
      readable none h = cc
      readable (some s) h = refl

  -- An event that is not.
  older-Shows :
      (k : String) (evs : List PositionEvent) (o : Option Vessel) (base : Vessel)
      (ev : PositionEvent)
      → base ≡ get_or_else o (empty_vessel ev.mmsi)
      → IsDated ev
      → is_newer parse (some ev.occurred_at) base.occurred_at ≡ false
      → Shows k evs o
      → Shows k (ev ∷ evs) o
  unfolding empty_vessel
  older-Shows k evs none base ev e dated older h = ground (
    arith,
    dated_is_newer ev.occurred_at dated,
    subst (λ b. is_newer parse (some ev.occurred_at) b.occurred_at ≡ false) e older,
  )
  older-Shows k evs (some v) base ev e dated older h = record {
    event = h.event;
    received = Memᴰ.tail h.received;
    same_vessel = h.same_vessel;
    placed = h.placed;
    dated = h.dated;
    latest = (
      (λ same.
          not_newer ev.occurred_at v.occurred_at h.dated
            (subst (λ b. is_newer parse (some ev.occurred_at) b.occurred_at ≡ false) e older)),
      h.latest,
    );
  }

  step-Shows :
      (k : String) (evs : List PositionEvent) (m : StringMap Vessel) (ev : PositionEvent)
      → IsDated ev
      → Shows k evs (StringMap.get k m)
      → Shows k (ev ∷ evs) (StringMap.get k (apply_position parse m ev))
  unfolding apply_position base_of
  step-Shows k evs m ev dated h =
      let base = base_of m ev.mmsi in
      elim (Bool-cases (is_newer parse (some ev.occurred_at) base.occurred_at)) [
        | inl newer ↦ rw newer (
            rw (get-put ev.mmsi k (moved parse base ev) m) (elim (str_discrete ev.mmsi k) [
              | yes same ↦ rw (if_pos _ same) (
                  newer-Shows k evs (StringMap.get k m) base ev
                    (ap (λ i. get_or_else (StringMap.get i m) (empty_vessel ev.mmsi)) same) same
                    dated newer h)
              | no other ↦ rw (if_neg _ other) (other-Shows k evs (StringMap.get k m) ev other h)
            ]))
        | inr older ↦ rw older (elim (str_discrete ev.mmsi k) [
          | yes same ↦
              older-Shows k evs (StringMap.get k m) base ev
                (ap (λ i. get_or_else (StringMap.get i m) (empty_vessel ev.mmsi)) same) dated older
                h
          | no other ↦ other-Shows k evs (StringMap.get k m) ev other h
        ])
      ]

  -- Whatever the order in which position events with readable timestamps arrive: the client shows
  -- a vessel exactly if it has received an event of it, and then all its position fields are those
  -- of one received event of that vessel, and no received event of it is later.
  pub apply_positions-Shows :
      (k : String) (evs : List PositionEvent)
      → All IsDated evs
      → Shows k evs (StringMap.get k (apply_positions evs))
  unfolding apply_positions StringMap.get
  apply_positions-Shows k [] dated = tt
  apply_positions-Shows k (ev ∷ evs) dated =
      step-Shows k evs (apply_positions evs) ev dated.0 (apply_positions-Shows k evs dated.1)
