-- ===== src/Storage/Partitions/Plan.antt =====
-- What the plan of the upkeep creates and drops.
use mathlib.Core.List.{Perm}
use mathlib.Core.List.Perm
use ais_tracking_system.Prelude.{
  ℕ, ◌≤◌, ◌<◌, ◌≡◌, refl, ap, arith, Bool, true, false, Option, some, none, List, [], ◌∷◌, ◌++◌,
  map, All, All-append, keep, ltb, leb, if◌then◌else◌, if_cases,
}
use ais_tracking_system.Prelude.Throws.{◌>>=◌, >>=-some}
use ais_tracking_system.Storage.Partitions.{
  PartitionChange, parse_history_partition_day, drop_partition_sql, drop_of, drop_parsed,
  collect_drops, insert_by_day, sort_by_day,
}
use ais_tracking_system.Storage.Partitions.Identifiers.{quote-parsed}

abbrev pub is_before : ℕ → Option ℕ → Bool
is_before cutoff none = false
is_before cutoff (some day) = ltb day cutoff

-- The name is of a day before the cutoff.
abbrev pub is_expired : ℕ → List ℕ → Bool
is_expired cutoff name = is_before cutoff (parse_history_partition_day name)

-- A dropped partition: its day is the one that its name tells, before the cutoff.
abbrev pub IsExpired : ℕ → PartitionChange → Type 0
IsExpired cutoff c = (parse_history_partition_day c.name ≡ some c.day) × (c.day < cutoff)

abbrev pub IsSorted : List PartitionChange → Type 0
IsSorted [] = Unit {0}
IsSorted (c ∷ cs) = All (λ d. c.day ≤ d.day) cs × IsSorted cs

abbrev pub names : List PartitionChange → List (List ℕ)
names cs = map (λ c. c.name) cs

insert_by_day-perm :
    (c : PartitionChange) (cs : List PartitionChange)
    → Perm (names (insert_by_day c cs)) (c.name ∷ names cs)
unfolding insert_by_day
insert_by_day-perm c [] = Perm.refl _
insert_by_day-perm c (d ∷ ds) = pick (leb c.day d.day) (insert_by_day-perm c ds)
  where
    pick :
        (b : Bool)
        → Perm (names (insert_by_day c ds)) (c.name ∷ names ds)
        → Perm
            (names (if b then c ∷ d ∷ ds else d ∷ insert_by_day c ds))
            (c.name ∷ d.name ∷ names ds)
    pick true h = Perm.refl _
    pick false h = Perm.trans (Perm.cons d.name h) (Perm.swap c.name d.name (names ds))

pub sort_by_day-perm : (cs : List PartitionChange) → Perm (names (sort_by_day cs)) (names cs)
unfolding sort_by_day
sort_by_day-perm [] = Perm.refl _
sort_by_day-perm (c ∷ cs) =
    Perm.trans (insert_by_day-perm c (sort_by_day cs)) (Perm.cons c.name (sort_by_day-perm cs))

module _ (P : PartitionChange → Type 0) where
  insert_by_day-All :
      (c : PartitionChange) (cs : List PartitionChange)
      → P c
      → All P cs
      → All P (insert_by_day c cs)
  unfolding insert_by_day
  insert_by_day-All c [] h k = (h, tt)
  insert_by_day-All c (d ∷ ds) h k = ground (arith, insert_by_day-All c ds)

  pub sort_by_day-All : (cs : List PartitionChange) → All P cs → All P (sort_by_day cs)
  unfolding sort_by_day
  sort_by_day-All [] h = tt
  sort_by_day-All (c ∷ cs) h = insert_by_day-All c (sort_by_day cs) h.0 (sort_by_day-All cs h.1)

All-weaken :
    (m n : ℕ) (cs : List PartitionChange)
    → m ≤ n
    → All (λ d. n ≤ d.day) cs
    → All (λ d. m ≤ d.day) cs
All-weaken m n [] h k = tt
All-weaken m n (c ∷ cs) h k = (omega (arith, h, k.0), All-weaken m n cs h k.1)

insert_by_day-IsSorted :
    (c : PartitionChange) (cs : List PartitionChange) → IsSorted cs → IsSorted (insert_by_day c cs)
unfolding insert_by_day
insert_by_day-IsSorted c [] h = (tt, tt)
insert_by_day-IsSorted c (d ∷ ds) h =
    if_cases IsSorted (leb c.day d.day) (c ∷ d ∷ ds) (d ∷ insert_by_day c ds)
      (λ e. let p : c.day ≤ d.day = ground arith in ((p, All-weaken c.day d.day ds p h.0), h))
      (λ e.
        let q : d.day ≤ c.day = ground arith in
        (insert_by_day-All (λ x. d.day ≤ x.day) c ds q h.0, insert_by_day-IsSorted c ds h.1))

pub sort_by_day-IsSorted : (cs : List PartitionChange) → IsSorted (sort_by_day cs)
unfolding sort_by_day
sort_by_day-IsSorted [] = tt
sort_by_day-IsSorted (c ∷ cs) = insert_by_day-IsSorted c (sort_by_day cs) (sort_by_day-IsSorted cs)

drop_parsed-shape :
    (cutoff : ℕ) (name : List ℕ) (o : Option ℕ)
    → parse_history_partition_day name ≡ o
    → (cs : List PartitionChange) × (drop_parsed cutoff name o ≡ some cs)
      × (names cs ≡ (if is_before cutoff o then name ∷ [] else []))
      × All (IsExpired cutoff) cs
unfolding drop_parsed drop_partition_sql
drop_parsed-shape cutoff name none e = ([], refl, refl, tt)
drop_parsed-shape cutoff name (some day) e = pick (ltb day cutoff) refl
  where
    pick :
        (b : Bool)
        → ltb day cutoff ≡ b
        → (cs : List PartitionChange) × ((if b
              then (drop_partition_sql name >>= λ sql.
                  some (record { day = day; name = name; sql = sql } ∷ []))
              else some [])
            ≡ some cs)
          × (names cs ≡ (if b then name ∷ [] else []))
          × All (IsExpired cutoff) cs
    pick true h = (
      _,
      >>=-some _ _ (>>=-some _ _ (quote-parsed name e) refl) refl,
      refl,
      ((e, ground arith), tt),
    )
    pick false h = ([], refl, refl, tt)

names-append : (cs ds : List PartitionChange) → names (cs ++ ds) ≡ names cs ++ names ds
names-append [] ds = refl
names-append (c ∷ cs) ds = ap (λ ns. c.name ∷ ns) (names-append cs ds)

names-if :
    (b : Bool) (first rest : List PartitionChange) (name : List ℕ) (kept : List (List ℕ))
    → names first ≡ (if b then name ∷ [] else [])
    → names rest ≡ kept
    → names (first ++ rest) ≡ (if b then name ∷ kept else kept)
names-if true first rest name kept e f = rw (names-append first rest, e, f) refl
names-if false first rest name kept e f = rw (names-append first rest, e, f) refl

pub collect_drops-shape :
    (cutoff : ℕ) (existing : List (List ℕ))
    → (cs : List PartitionChange) × (collect_drops cutoff existing ≡ some cs)
      × (names cs ≡ keep (is_expired cutoff) existing)
      × All (IsExpired cutoff) cs
unfolding collect_drops drop_of
collect_drops-shape cutoff [] = ([], refl, refl, tt)
collect_drops-shape cutoff (name ∷ existing) =
    let (first, e, f, g) = drop_parsed-shape cutoff name (parse_history_partition_day name) refl in
    let (rest, e', f', g') = collect_drops-shape cutoff existing in
    (
      first ++ rest,
      >>=-some _ _ e (>>=-some _ _ e' refl),
      names-if (is_expired cutoff name) first rest name _ f f',
      All-append _ first rest g g',
    )
