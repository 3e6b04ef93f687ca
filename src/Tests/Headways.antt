-- ===== src/Tests/Headways.antt =====
-- The scheduled headway of a small timetable: internal/graph/headway.go. Insertion stands for
-- sort.Ints.
use mathlib.Core.List.Permᴰ
use mathlib.Core.List.{Memᴰ, Permᴰ}
use urban_goggles.Base.{
  insert, decimal, sub64, wrap64, ◌-ℤ◌, ◌≤ℤ◌, ltb_ℤ, ℤ, pos, Text_eq, Lacks, codes, Bool-cases,
  some, List, [], ◌∷◌, ◌≡◌, ◌≢◌, text_eq, refl, arith, inl, inr, All, All-map, lookup,
  if◌then◌else◌,
}
use urban_goggles.Graph.{ScheduledStopTime, parent_station}
use urban_goggles.Graph.Headway.{
  build_headway_index, get_scheduled_headway, median, bucket_gaps, group_departures, headway_key,
}
use urban_goggles.Graph.Headway.Groups.{gaps_in, lookup-Entries}
use urban_goggles.Graph.Headway.Gaps.{
  HasNoColons, IsIntSort, IsAscending, IsHourOf, departures, get_scheduled_headway-IsHeadway,
}
use urban_goggles.Tests.Cascades.{graph}
use urban_goggles.Tests.Decimals.{decimals}

insert_int : ℤ → List ℤ → List ℤ
insert_int x [] = x ∷ []
insert_int x (y ∷ ys) = let rest = insert_int x ys in if ltb_ℤ x y then x ∷ y ∷ ys else y ∷ rest

unfoldable ints : List ℤ → List ℤ
unfolding insert_int
ints [] = []
ints (x ∷ xs) = insert_int x (ints xs)

insert_int-Perm : (x : ℤ) (ys : List ℤ) → Permᴰ (insert_int x ys) (x ∷ ys)
unfolding insert_int
insert_int-Perm x [] = Permᴰ.refl (x ∷ [])
insert_int-Perm x (y ∷ ys) = elim (Bool-cases (ltb_ℤ x y)) [
  | inl first ↦ rw (insert_int, first) (Permᴰ.refl (x ∷ y ∷ ys))
  | inr later ↦
      rw (insert_int, later)
        (Permᴰ.trans (Permᴰ.cons refl (insert_int-Perm x ys)) (Permᴰ.swap refl refl))
]

ints-Perm : (xs : List ℤ) → Permᴰ (ints xs) xs
unfolding ints
ints-Perm [] = Permᴰ.nil
ints-Perm (x ∷ xs) = Permᴰ.trans (insert_int-Perm x _) (Permᴰ.cons refl (ints-Perm xs))

insert_int-All :
    (low x : ℤ) (ys : List ℤ)
    → low ≤ℤ x
    → All (λ y. low ≤ℤ y) ys
    → All (λ y. low ≤ℤ y) (insert_int x ys)
unfolding insert_int
insert_int-All low x [] h all = (h, tt)
insert_int-All low x (y ∷ ys) h all = elim (Bool-cases (ltb_ℤ x y)) [
  | inl first ↦ rw (insert_int, first) (h, all)
  | inr later ↦ rw (insert_int, later) (all.0, insert_int-All low x ys h all.1)
]

insert_int-IsAscending : (x : ℤ) (ys : List ℤ) → IsAscending ys → IsAscending (insert_int x ys)
unfolding insert_int
insert_int-IsAscending x [] s = (tt, tt)
insert_int-IsAscending x (y ∷ ys) s = elim (Bool-cases (ltb_ℤ x y)) [
  | inl first ↦
      rw (insert_int, first)
        ((ground (arith, first), All-map _ _ ys (λ z h. ground (arith, first, h)) s.0), s)
  | inr later ↦
      rw (insert_int, later)
        (insert_int-All y x ys (ground (arith, later)) s.0, insert_int-IsAscending x ys s.1)
]

ints-IsAscending : (xs : List ℤ) → IsAscending (ints xs)
unfolding ints
ints-IsAscending [] = tt
ints-IsAscending (x ∷ xs) = insert_int-IsAscending x _ (ints-IsAscending xs)

ints-IsIntSort : IsIntSort ints
ints-IsIntSort = record { keeps = ints-Perm; sorts = ints-IsAscending }

has_no_colons : HasNoColons graph
has_no_colons = (
  λ trip route found.
      lookup-Entries (λ t r. Lacks b':' r) trip graph.trip_route route (ground arith) found,
  ground arith,
)

headway_run :
    get_scheduled_headway decimals graph
      (some (build_headway_index decimals ints graph))
      (codes "7")
      (pos 0)
      (codes "D")
      (pos 700)
    ≡ some (pos 600, 0)
unfolding bucket_gaps build_headway_index get_scheduled_headway group_departures headway_key ints
    insert decimal sub64 wrap64 ◌-ℤ◌ lookup median parent_station text_eq
headway_run = refl

get_scheduled_headway-IsHeadway_example :
    (rows : List ScheduledStopTime) × (hour : ℤ) × (sorted : List ℤ) × Memᴰ
      (parent_station (codes "D") graph.stops, rows)
      graph.stop_times_by_stop
    × IsHourOf (pos 700) hour
    × (gaps_in hour (departures graph (codes "7") (pos 0) rows) ≢ [])
    × Permᴰ sorted (gaps_in hour (departures graph (codes "7") (pos 0) rows))
    × IsAscending sorted
    × ((pos 600, 0) ≡ median decimals sorted)
unfolding lookup parent_station
get_scheduled_headway-IsHeadway_example =
    get_scheduled_headway-IsHeadway decimals ints graph (codes "7") (pos 0) (codes "D") (pos 700)
      (pos 600, 0) ints-IsIntSort has_no_colons (ground arith) (ground arith) headway_run
