-- ===== src/Tests/Timetables.antt =====
-- A graph built from a small schedule: internal/graph/graph.go. Insertion stands for sort.Slice.
use mathlib.Core.List.Permᴰ
use mathlib.Core.List.{Permᴰ}
use urban_goggles.Base.{
  ℕ, ℤ, pos, ◌≤ℤ◌, Text, Text_eq, text_eq, codes, Bool, true, Bool-cases, List, [], ◌∷◌, ◌≡◌, refl,
  arith, inl, inr, All, All-map, lookup, if◌then◌else◌, insert,
}
use urban_goggles.Graph.{
  ScheduledStopTime, WallClock, stop_times_at, parent_station, parent_station_id,
}
use urban_goggles.Graph.Departures.{IsSorted}
use urban_goggles.Graph.Build.{Trip, Parsed, Sort, departs_before, build_graph}
use urban_goggles.Graph.Build.Rows.{IsSort}

-- Puts a row before the first one that it comes before.
insert_row :
    (ScheduledStopTime → ScheduledStopTime → Bool)
    → ScheduledStopTime
    → List ScheduledStopTime
    → List ScheduledStopTime
insert_row less x [] = x ∷ []
insert_row less x (y ∷ ys) =
    let rest = insert_row less x ys in if less x y then x ∷ y ∷ ys else y ∷ rest

unfoldable pub insertion : Sort
unfolding insert_row
insertion less [] = []
insertion less (x ∷ xs) = insert_row less x (insertion less xs)

insert_row-Perm :
    (x : ScheduledStopTime) (ys : List ScheduledStopTime)
    → Permᴰ (insert_row departs_before x ys) (x ∷ ys)
unfolding insert_row
insert_row-Perm x [] = Permᴰ.refl (x ∷ [])
insert_row-Perm x (y ∷ ys) = elim (Bool-cases (departs_before x y)) [
  | inl first ↦ rw (insert_row, first) (Permᴰ.refl (x ∷ y ∷ ys))
  | inr later ↦
      rw (insert_row, later)
        (Permᴰ.trans (Permᴰ.cons refl (insert_row-Perm x ys)) (Permᴰ.swap refl refl))
]

insertion-Perm : (xs : List ScheduledStopTime) → Permᴰ (insertion departs_before xs) xs
unfolding insertion
insertion-Perm [] = Permᴰ.nil
insertion-Perm (x ∷ xs) = Permᴰ.trans (insert_row-Perm x _) (Permᴰ.cons refl (insertion-Perm xs))

-- A lower bound of the row and of the others is one of the rows with it put in.
insert_row-All :
    (low : ℤ) (x : ScheduledStopTime) (ys : List ScheduledStopTime)
    → low ≤ℤ x.departure_secs
    → All (λ y. low ≤ℤ y.departure_secs) ys
    → All (λ y. low ≤ℤ y.departure_secs) (insert_row departs_before x ys)
unfolding insert_row
insert_row-All low x [] h all = (h, tt)
insert_row-All low x (y ∷ ys) h all = elim (Bool-cases (departs_before x y)) [
  | inl first ↦ rw (insert_row, first) (h, all)
  | inr later ↦ rw (insert_row, later) (all.0, insert_row-All low x ys h all.1)
]

insert_row-IsSorted :
    (x : ScheduledStopTime) (ys : List ScheduledStopTime)
    → IsSorted ys
    → IsSorted (insert_row departs_before x ys)
unfolding insert_row
insert_row-IsSorted x [] s = (tt, tt)
insert_row-IsSorted x (y ∷ ys) s = elim (Bool-cases (departs_before x y)) [
  | inl first ↦
      rw (insert_row, first)
        ((ground (arith, first), All-map _ _ ys (λ z h. ground (arith, first, h)) s.0), s)
  | inr later ↦
      rw (insert_row, later)
        (
          insert_row-All y.departure_secs x ys (ground (arith, later)) s.0,
          insert_row-IsSorted x ys s.1,
        )
]

insertion-IsSorted : (xs : List ScheduledStopTime) → IsSorted (insertion departs_before xs)
unfolding insertion
insertion-IsSorted [] = tt
insertion-IsSorted (x ∷ xs) = insert_row-IsSorted x _ (insertion-IsSorted xs)

pub insertion-IsSort : IsSort insertion
insertion-IsSort = record { keeps = insertion-Perm; sorts = insertion-IsSorted }

abbrev row : Text → ℕ → ScheduledStopTime
row trip secs = record {
  trip_id = trip;
  stop_id = codes "D1";
  arrival_secs = pos secs;
  departure_secs = pos secs;
  stop_sequence = pos 1;
}

abbrev trip : Text → Text → Trip
trip id service = record {
  id = id;
  route_id = codes "7";
  service_id = service;
  direction_id = pos 0;
}

-- Trip T9 only runs at weekends.
abbrev parsed : Parsed
parsed = record {
  stops =
      (
        codes "D1",
        record {
          id = codes "D1";
          name = codes "Depot";
          location_type = pos 0;
          parent_station = codes "D";
        },
      )
      ∷ [];
  trips =
      trip (codes "T7") (codes "weekday")
      ∷ trip (codes "T8") (codes "weekday")
      ∷ trip (codes "T9") (codes "weekend")
      ∷ [];
  transfers = [];
  active = (codes "weekday", true) ∷ [];
  all_stop_times = row (codes "T8") 1500 ∷ row (codes "T9") 1200 ∷ row (codes "T7") 900 ∷ [];
}

abbrev clock : ℤ → WallClock
clock t = record { hour = 0; minute = 10; second = 0 }

built :
    stop_times_at (build_graph insertion clock parsed) (codes "D1")
    ≡ row (codes "T7") 900 ∷ row (codes "T8") 1500 ∷ []
unfolding stop_times_at lookup build_graph text_eq insert parent_station parent_station_id insertion
built = refl
