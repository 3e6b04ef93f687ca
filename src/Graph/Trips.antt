-- ===== src/Graph/Trips.antt =====
-- Realtime trips against the static schedule: which row `GetScheduledStopTime` finds, and what
-- `GetDownstreamStops` returns.
use mathlib.Core.List.{Memᴰ}
use urban_goggles.Base.{
  ℤ, pos, Text, Text_eq, text_eq_iff, int_eq, int_eq_iff, ◌==◌, Bool, true, false, ◌&&◌, none, some,
  List, [], ◌∷◌, ◌++◌, ◌≡◌, ◌↔◌, refl, ap, inl, inr, arith, lookup, find_first, All, Bool-cases,
  Option-cases,
}
use urban_goggles.Graph.{
  TransitGraph, ScheduledStopTime, read_or, parent_station_id, is_on_route, stop_times_at,
  resolve_trip_id, row_at, get_scheduled_stop_time, stops_after, downstream_of,
  get_downstream_stops,
}

-- The rows of the static trip that a trip id stands for.
unfoldable pub rows_of_trip : TransitGraph → Text → List ScheduledStopTime
rows_of_trip g trip_id = elim (resolve_trip_id g trip_id) [
  | none ↦ []
  | some resolved ↦ read_or [] (lookup resolved g.stop_times_by_trip)
]

module _ {ℓ} {A : Type ℓ} (p : A → Bool) where
  find_first_sound : (xs : List A) {a : A} → find_first p xs ≡ some a → (p a ≡ true)
  unfolding find_first
  find_first_sound [] h = cc
  find_first_sound (x ∷ xs) {a} h = elim (Bool-cases (p x)) [
    | inl e ↦ ground arith
    | inr e ↦ find_first_sound xs (ground arith)
  ]

  find_first-none : (xs : List A) → find_first p xs ≡ none → All (λ x. p x ≡ false) xs
  unfolding find_first
  find_first-none [] h = tt
  find_first-none (x ∷ xs) h = ground (arith, find_first-none xs)

  find_first_missing : (xs : List A) → All (λ x. p x ≡ false) xs → find_first p xs ≡ none
  unfolding find_first
  find_first_missing [] h = refl
  find_first_missing (x ∷ xs) h = ground (arith, find_first_missing xs h.1)

module _ (g : TransitGraph) (stop_id : Text) where
  abbrev pub at_stop : ScheduledStopTime → Bool
  at_stop st = st.stop_id == stop_id

  abbrev pub at_station : ScheduledStopTime → Bool
  at_station st = parent_station_id g st.stop_id == parent_station_id g stop_id

  row_at-station :
      (rows : List ScheduledStopTime) {st : ScheduledStopTime}
      → row_at g stop_id rows ≡ some st
      → parent_station_id g st.stop_id ≡ parent_station_id g stop_id
  unfolding row_at
  row_at-station rows {st} h = elim (Option-cases (find_first at_stop rows)) [
    | inl e ↦ (text_eq_iff _ _).0 (find_first_sound at_station rows {a = st} (ground arith))
    | inr (x, e) ↦
        let exact = (text_eq_iff x.stop_id stop_id).0 (find_first_sound at_stop rows e) in
        let same : x ≡ st = ground arith in rw (← same, exact)
  ]

  at_station_of_stop :
      (rows : List ScheduledStopTime)
      → All (λ st. at_station st ≡ false) rows
      → All (λ st. at_stop st ≡ false) rows
  at_station_of_stop [] h = tt
  at_station_of_stop (x ∷ rows) h = (
    ground (
      arith,
      text_eq_iff x.stop_id stop_id,
      text_eq_iff (parent_station_id g x.stop_id) (parent_station_id g stop_id),
    ),
    at_station_of_stop rows h.1,
  )

  row_at-none :
      (rows : List ScheduledStopTime)
      → (row_at g stop_id rows ≡ none) ↔ All (λ st. at_station st ≡ false) rows
  unfolding row_at
  row_at-none rows = (
    λ h. find_first-none at_station rows (ground arith),
    λ h.
        rw (find_first_missing at_stop rows (at_station_of_stop rows h), row_at)
          (find_first_missing at_station rows h),
  )

  module _ (trip_id : Text) where
    get_scheduled_stop_time-row_at :
        get_scheduled_stop_time g trip_id stop_id ≡ row_at g stop_id (rows_of_trip g trip_id)
    unfolding get_scheduled_stop_time rows_of_trip row_at find_first
    get_scheduled_stop_time-row_at = ground arith

    -- A row that `GetScheduledStopTime` finds is at the station of the stop that was asked for.
    get_scheduled_stop_time-station :
        {st : ScheduledStopTime}
        → get_scheduled_stop_time g trip_id stop_id ≡ some st
        → parent_station_id g st.stop_id ≡ parent_station_id g stop_id
    get_scheduled_stop_time-station {st} h =
        row_at-station (rows_of_trip g trip_id) {st = st} (cc get_scheduled_stop_time-row_at)

    -- `GetScheduledStopTime` finds no row exactly if no row of the trip that the id stands for is
    -- at the station of the stop.
    get_scheduled_stop_time-none :
        (get_scheduled_stop_time g trip_id stop_id ≡ none)
        ↔ All (λ st. at_station st ≡ false) (rows_of_trip g trip_id)
    get_scheduled_stop_time-none =
        rw get_scheduled_stop_time-row_at (row_at-none (rows_of_trip g trip_id))

-- `result` is what follows a visit to the station in the stops of one trip.
pub record Follows (g : TransitGraph) (station : Text) (trip result : List ScheduledStopTime)
    : Type 0 where
  pub before : List ScheduledStopTime
  pub visit : ScheduledStopTime
  pub split : trip ≡ before ++ (visit ∷ result)
  pub at_station : parent_station_id g visit.stop_id ≡ station

-- A trip through the station, on the route and in the direction, that goes on to `result`.
pub record Continues (g : TransitGraph) (route_id station : Text) (direction_id : ℤ)
    (here result : List ScheduledStopTime) : Type 0 where
  pub departure : ScheduledStopTime
  pub departs : Memᴰ departure here
  pub route : read_or [] (lookup departure.trip_id g.trip_route) ≡ route_id
  pub direction : read_or (pos 0) (lookup departure.trip_id g.trip_direction) ≡ direction_id
  pub follows :
      Follows g station (read_or [] (lookup departure.trip_id g.stop_times_by_trip)) result

stops_after-Follows :
    (g : TransitGraph) (station : Text) (trip : List ScheduledStopTime)
    {result : List ScheduledStopTime}
    → stops_after g station trip ≡ some result
    → Follows g station trip result
unfolding stops_after
stops_after-Follows g station [] h = cc
stops_after-Follows g station (ts ∷ []) h = cc
stops_after-Follows g station (ts ∷ next ∷ rest) {result} h =
    elim (Bool-cases (parent_station_id g ts.stop_id == station)) [
      | inl e ↦ record {
        before = [];
        visit = ts;
        split = ground arith;
        at_station = (text_eq_iff _ _).0 e;
      }
      | inr e ↦
          let later =
            stops_after-Follows g station (next ∷ rest) {result = result} (ground arith) in
          record {
            before = ts ∷ later.before;
            visit = later.visit;
            split = ap (◌∷◌ ts) later.split;
            at_station = later.at_station;
          }
    ]

module _ (g : TransitGraph) (route_id station : Text) (direction_id : ℤ) where
  Continues-tail :
      {here result : List ScheduledStopTime} (st : ScheduledStopTime)
      → Continues g route_id station direction_id here result
      → Continues g route_id station direction_id (st ∷ here) result
  Continues-tail st c = record {
    departure = c.departure;
    departs = Memᴰ.tail c.departs;
    route = c.route;
    direction = c.direction;
    follows = c.follows;
  }

  downstream_of-Continues :
      (here : List ScheduledStopTime) {x : ScheduledStopTime} {xs : List ScheduledStopTime}
      → downstream_of g route_id station direction_id here ≡ x ∷ xs
      → Continues g route_id station direction_id here (x ∷ xs)
  unfolding downstream_of is_on_route
  downstream_of-Continues [] h = cc
  downstream_of-Continues (st ∷ here) {x} {xs} h =
      let runs =
        is_on_route g route_id st
        && int_eq (read_or (pos 0) (lookup st.trip_id g.trip_direction)) direction_id in
      let trip = read_or [] (lookup st.trip_id g.stop_times_by_trip) in
      elim (Bool-cases runs) [
        | inr e ↦ Continues-tail st (downstream_of-Continues here {x = x} {xs = xs} (ground arith))
        | inl e ↦ elim (Option-cases (stops_after g station trip)) [
          | inl ends ↦
              Continues-tail st (downstream_of-Continues here {x = x} {xs = xs} (ground arith))
          | inr (rest, found) ↦ record {
            departure = st;
            departs = Memᴰ.head refl;
            route = (text_eq_iff _ _).0 (ground arith);
            direction = (int_eq_iff _ direction_id).0 (ground arith);
            follows = stops_after-Follows g station trip {result = x ∷ xs} (ground arith);
          }
        ]
      ]

module _ (g : TransitGraph) (route_id stop_id : Text) (direction_id : ℤ) where
  -- Stops that `GetDownstreamStops` returns, if any, are the rest, after a visit to the station,
  -- of a trip that departs from the station on the given route and in the given direction.
  pub get_downstream_stops-Continues :
      {x : ScheduledStopTime} {xs : List ScheduledStopTime}
      → get_downstream_stops g route_id stop_id direction_id ≡ x ∷ xs
      → Continues g route_id
          (parent_station_id g stop_id)
          direction_id
          (stop_times_at g stop_id)
          (x ∷ xs)
  unfolding get_downstream_stops
  get_downstream_stops-Continues {x} {xs} h =
      downstream_of-Continues g route_id (parent_station_id g stop_id) direction_id
        (stop_times_at g stop_id) {x = x} {xs = xs} h
