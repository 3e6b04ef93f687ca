-- ===== src/Graph/Headway/Gaps.antt =====
-- What a scheduled headway is the median of.
use mathlib.Core.List.{Memᴰ, Permᴰ}
use mathlib.Core.Path.{subst}
use urban_goggles.Base.{
  ◌≤ℤ◌, ℤ, ℤ_eq, pos, ltb_ℤ, int_eq, int_eq_iff, quot, Text, Text_eq, Lacks, ◌==◌, text_eq_iff,
  Bool, true, false, ◌&&◌, ◌||◌, Bool-cases, Option-cases, none, some, List, [], ◌∷◌, map, keep_if,
  keep_if-congr, ◌≡◌, ◌≢◌, ◌⊎◌, add64, sym, ap, ◌∙◌, refl, arith, inl, inr, All, All-at, All-of_mem,
  Map, lookup,
}
use urban_goggles.External.Float.{Float64}
use urban_goggles.Graph.{TransitGraph, ScheduledStopTime, parent_station}
use urban_goggles.Graph.Headway.{
  max_headway_hour, median, route_direction, build_headway_index, headway_key,
  get_scheduled_headway,
}
use urban_goggles.Graph.Headway.Keys.{route_direction-injective, headway_key-injective}
use urban_goggles.Graph.Headway.Index.{IsEntry, build_headway_index-Entries}
use urban_goggles.Graph.Headway.Groups.{lookup-Entries, gaps_in, direction_of, on_line}

-- A condition on the schedule: no route id of a trip and no station id has a colon.
abbrev pub HasNoColons : TransitGraph → Type 0
HasNoColons g =
    ((trip route : Text) → lookup trip g.trip_route ≡ some route → Lacks b':' route)
    × All (λ entry. Lacks b':' entry.0) g.stop_times_by_stop

abbrev pub IsAscending : List ℤ → Type 0
IsAscending [] = Unit
IsAscending (x ∷ xs) = All (λ y. x ≤ℤ y) xs × IsAscending xs

-- What sort.Ints promises: the same numbers in ascending order.
pub record IsIntSort (sort : List ℤ → List ℤ) : Type 0 where
  pub keeps : (xs : List ℤ) → Permᴰ (sort xs) xs
  pub sorts : (xs : List ℤ) → IsAscending (sort xs)

module _ (g : TransitGraph) where
  -- A row of a trip of the route in the direction.
  unfoldable pub is_of : Text → ℤ → ScheduledStopTime → Bool
  is_of route direction st = elim (lookup st.trip_id g.trip_route) [
    | none ↦ false
    | some r ↦ r == route && int_eq (direction_of g st) direction
  ]

  -- The departures of a route and direction among some rows.
  abbrev pub departures : Text → ℤ → List ScheduledStopTime → List ℤ
  departures route direction rows =
      map (λ st. st.departure_secs) (keep_if (is_of route direction) rows)

  on_line-is_of :
      (clean : HasNoColons g) (route : Text) (direction : ℤ) (st : ScheduledStopTime)
      → Lacks b':' route
      → on_line g (route_direction route direction) st ≡ is_of route direction st
  unfolding is_of on_line
  on_line-is_of clean route direction st h = elim (Option-cases (lookup st.trip_id g.trip_route)) [
    | inl unknown ↦ rw (on_line, is_of, unknown) refl
    | inr (r, known) ↦ rw (on_line, is_of, known) (same_line r (clean.0 st.trip_id r known))
  ]
    where
      same_line :
          (r : Text)
          → Lacks b':' r
          → (route_direction r (direction_of g st) == route_direction route direction)
            ≡ (r == route && int_eq (direction_of g st) direction)
      same_line r hr =
          let d = direction_of g st in
          let line = route_direction r d in
          elim (Bool-cases (line == route_direction route direction)) [
            | inl same ↦
                let (routes, directions) =
                  route_direction-injective r route d direction hr h
                    ((text_eq_iff line (route_direction route direction)).0 same) in
                let one = (text_eq_iff r route).1 routes in
                let two = (int_eq_iff d direction).1 directions in ground (arith, same, one, two)
            | inr apart ↦ elim (Bool-cases (r == route)) [
              | inl one ↦ elim (Bool-cases (int_eq d direction)) [
                | inl two ↦
                    let routes = (text_eq_iff r route).0 one in
                    let directions = (int_eq_iff d direction).0 two in
                    let lines =
                      ap (λ x. route_direction x d) routes
                      ∙ ap (route_direction route) directions in
                    let same = (text_eq_iff line (route_direction route direction)).1 lines in
                    absurd (ground (arith, apart, same))
                | inr two ↦ ground (arith, apart, two)
              ]
              | inr one ↦ ground (arith, apart, one)
            ]
          ]

-- The hour of the time, or before 4 o'clock the same hour counted on from the day before.
abbrev pub IsHourOf : ℤ → ℤ → Type 0
IsHourOf secs hour =
    let own = quot secs 3600 in
    (hour ≡ own) ⊎ ((ltb_ℤ own (pos 4) ≡ true) × (hour ≡ add64 own (pos 24)))

module _ (f : Float64) (sort : List ℤ → List ℤ) (g : TransitGraph) where
  get_scheduled_headway-reads :
      (index : Map Text f.F) (route_id : Text) (direction_id : ℤ) (stop_id : Text) (secs : ℤ)
      (h : f.F)
      → get_scheduled_headway f g (some index) route_id direction_id stop_id secs ≡ some h
      → (hour : ℤ) × IsHourOf secs hour
        × (lookup (headway_key route_id direction_id (parent_station stop_id g.stops) hour) index
            ≡ some h)
  unfolding get_scheduled_headway
  get_scheduled_headway-reads index route_id direction_id stop_id secs h =
      let station_id = parent_station stop_id g.stops in
      let hour = quot secs 3600 in
      elim (Bool-cases (ltb_ℤ hour (pos 0) || ltb_ℤ max_headway_hour hour)) [
        | inl out ↦ rw (get_scheduled_headway, out) (λ got. absurd (ground (arith, got)))
        | inr inside ↦
            elim (Option-cases (lookup (headway_key route_id direction_id station_id hour) index)) [
              | inr (v, found) ↦
                  rw (get_scheduled_headway, inside, found) (λ got. (hour, inl refl, found ∙ got))
              | inl missing ↦ elim (Bool-cases (ltb_ℤ hour (pos 4))) [
                | inr late ↦
                    rw (get_scheduled_headway, inside, missing, late)
                      (λ got. absurd (ground (arith, got)))
                | inl early ↦
                    rw (get_scheduled_headway, inside, missing, early)
                      (λ got. (add64 hour (pos 24), inr (refl, refl), got))
              ]
            ]
      ]

  -- Where sort.Ints sorts, no route id of a trip and no station id of the schedule has a colon, and
  -- neither has the route that is asked for or the station of the stop: a headway that the built
  -- index gives for a route, direction, stop and time is the median of the sorted gaps at the
  -- station of the stop. They are the gaps between one departure of that route and direction and
  -- the next, for the departures in one hour, each gap positive and at most three hours; the hour is
  -- that of the time, or before 4 o'clock possibly that hour plus 24. There is at least one gap.
  pub get_scheduled_headway-IsHeadway :
      (route_id : Text) (direction_id : ℤ) (stop_id : Text) (secs : ℤ) (h : f.F)
      → IsIntSort sort
      → HasNoColons g
      → Lacks b':' route_id
      → Lacks b':' (parent_station stop_id g.stops)
      → get_scheduled_headway f g
          (some (build_headway_index f sort g))
          route_id
          direction_id
          stop_id
          secs
        ≡ some h
      → (rows : List ScheduledStopTime) × (hour : ℤ) × (sorted : List ℤ) × Memᴰ
          (parent_station stop_id g.stops, rows)
          g.stop_times_by_stop
        × IsHourOf secs hour
        × (gaps_in hour (departures g route_id direction_id rows) ≢ [])
        × Permᴰ sorted (gaps_in hour (departures g route_id direction_id rows))
        × IsAscending sorted
        × (h ≡ median f sorted)
  get_scheduled_headway-IsHeadway route_id direction_id stop_id secs h laws clean plain_route
        plain_stop found =
      let index = build_headway_index f sort g in
      let (hour, near, read) =
        get_scheduled_headway-reads index route_id direction_id stop_id secs h found in
      let (station, rows, trip, route, direction, hour2, there, known, key, entry) =
        lookup-Entries (IsEntry f sort g) _ index h (build_headway_index-Entries f sort g) read in
      let (routes, directions, stations, hours) =
        headway_key-injective route_id route (parent_station stop_id g.stops) station direction_id
          direction hour hour2 plain_route (clean.0 trip route known) plain_stop
          (All-at (λ e. Lacks b':' e.0) (station, rows) g.stop_times_by_stop there clean.1) key in
      let same_rows : keep_if (on_line g (route_direction route direction)) rows
          ≡ keep_if (is_of g route_id direction_id) rows =
        ap (λ x. keep_if (on_line g x) rows) (sym (ap (λ r. route_direction r direction) routes))
        ∙ ap (λ d. keep_if (on_line g (route_direction route_id d)) rows) (sym directions)
        ∙ keep_if-congr _ _ rows (
            All-of_mem _ rows
              (λ st m. on_line-is_of g clean route_id direction_id st plain_route)) in
      let mine = gaps_in hour (departures g route_id direction_id rows) in
      let times = ap (map (λ st. st.departure_secs)) same_rows in
      let gaps =
        ap (λ x. gaps_in hour2 x) times
        ∙ ap (λ x. gaps_in x (departures g route_id direction_id rows)) (sym hours) in
      (
        rows,
        hour,
        sort mine,
        subst (λ s. Memᴰ (s, rows) g.stop_times_by_stop) (sym stations) there,
        near,
        subst (λ x. x ≢ []) gaps entry.1,
        laws.keeps mine,
        laws.sorts mine,
        entry.0 ∙ ap (λ x. median f (sort x)) gaps,
      )
