-- ===== src/Graph/Headway.antt =====
-- internal/graph/headway.go: the median time between departures of a route and direction at a
-- station, by the hour of the day. `sort` stands for sort.Ints. A Go map is met in the order of
-- the list.
pub mod Keys
pub mod Groups
pub mod Index
pub mod Gaps
use urban_goggles.Base.{
  ℕ, ◌*◌, ◌+◌, ◌-◌, ◌/◌, ◌%◌, nat_eq, ℤ, pos, negsuc, ltb_ℤ, leb_ℤ, int_eq, quot, add64, sub64,
  Text, Text_eq, ℤ_eq, decimal, Bool, true, false, ◌||◌, Option, none, some, List, [], ◌∷◌, ◌++◌,
  Map, lookup, insert, if◌then◌else◌,
}
use urban_goggles.Graph.Search.{get_elem?, length}
use urban_goggles.External.Float.{Float64}
use urban_goggles.Graph.{TransitGraph, ScheduledStopTime, read_or, parent_station}

abbrev pub max_headway_gap_secs : ℤ
max_headway_gap_secs = pos (3 * 3600)

abbrev pub max_headway_hour : ℤ
max_headway_hour = pos 27

-- The part of a key before the station: `%s:%d`.
abbrev pub route_direction : Text → ℤ → Text
route_direction route_id direction_id = route_id ++ (b':' ∷ decimal direction_id)

abbrev pub station_hour : Text → ℤ → Text
station_hour station_id hour = station_id ++ (b':' ∷ decimal hour)

unfoldable pub headway_key : Text → ℤ → Text → ℤ → Text
headway_key route_id direction_id station_id hour =
    route_direction route_id direction_id ++ (b':' ∷ station_hour station_id hour)

-- `m[k] = append(m[k], v)`.
unfoldable pub append_to : Text → ℤ → Map Text (List ℤ) → Map Text (List ℤ)
append_to k v m = insert k (read_or [] (lookup k m) ++ v ∷ []) m

unfoldable pub append_at : ℤ → ℤ → Map ℤ (List ℤ) → Map ℤ (List ℤ)
append_at k v m = insert k (read_or [] (lookup k m) ++ v ∷ []) m

-- The departures of a station, per route and direction.
unfoldable pub group_departures :
    TransitGraph → List ScheduledStopTime → Map Text (List ℤ) → Map Text (List ℤ)
unfolding append_to
group_departures g [] deps = deps
group_departures g (st ∷ rest) deps = elim (lookup st.trip_id g.trip_route) [
  | none ↦ group_departures g rest deps
  | some route_id ↦ group_departures g rest (
      append_to (route_direction route_id (read_or (pos 0) (lookup st.trip_id g.trip_direction)))
        st.departure_secs deps)
]

-- One gap, between the departures `earlier` and `later`.
unfoldable pub add_gap : ℤ → ℤ → Map ℤ (List ℤ) → Map ℤ (List ℤ)
unfolding append_at
add_gap earlier later gaps =
    let gap = sub64 later earlier in
    let hour = quot earlier 3600 in
    if leb_ℤ gap (pos 0) || ltb_ℤ max_headway_gap_secs gap
    then gaps
    else if ltb_ℤ max_headway_hour hour
    then gaps
    else append_at hour gap gaps

unfoldable pub bucket_gaps : List ℤ → Map ℤ (List ℤ) → Map ℤ (List ℤ)
unfolding add_gap
bucket_gaps [] gaps = gaps
bucket_gaps (a ∷ []) gaps = gaps
bucket_gaps (a ∷ b ∷ rest) gaps = bucket_gaps (b ∷ rest) (add_gap a b gaps)

module _ (f : Float64) where
  -- The element at an index that is in range.
  at_index : List ℤ → ℕ → ℤ
  at_index xs i = read_or (pos 0) (get_elem? xs i)

  unfoldable pub median : List ℤ → f.F
  unfolding at_index
  median sorted =
      let n = length sorted in
      if nat_eq n 0
      then f.lit 0 0
      else if nat_eq (n % 2) 1
      then f.of_int (at_index sorted (n / 2))
      else f.div (f.of_int (add64 (at_index sorted (n / 2 - 1)) (at_index sorted (n / 2))))
          (f.lit 2 0)

  module _ (sort : List ℤ → List ℤ) where
    add_medians : Text → Text → Map ℤ (List ℤ) → Map Text f.F → Map Text f.F
    add_medians rd station_id [] headways = headways
    add_medians rd station_id ((hour, gaps) ∷ rest) headways =
        add_medians rd station_id rest
          (insert (rd ++ (b':' ∷ station_hour station_id hour)) (median (sort gaps)) headways)

    add_groups : Text → Map Text (List ℤ) → Map Text f.F → Map Text f.F
    unfolding add_medians
    add_groups station_id [] headways = headways
    add_groups station_id ((rd, times) ∷ rest) headways =
        add_groups station_id rest (add_medians rd station_id (bucket_gaps times []) headways)

    add_stations : TransitGraph → Map Text (List ScheduledStopTime) → Map Text f.F → Map Text f.F
    unfolding add_groups
    add_stations g [] headways = headways
    add_stations g ((station_id, stop_times) ∷ rest) headways =
        add_stations g rest (add_groups station_id (group_departures g stop_times []) headways)

    unfoldable pub build_headway_index : TransitGraph → Map Text f.F
    unfolding add_stations
    build_headway_index g = add_stations g g.stop_times_by_stop []

  -- `none` is the result `ok == false`; the index is `none` where it was not built.
  unfoldable pub get_scheduled_headway :
      TransitGraph → Option (Map Text f.F) → Text → ℤ → Text → ℤ → Option f.F
  get_scheduled_headway g none route_id direction_id stop_id secs = none
  get_scheduled_headway g (some headways) route_id direction_id stop_id secs =
      let station_id = parent_station stop_id g.stops in
      let hour = quot secs 3600 in
      if ltb_ℤ hour (pos 0) || ltb_ℤ max_headway_hour hour
      then none
      else elim (lookup (headway_key route_id direction_id station_id hour) headways) [
        | some h ↦ some h
        | none ↦
            if ltb_ℤ hour (pos 4)
            then lookup (headway_key route_id direction_id station_id (add64 hour (pos 24)))
                headways
            else none
      ]
