-- ===== src/Graph.antt =====
-- internal/graph: the static schedule (types.go) and the queries that the other components make of
-- it (graph.go). A missing key of a Go map reads as the zero value: `read_or` writes it out.
pub mod Search
pub mod Clock
pub mod Departures
pub mod Trips
pub mod Headway
pub mod Build
pub mod Parser
pub mod Load
use urban_goggles.Base.{
  ℕ, zero, suc, ◌*◌, ◌+◌, ℤ, pos, leb_ℤ, ltb_ℤ, int_eq, add64, sub64, Text, Text_eq, is_empty, ◌==◌,
  Bool, true, false, not, ◌&&◌, ◌||◌, Option, none, some, List, [], ◌∷◌, Map, lookup, find_first,
  if◌then◌else◌,
}
use Search.{search, get_elem?, drop, length}

pub record Stop : Type 0 where
  pub id : Text
  pub name : Text
  pub location_type : ℤ
  pub parent_station : Text

pub record ScheduledStopTime : Type 0 where
  pub trip_id : Text
  pub stop_id : Text
  pub arrival_secs : ℤ
  pub departure_secs : ℤ
  pub stop_sequence : ℤ

pub record Transfer : Type 0 where
  pub from_stop_id : Text
  pub to_stop_id : Text
  pub transfer_type : ℤ
  pub min_transfer_time : ℤ

-- A moment's reading of the clock on the wall of the agency's time zone.
pub record WallClock : Type 0 where
  pub hour : ℕ
  pub minute : ℕ
  pub second : ℕ

-- `tz` stands for time.Unix(ts, 0).In(location), which rests on the time zone database.
pub record TransitGraph : Type 0 where
  pub stops : Map Text Stop
  pub trip_route : Map Text Text
  pub trip_direction : Map Text ℤ
  pub stop_times_by_stop : Map Text (List ScheduledStopTime)
  pub stop_times_by_trip : Map Text (List ScheduledStopTime)
  pub transfers_by_stop : Map Text (List Transfer)
  pub routes_at_stop : Map Text (List Text)
  pub trip_suffix : Map Text Text
  pub tz : ℤ → WallClock

abbrev pub read_or {ℓ} : {A : Type ℓ} → A → Option A → A
read_or d none = d
read_or d (some a) = a

-- `now` is the clock's reading, used where the timestamp is not set.
unfoldable pub secs_since_midnight : TransitGraph → ℤ → ℤ → ℤ
secs_since_midnight g now ts =
    let t = if ltb_ℤ (pos 0) ts then g.tz ts else g.tz now in
    pos (t.hour * 3600 + t.minute * 60 + t.second)

unfoldable pub parent_station : Text → Map Text Stop → Text
parent_station stop_id stops = elim (lookup stop_id stops) [
  | none ↦ stop_id
  | some s ↦ if is_empty s.parent_station then stop_id else s.parent_station
]

unfoldable pub parent_station_id : TransitGraph → Text → Text
unfolding parent_station
parent_station_id g stop_id = parent_station stop_id g.stops

unfoldable pub get_routes_at_stop : TransitGraph → Text → List Text
get_routes_at_stop g stop_id = read_or [] (lookup (parent_station_id g stop_id) g.routes_at_stop)

unfoldable pub get_transfers_from : TransitGraph → Text → List Transfer
get_transfers_from g stop_id = read_or [] (lookup (parent_station_id g stop_id) g.transfers_by_stop)

-- `g.TripRoute[trip] == route`.
unfoldable pub is_on_route : TransitGraph → Text → ScheduledStopTime → Bool
is_on_route g route_id st = read_or [] (lookup st.trip_id g.trip_route) == route_id

-- The test of the binary search at index `i`; there is no call at an index past the end.
departs_from : List ScheduledStopTime → ℤ → ℕ → Bool
departs_from all after_secs i = elim (get_elem? all i) [
  | none ↦ true
  | some st ↦ leb_ℤ after_secs st.departure_secs
]

-- The loop of `GetNextDepartures`; `n` is the number of departures still wanted.
take_matching {ℓ} : {A : Type ℓ} → (A → Bool) → ℕ → List A → List A
take_matching p zero xs = []
take_matching p (suc n) [] = []
take_matching p (suc n) (x ∷ xs) = elim (p x) [
  | true ↦ x ∷ take_matching p n xs
  | false ↦ take_matching p (suc n) xs
]

unfoldable pub stop_times_at : TransitGraph → Text → List ScheduledStopTime
stop_times_at g stop_id = read_or [] (lookup (parent_station_id g stop_id) g.stop_times_by_stop)

unfoldable pub get_next_departures : TransitGraph → Text → Text → ℤ → ℕ → List ScheduledStopTime
unfolding departs_from take_matching search stop_times_at
get_next_departures g stop_id route_id after_secs n =
    let all = stop_times_at g stop_id in
    let start = search (length all) (departs_from all after_secs) in
    take_matching (is_on_route g route_id) n (drop start all)

abbrev pub overnight_window_secs : ℤ
overnight_window_secs = pos (4 * 3600)

-- `late[0].DepartureSecs-wrapped < deps[0].DepartureSecs-tod`, with `late` not empty.
later_frame_wins : ℤ → ℤ → List ScheduledStopTime → List ScheduledStopTime → Bool
later_frame_wins tod wrapped [] deps = false
later_frame_wins tod wrapped (late ∷ _) [] = true
later_frame_wins tod wrapped (late ∷ _) (dep ∷ _) =
    ltb_ℤ (sub64 late.departure_secs wrapped) (sub64 dep.departure_secs tod)

-- The departures, and the representation of the time of day that they are counted from.
unfoldable pub next_departures_after :
    TransitGraph → Text → Text → ℤ → ℕ → List ScheduledStopTime × ℤ
unfolding later_frame_wins
next_departures_after g stop_id route_id tod n =
    let deps = get_next_departures g stop_id route_id tod n in
    let wrapped = add64 tod (pos 86400) in
    let late = get_next_departures g stop_id route_id wrapped n in
    if ltb_ℤ tod overnight_window_secs && later_frame_wins tod wrapped late deps
    then (late, wrapped)
    else (deps, tod)

-- The inner loop of `GetDownstreamStops`: what follows the first visit to the station that is not
-- the trip's last stop.
stops_after : TransitGraph → Text → List ScheduledStopTime → Option (List ScheduledStopTime)
stops_after g parent_id [] = none
stops_after g parent_id (ts ∷ []) = none
stops_after g parent_id (ts ∷ next ∷ rest) =
    if parent_station_id g ts.stop_id == parent_id
    then some (next ∷ rest)
    else stops_after g parent_id (next ∷ rest)

-- The outer loop: the trips through the station, in the order of their departures.
downstream_of : TransitGraph → Text → Text → ℤ → List ScheduledStopTime → List ScheduledStopTime
unfolding stops_after
downstream_of g route_id parent_id direction_id [] = []
downstream_of g route_id parent_id direction_id (st ∷ rest) =
    let later = downstream_of g route_id parent_id direction_id rest in
    if is_on_route g route_id st
      && int_eq (read_or (pos 0) (lookup st.trip_id g.trip_direction)) direction_id
    then read_or later
        (stops_after g parent_id (read_or [] (lookup st.trip_id g.stop_times_by_trip)))
    else later

unfoldable pub get_downstream_stops : TransitGraph → Text → Text → ℤ → List ScheduledStopTime
unfolding downstream_of
get_downstream_stops g route_id stop_id direction_id =
    downstream_of g route_id (parent_station_id g stop_id) direction_id (stop_times_at g stop_id)

-- `none` is the result `ok == false`.
unfoldable pub resolve_trip_id : TransitGraph → Text → Option Text
resolve_trip_id g rt_trip_id =
    if is_empty rt_trip_id then none else elim (lookup rt_trip_id g.stop_times_by_trip) [
      | some _ ↦ some rt_trip_id
      | none ↦ elim (lookup rt_trip_id g.trip_suffix) [
        | some full ↦ if is_empty full then none else some full
        | none ↦ none
      ]
    ]

-- The two loops over the rows of the resolved trip.
row_at : TransitGraph → Text → List ScheduledStopTime → Option ScheduledStopTime
row_at g stop_id sts = elim (find_first (λ st. st.stop_id == stop_id) sts) [
  | some st ↦ some st
  | none ↦ find_first (λ st. parent_station_id g st.stop_id == parent_station_id g stop_id) sts
]

unfoldable pub get_scheduled_stop_time : TransitGraph → Text → Text → Option ScheduledStopTime
unfolding row_at
get_scheduled_stop_time g trip_id stop_id = elim (resolve_trip_id g trip_id) [
  | none ↦ none
  | some resolved ↦ row_at g stop_id (read_or [] (lookup resolved g.stop_times_by_trip))
]
