-- ===== src/Graph/Build.antt =====
-- `BuildGraph` of internal/graph/graph.go, from the parsed files on: which trips run, and the indexes
-- by stop, trip and suffix. `sort` stands for sort.Slice. A Go map is met in the order of the list.
-- The index of headways that ends BuildGraph is Graph.Headway's; the routes are kept as read.
pub mod Rows
use urban_goggles.Base.{
  ℕ, ℤ, pos, ltb_ℤ, int_eq, Text, Text_eq, after_byte, is_empty, ◌==◌, Bool, true, false, not, ◌&&◌,
  Option, none, some, List, [], ◌∷◌, ◌++◌, map, Map, lookup, insert, exists_in, if◌then◌else◌,
}
use urban_goggles.Graph.{
  TransitGraph, Stop, ScheduledStopTime, Transfer, WallClock, read_or, parent_station,
}

pub record Trip : Type 0 where
  pub id : Text
  pub route_id : Text
  pub service_id : Text
  pub direction_id : ℤ

-- What the parser read; `active` are the services of the day.
pub record Parsed : Type 0 where
  pub stops : Map Text Stop
  pub trips : List Trip
  pub transfers : List Transfer
  pub active : Map Text Bool
  pub all_stop_times : List ScheduledStopTime

pub record TripIndex : Type 0 where
  pub active_trips : Map Text Bool
  pub trip_route : Map Text Text
  pub trip_dir : Map Text ℤ

unfoldable pub index_trips : Map Text Bool → List Trip → TripIndex → TripIndex
index_trips active [] ix = ix
index_trips active (t ∷ rest) ix = index_trips active rest (record {
  active_trips =
      if read_or false (lookup t.service_id active)
      then insert t.id true ix.active_trips
      else ix.active_trips;
  trip_route = insert t.id t.route_id ix.trip_route;
  trip_dir = insert t.id t.direction_id ix.trip_dir;
})

pub record RowIndex : Type 0 where
  pub by_stop : Map Text (List ScheduledStopTime)
  pub by_trip : Map Text (List ScheduledStopTime)
  pub routes_at_stop : Map Text (List Text)

-- `m[k] = append(m[k], v)`.
unfoldable pub append_row {ℓ} : {V : Type ℓ} → Text → V → Map Text (List V) → Map Text (List V)
append_row k v m = insert k (read_or [] (lookup k m) ++ v ∷ []) m

-- `m[k][v] = true`.
unfoldable pub add_route : Text → Text → Map Text (List Text) → Map Text (List Text)
add_route k v m =
    let old = read_or [] (lookup k m) in
    insert k (if exists_in (λ r. r == v) old then old else old ++ v ∷ []) m

module _ (stops : Map Text Stop) (trips : TripIndex) where
  unfoldable pub is_running : ScheduledStopTime → Bool
  is_running st = read_or false (lookup st.trip_id trips.active_trips)

  unfoldable pub add_row : ScheduledStopTime → RowIndex → RowIndex
  unfolding append_row add_route
  add_row st ix =
      let parent_id = parent_station st.stop_id stops in
      record {
        by_stop = append_row parent_id st ix.by_stop;
        by_trip = append_row st.trip_id st ix.by_trip;
        routes_at_stop =
            add_route parent_id (read_or [] (lookup st.trip_id trips.trip_route)) ix.routes_at_stop;
      }

  unfoldable pub index_rows : List ScheduledStopTime → RowIndex → RowIndex
  unfolding add_row is_running
  index_rows [] ix = ix
  index_rows (st ∷ rest) ix = elim (is_running st) [
    | false ↦ index_rows rest ix
    | true ↦ index_rows rest (add_row st ix)
  ]

-- One round of the loop over the trips: a suffix of two trips stands for none.
unfoldable pub add_suffix : Text → Map Text Text → Map Text Text
add_suffix trip_id suffixes = elim (after_byte b'_' trip_id) [
  | none ↦ suffixes
  | some suffix ↦
      if is_empty suffix
      then suffixes
      else insert suffix (elim (lookup suffix suffixes) [ none ↦ trip_id | some _ ↦ [] ]) suffixes
]

unfoldable pub index_suffixes : Map Text (List ScheduledStopTime) → Map Text Text → Map Text Text
unfolding add_suffix
index_suffixes [] suffixes = suffixes
index_suffixes ((trip_id, _) ∷ rest) suffixes = index_suffixes rest (add_suffix trip_id suffixes)

unfoldable pub index_transfers :
    Map Text Stop → List Transfer → Map Text (List Transfer) → Map Text (List Transfer)
unfolding append_row
index_transfers stops [] out = out
index_transfers stops (tf ∷ rest) out = elim (int_eq tf.transfer_type (pos 3)) [
  | true ↦ index_transfers stops rest out
  | false ↦
      let from_parent = parent_station tf.from_stop_id stops in
      index_transfers stops rest (
        append_row from_parent
          (record {
            from_stop_id = from_parent;
            to_stop_id = parent_station tf.to_stop_id stops;
            transfer_type = tf.transfer_type;
            min_transfer_time = tf.min_transfer_time;
          })
          out)
]

abbrev pub Sort : Type 0
Sort =
    (ScheduledStopTime → ScheduledStopTime → Bool) → List ScheduledStopTime → List ScheduledStopTime

unfoldable pub sort_values :
    (List ScheduledStopTime → List ScheduledStopTime)
    → Map Text (List ScheduledStopTime)
    → Map Text (List ScheduledStopTime)
sort_values sorted [] = []
sort_values sorted ((k, rows) ∷ rest) = (k, sorted rows) ∷ sort_values sorted rest

abbrev pub departs_before : ScheduledStopTime → ScheduledStopTime → Bool
departs_before a b = ltb_ℤ a.departure_secs b.departure_secs

abbrev pub comes_before : ScheduledStopTime → ScheduledStopTime → Bool
comes_before a b = ltb_ℤ a.stop_sequence b.stop_sequence

unfoldable pub trips_of : Parsed → TripIndex
unfolding index_trips
trips_of parsed =
    index_trips parsed.active parsed.trips
      (record { active_trips = []; trip_route = []; trip_dir = [] })

unfoldable pub rows_of : Parsed → RowIndex
unfolding index_rows trips_of
rows_of parsed =
    index_rows parsed.stops (trips_of parsed) parsed.all_stop_times
      (record { by_stop = []; by_trip = []; routes_at_stop = [] })

-- `tz` stands for the clock in the agency's time zone.
unfoldable pub build_graph : Sort → (ℤ → WallClock) → Parsed → TransitGraph
unfolding sort_values trips_of rows_of index_suffixes index_transfers
build_graph sort tz parsed =
    let trips = trips_of parsed in
    let rows = rows_of parsed in
    record {
      stops = parsed.stops;
      trip_route = trips.trip_route;
      trip_direction = trips.trip_dir;
      stop_times_by_stop = sort_values (sort departs_before) rows.by_stop;
      stop_times_by_trip = sort_values (sort comes_before) rows.by_trip;
      transfers_by_stop = index_transfers parsed.stops parsed.transfers [];
      routes_at_stop = rows.routes_at_stop;
      trip_suffix = index_suffixes rows.by_trip [];
      tz = tz;
    }
