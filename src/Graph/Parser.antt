-- ===== src/Graph/Parser.antt =====
-- internal/graph/parser.go: the tables of the schedule. What encoding/csv reads of a file is an
-- argument. Of a stop the coordinates are left out, which nothing reads.
pub mod Cells
pub mod Times
pub mod Calendar
use urban_goggles.Base.{
  ℕ, zero, suc, ◌+◌, ℤ, pos, add64, mul64, Text, Text_eq, text_eq, codes, is_empty, nat_eq,
  split_byte, trim_space, atoi, ◌&&◌, Bool, true, false, Option, none, some, List, [], ◌∷◌, length,
  Map, lookup, insert, if◌then◌else◌,
}
use urban_goggles.Graph.Search.{get_elem?}
use urban_goggles.Graph.{Stop, ScheduledStopTime, Transfer, read_or}
use urban_goggles.Graph.Build.{Trip}

-- `none` where the file or its header cannot be read; else the header and the records up to the end
-- of the file, `none` for a malformed line.
abbrev pub File : Type 0
File = Option (List Text × List (Option (List Text)))

pub record Table : Type 0 where
  pub header : List Text
  pub rows : List (List Text)

unfoldable pub trim_bom : List Text → List Text
trim_bom ((a ∷ b ∷ c ∷ name) ∷ rest) =
    if nat_eq a 239 && (nat_eq b 187 && nat_eq c 191)
    then name ∷ rest
    else (a ∷ b ∷ c ∷ name) ∷ rest
trim_bom header = header

-- Fills a record up with empty texts to a number of fields.
unfoldable pub pad : ℕ → List Text → List Text
pad zero fields = fields
pad (suc n) [] = [] ∷ pad n []
pad (suc n) (x ∷ fields) = x ∷ pad n fields

unfoldable pub keep_records : ℕ → List (Option (List Text)) → List (List Text)
unfolding pad
keep_records n [] = []
keep_records n (none ∷ rest) = keep_records n rest
keep_records n (some fields ∷ rest) = pad n fields ∷ keep_records n rest

unfoldable pub read_csv : File → Option Table
unfolding trim_bom keep_records
read_csv none = none
read_csv (some (header, records)) =
    some (record { header = trim_bom header; rows = keep_records (length header + 1) records })

unfoldable pub header_index : ℕ → List Text → Map Text ℕ → Map Text ℕ
header_index i [] m = m
header_index i (name ∷ rest) m = header_index (i + 1) rest (insert (trim_space name) i m)

-- The index of one of the requested columns.
unfoldable pub col_index : List Text → Text → ℕ
unfolding header_index
col_index header name = read_or (length header) (lookup name (header_index 0 header []))

-- `r[idx[name]]`, whose index is never out of range.
unfoldable pub field_of : List Text → List Text → Text → Text
unfolding col_index
field_of header row name = read_or [] (get_elem? row (col_index header name))

unfoldable pub number_of : List Text → List Text → Text → ℤ
unfolding field_of
number_of header row name = (atoi (field_of header row name)).0

unfoldable pub stops_of : List Text → List (List Text) → Map Text Stop → Map Text Stop
unfolding field_of number_of
stops_of header [] stops = stops
stops_of header (row ∷ rest) stops = stops_of header rest (
    insert (field_of header row (codes "stop_id"))
      (record {
        id = field_of header row (codes "stop_id");
        name = field_of header row (codes "stop_name");
        location_type = number_of header row (codes "location_type");
        parent_station = field_of header row (codes "parent_station");
      })
      stops)

unfoldable pub parse_stops : File → Option (Map Text Stop)
unfolding read_csv stops_of
parse_stops file = elim (read_csv file) [
  | none ↦ none
  | some table ↦ some (stops_of table.header table.rows [])
]

pub record Route : Type 0 where
  pub id : Text
  pub short_name : Text
  pub long_name : Text
  pub color : Text

unfoldable pub routes_of : List Text → List (List Text) → Map Text Route → Map Text Route
unfolding field_of
routes_of header [] routes = routes
routes_of header (row ∷ rest) routes = routes_of header rest (
    insert (field_of header row (codes "route_id"))
      (record {
        id = field_of header row (codes "route_id");
        short_name = field_of header row (codes "route_short_name");
        long_name = field_of header row (codes "route_long_name");
        color = field_of header row (codes "route_color");
      })
      routes)

unfoldable pub parse_routes : File → Option (Map Text Route)
unfolding read_csv routes_of
parse_routes file = elim (read_csv file) [
  | none ↦ none
  | some table ↦ some (routes_of table.header table.rows [])
]

unfoldable pub trips_in : List Text → List (List Text) → Map Text Trip → Map Text Trip
unfolding field_of number_of
trips_in header [] trips = trips
trips_in header (row ∷ rest) trips = trips_in header rest (
    insert (field_of header row (codes "trip_id"))
      (record {
        id = field_of header row (codes "trip_id");
        route_id = field_of header row (codes "route_id");
        service_id = field_of header row (codes "service_id");
        direction_id = number_of header row (codes "direction_id");
      })
      trips)

unfoldable pub parse_trips : File → Option (Map Text Trip)
unfolding read_csv trips_in
parse_trips file = elim (read_csv file) [
  | none ↦ none
  | some table ↦ some (trips_in table.header table.rows [])
]

-- Three numbers of a time, with whether each could be read.
unfoldable pub seconds_of : ℤ × Bool → ℤ × Bool → ℤ × Bool → Option ℤ
seconds_of (h, true) (m, true) (sec, true) =
    some (add64 (add64 (mul64 h (pos 3600)) (mul64 m (pos 60))) sec)
seconds_of _ _ _ = none

unfoldable pub time_of : List Text → Option ℤ
unfolding seconds_of
time_of (h ∷ m ∷ sec ∷ []) = seconds_of (atoi h) (atoi m) (atoi sec)
time_of _ = none

unfoldable pub parse_gtfs_time : Text → Option ℤ
unfolding time_of
parse_gtfs_time s = time_of (split_byte b':' (trim_space s))

unfoldable pub stop_time_of : List Text → List Text → Option ScheduledStopTime
unfolding field_of number_of parse_gtfs_time
stop_time_of header row = elim (parse_gtfs_time (field_of header row (codes "arrival_time"))) [
  | none ↦ none
  | some arr ↦ some (record {
    trip_id = field_of header row (codes "trip_id");
    stop_id = field_of header row (codes "stop_id");
    arrival_secs = arr;
    departure_secs = read_or arr (parse_gtfs_time (field_of header row (codes "departure_time")));
    stop_sequence = number_of header row (codes "stop_sequence");
  })
]

unfoldable pub stop_times_of : List Text → List (List Text) → List ScheduledStopTime
unfolding stop_time_of
stop_times_of header [] = []
stop_times_of header (row ∷ rest) = elim (stop_time_of header row) [
  | none ↦ stop_times_of header rest
  | some st ↦ st ∷ stop_times_of header rest
]

unfoldable pub parse_stop_times : File → Option (List ScheduledStopTime)
unfolding read_csv stop_times_of
parse_stop_times file = elim (read_csv file) [
  | none ↦ none
  | some table ↦ some (stop_times_of table.header table.rows)
]

unfoldable pub transfers_of : List Text → List (List Text) → List Transfer
unfolding field_of number_of
transfers_of header [] = []
transfers_of header (row ∷ rest) =
    (record {
      from_stop_id = field_of header row (codes "from_stop_id");
      to_stop_id = field_of header row (codes "to_stop_id");
      transfer_type = number_of header row (codes "transfer_type");
      min_transfer_time = number_of header row (codes "min_transfer_time");
    })
    ∷ transfers_of header rest

unfoldable pub parse_transfers : File → Option (List Transfer)
unfolding read_csv transfers_of
parse_transfers file = elim (read_csv file) [
  | none ↦ none
  | some table ↦ some (transfers_of table.header table.rows)
]
