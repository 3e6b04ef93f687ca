-- ===== src/Tests/Files.antt =====
-- A directory of files, as in internal/graph/buildgraph_test.go, and the graph loaded from it.
use urban_goggles.Base.{
  ℤ, pos, Text, Text_eq, text_eq, codes, true, false, none, some, List, [], ◌∷◌, ◌++◌, ◌≡◌, refl,
  arith, All, lookup, split_byte, trim_space, insert, delete, atoi, text_lt, scan_digits,
  scan_number, signed, strip, add64, mul64, wrap64, ◌*ℤ◌, ◌+ℤ◌, ◌-ℤ◌, insert, trim_space, text_lt,
}
use urban_goggles.Graph.{
  ScheduledStopTime, WallClock, stop_times_at, read_or, parent_station_id, parent_station,
}
use urban_goggles.Graph.Build.{Parsed, build_graph, trips_of}
use urban_goggles.Graph.Headway.{build_headway_index}
use urban_goggles.Graph.Search.{get_elem?}
use urban_goggles.Graph.Parser.{
  stops_of, trips_in, routes_of, transfers_of, stop_times_of, stop_time_of, time_of, seconds_of,
  number_of, field_of, header_index, keep_records, pad, trim_bom, parse_stops, parse_routes,
  parse_trips, parse_transfers, parse_stop_times, File, Table, read_csv, col_index, parse_gtfs_time,
}
use urban_goggles.Graph.Parser.Cells.{read_csv-HasFields}
use urban_goggles.Graph.Parser.Times.{gtfs_time, short_time, parse_gtfs_time-gtfs_time}
use urban_goggles.Graph.Parser.Calendar.{
  active_services, calendar_loop, day_column, except, exceptions_loop, parse_agency_tz, runs_on,
}
use urban_goggles.Graph.Parser.Calendar.Services.{runs_service, active_services-runs_service}
use urban_goggles.Graph.Load.{
  Directory, Zones, done, load_graph, BuiltGraph, agency_zone, read_files, gather,
}
use urban_goggles.Graph.Load.Today.{IsTimetable, load_graph-IsTimetable}
use urban_goggles.Tests.Decimals.{decimals, Decimal}
use urban_goggles.Tests.Timetables.{insertion, insertion-IsSort}

abbrev calendar_header : List Text
calendar_header =
    codes "service_id"
    ∷ codes "monday"
    ∷ codes "tuesday"
    ∷ codes "wednesday"
    ∷ codes "thursday"
    ∷ codes "friday"
    ∷ codes "saturday"
    ∷ codes "sunday"
    ∷ codes "start_date"
    ∷ codes "end_date"
    ∷ []

abbrev every_day : Text → Text → Text → List Text
every_day service start end =
    service
    ∷ codes "1"
    ∷ codes "1"
    ∷ codes "1"
    ∷ codes "1"
    ∷ codes "1"
    ∷ codes "1"
    ∷ codes "1"
    ∷ start
    ∷ end
    ∷ []

-- WK runs this month, and XX did last month.
abbrev calendar : File
calendar = some (
  calendar_header,
  some (every_day (codes "WK") (codes "20260801") (codes "20260831"))
      ∷ none
      ∷ some (every_day (codes "XX") (codes "20260701") (codes "20260731"))
      ∷ [],
)

-- On the day, XX runs all the same.
abbrev exceptions : File
exceptions = some (
  codes "service_id" ∷ codes "date" ∷ codes "exception_type" ∷ [],
  some (codes "XX" ∷ codes "20260804" ∷ codes "1" ∷ [])
      ∷ some (codes "WK" ∷ codes "20260805" ∷ codes "2" ∷ [])
      ∷ [],
)

abbrev stops : File
stops = some (
  codes "stop_id" ∷ codes "stop_name" ∷ codes "location_type" ∷ [],
  some (codes "S1" ∷ codes "First" ∷ codes "1" ∷ []) ∷ some (codes "S2" ∷ []) ∷ [],
)

abbrev trips : File
trips = some (
  codes "route_id" ∷ codes "service_id" ∷ codes "trip_id" ∷ codes "direction_id" ∷ [],
  some (codes "L" ∷ codes "WK" ∷ codes "t1" ∷ codes "0" ∷ [])
      ∷ some (codes "L" ∷ codes "NO" ∷ codes "t2" ∷ codes "0" ∷ [])
      ∷ [],
)

abbrev stop_times : File
stop_times = some (
  codes "trip_id"
      ∷ codes "arrival_time"
      ∷ codes "departure_time"
      ∷ codes "stop_id"
      ∷ codes "stop_sequence"
      ∷ [],
  some (codes "t1" ∷ codes "25:00:00" ∷ codes "" ∷ codes "S1" ∷ codes "1" ∷ [])
      ∷ some (codes "t2" ∷ codes "08:05:00" ∷ codes "08:05:00" ∷ codes "S1" ∷ codes "1" ∷ [])
      ∷ some (codes "t1" ∷ codes "soon" ∷ codes "08:05:00" ∷ codes "S1" ∷ codes "2" ∷ [])
      ∷ [],
)

abbrev directory : Directory
directory = record {
  stops = stops;
  routes = some (codes "route_id" ∷ [], []);
  trips = trips;
  transfers = some (codes "from_stop_id" ∷ codes "to_stop_id" ∷ [], []);
  calendar = calendar;
  calendar_dates = some exceptions;
  stop_times = stop_times;
  agency = none;
}

-- One zone, in which it is a Tuesday.
abbrev zones : Zones
zones = record {
  Zone = Unit {0};
  here = tt;
  load_location = λ name. none;
  date_in = λ zone. (codes "20260804", 2);
  clock_in = λ zone t. record { hour = 0; minute = 10; second = 0 };
}

services :
    active_services calendar (some exceptions) (codes "20260804") 2
    ≡ some ((codes "WK", true) ∷ (codes "XX", true) ∷ [])
unfolding active_services text_eq lookup insert trim_space text_lt
services = refl

abbrev only_row : ScheduledStopTime
only_row = record {
  trip_id = codes "t1";
  stop_id = codes "S1";
  arrival_secs = pos 90000;
  departure_secs = pos 90000;
  stop_sequence = pos 1;
}

abbrev parsed : Parsed
parsed = record {
  stops =
      (
        codes "S1",
        record {
          id = codes "S1";
          name = codes "First";
          location_type = pos 1;
          parent_station = [];
        },
      )
      ∷ (
        codes "S2",
        record { id = codes "S2"; name = []; location_type = pos 0; parent_station = [] },
      )
      ∷ [];
  trips =
      record {
        id = codes "t1";
        route_id = codes "L";
        service_id = codes "WK";
        direction_id = pos 0;
      }
      ∷ record {
        id = codes "t2";
        route_id = codes "L";
        service_id = codes "NO";
        direction_id = pos 0;
      }
      ∷ [];
  transfers = [];
  active = (codes "WK", true) ∷ (codes "XX", true) ∷ [];
  all_stop_times =
      only_row
      ∷ record {
        trip_id = codes "t2";
        stop_id = codes "S1";
        arrival_secs = pos 29100;
        departure_secs = pos 29100;
        stop_sequence = pos 1;
      }
      ∷ [];
}

abbrev clock : ℤ → WallClock
clock t = record { hour = 0; minute = 10; second = 0 }

abbrev built : BuiltGraph Decimal
built = record {
  graph = build_graph insertion clock parsed;
  routes = [];
  active_trips = (trips_of parsed).active_trips;
  headways = build_headway_index decimals (λ xs. xs) (build_graph insertion clock parsed);
}

loads : load_graph decimals (λ xs. xs) insertion zones directory ≡ done built
unfolding load_graph parse_stops parse_routes parse_trips parse_transfers active_services
    parse_stop_times lookup split_byte trim_space insert text_eq atoi text_lt delete scan_digits
    scan_number signed strip add64 mul64 wrap64 ◌*ℤ◌ ◌+ℤ◌ ◌-ℤ◌ agency_zone gather read_files
    calendar_loop day_column except exceptions_loop parse_agency_tz runs_on col_index field_of
    header_index keep_records number_of pad parse_gtfs_time read_csv routes_of seconds_of
    stop_time_of stop_times_of stops_of time_of transfers_of trim_bom trips_in
loads = refl

times : stop_times_at built.graph (codes "S1") ≡ only_row ∷ []
unfolding stop_times_at lookup build_graph text_eq insert parent_station parent_station_id insertion
times = refl

load_graph-IsTimetable_example :
    IsTimetable (codes "20260804") 2 directory (codes "S1") (stop_times_at built.graph (codes "S1"))
load_graph-IsTimetable_example =
    load_graph-IsTimetable decimals (λ xs. xs) insertion insertion-IsSort zones directory
      (codes "S1") loads

-- The malformed line is gone, and every row has a field more than the header.
abbrev calendar_table : Table
calendar_table = record {
  header = calendar_header;
  rows =
      (every_day (codes "WK") (codes "20260801") (codes "20260831") ++ [] ∷ [])
      ∷ (every_day (codes "XX") (codes "20260701") (codes "20260731") ++ [] ∷ [])
      ∷ [];
}

calendar_read : read_csv calendar ≡ some calendar_table
unfolding read_csv keep_records pad trim_bom
calendar_read = refl

read_csv-HasFields_example :
    All
      (λ row.
        (text : Text) × (get_elem? row (col_index calendar_header (codes "holiday")) ≡ some text))
      calendar_table.rows
read_csv-HasFields_example =
    read_csv-HasFields calendar calendar_table (codes "holiday") calendar_read

active_services-runs_service_example :
    (table : Table) × (read_csv calendar ≡ some table)
    × ((sid : Text)
        → read_or false (lookup sid ((codes "WK", true) ∷ (codes "XX", true) ∷ []))
          ≡ runs_service table (some exceptions) (codes "20260804") 2 sid)
active_services-runs_service_example =
    active_services-runs_service calendar (some exceptions) (codes "20260804") 2 services

morning : gtfs_time 21930 ≡ codes "06:05:30"
morning = refl

parse_gtfs_time-gtfs_time_example :
    (parse_gtfs_time (gtfs_time 21930) ≡ some (pos 21930))
    × (parse_gtfs_time (short_time 21930) ≡ some (pos 21930))
parse_gtfs_time-gtfs_time_example = parse_gtfs_time-gtfs_time 21930 (omega arith)
