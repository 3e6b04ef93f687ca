-- ===== src/Graph/Load.antt =====
-- `BuildGraph` of internal/graph/graph.go as a whole: the files of a directory, parsed and indexed.
-- What the files hold and the time zones are arguments.
pub mod Today
use urban_goggles.Base.{
  ℕ, ◌+◌, ℤ, pos, int_eq, Text, is_empty, Bool, Option, none, some, List, [], ◌∷◌, length, map, Map,
  if◌then◌else◌,
}
use urban_goggles.External.Float.{Float64}
use urban_goggles.Graph.{TransitGraph, WallClock, Stop, ScheduledStopTime, Transfer, read_or}
use urban_goggles.Graph.Build.{Trip, Parsed, Sort, build_graph, trips_of}
use urban_goggles.Graph.Headway.{build_headway_index}
use urban_goggles.Graph.Parser.{
  File, Route, parse_stops, parse_routes, parse_trips, parse_transfers, parse_stop_times,
}
use urban_goggles.Graph.Parser.Calendar.{active_services, parse_agency_tz}

-- `none` where there is no such file, or calendar_dates.txt is empty.
pub record Directory : Type 0 where
  pub stops : File
  pub routes : File
  pub trips : File
  pub transfers : File
  pub calendar : File
  pub calendar_dates : Option File
  pub stop_times : File
  pub agency : Option File

-- Package time: zones by name, and what the date to load and an instant are in a zone. The date is
-- written as `20060102`, with its weekday.
pub record Zones : Type 1 where
  pub Zone : Type 0
  pub here : Zone
  pub load_location : Text → Option Zone
  pub date_in : Zone → Text × ℕ
  pub clock_in : Zone → ℤ → WallClock

pub data LoadError : Type 0 where
  bad_stops bad_routes bad_trips bad_transfers bad_services bad_stop_times : LoadError

pub data Loaded {ℓ} (A : Type ℓ) : Type ℓ where
  done : A → Loaded A
  failed : LoadError → Loaded A

infixl 5 ◌>>=◌
abbrev pub ◌>>=◌ {ℓ κ} : {A : Type ℓ} {B : Type κ} → Loaded A → (A → Loaded B) → Loaded B
done a >>= f = f a
failed e >>= f = failed e

abbrev pub or_fail {ℓ} : {A : Type ℓ} → LoadError → Option A → Loaded A
or_fail e none = failed e
or_fail e (some a) = done a

pub record Files : Type 0 where
  pub parsed : Parsed
  pub routes : Map Text Route

-- The agency's zone, and the process's own where the agency names none that can be loaded.
unfoldable pub agency_zone : (zones : Zones) → Directory → zones.Zone
agency_zone zones dir = elim (parse_agency_tz dir.agency) [
  | none ↦ zones.here
  | some name ↦ if is_empty name then zones.here else read_or zones.here (zones.load_location name)
]

-- A table by ids, as the list of its values.
abbrev pub values {ℓ} : {V : Type ℓ} → Map Text V → List V
values m = map (λ e. e.1) m

-- What each reader returns, put together up to the first error.
unfoldable pub gather :
    Option (Map Text Stop)
    → Option (Map Text Route)
    → Option (Map Text Trip)
    → Option (List Transfer)
    → Option (Map Text Bool)
    → Option (List ScheduledStopTime)
    → Loaded Files
gather stops_read routes_read trips_read transfers_read active_read rows_read = do
  stops ← or_fail bad_stops stops_read
  routes ← or_fail bad_routes routes_read
  trips ← or_fail bad_trips trips_read
  transfers ← or_fail bad_transfers transfers_read
  active ← or_fail bad_services active_read
  rows ← or_fail bad_stop_times rows_read
  done (record {
    parsed = record {
      stops = stops;
      trips = values trips;
      transfers = transfers;
      active = active;
      all_stop_times = rows;
    };
    routes = routes;
  })

unfoldable pub read_files : Text → ℕ → Directory → Loaded Files
unfolding gather
read_files date wd dir =
    gather (parse_stops dir.stops) (parse_routes dir.routes) (parse_trips dir.trips)
      (parse_transfers dir.transfers) (active_services dir.calendar dir.calendar_dates date wd)
      (parse_stop_times dir.stop_times)

-- The graph with its index of headways, and the fields that only the counts read.
pub record BuiltGraph (F : Type 0) : Type 0 where
  pub graph : TransitGraph
  pub routes : Map Text Route
  pub active_trips : Map Text Bool
  pub headways : Map Text F

unfoldable pub load_graph :
    (f : Float64) → (List ℤ → List ℤ) → Sort → Zones → Directory → Loaded (BuiltGraph f.F)
unfolding agency_zone read_files
load_graph f sort_ints sort zones dir = do
  let zone = agency_zone zones dir
  files ← read_files (zones.date_in zone).0 (zones.date_in zone).1 dir
  let graph = build_graph sort (zones.clock_in zone) files.parsed
  done (record {
    graph = graph;
    routes = files.routes;
    active_trips = (trips_of files.parsed).active_trips;
    headways = build_headway_index f sort_ints graph;
  })

unfoldable pub count_transfer_pairs : Map Text (List Transfer) → ℕ
count_transfer_pairs [] = 0
count_transfer_pairs ((_, v) ∷ rest) = length v + count_transfer_pairs rest

unfoldable pub count_stops : Map Text Stop → ℕ × ℕ
count_stops [] = (0, 0)
count_stops ((_, s) ∷ rest) =
    let (total, parents) = count_stops rest in
    (total + 1, if int_eq s.location_type (pos 1) then parents + 1 else parents)

-- The stops, the parents of them, the routes and the transfers.
unfoldable pub stats : {F : Type 0} → BuiltGraph F → ℕ × ℕ × ℕ × ℕ
unfolding count_transfer_pairs count_stops
stats g =
    let (total, parents) = count_stops g.graph.stops in
    (total, parents, length g.routes, count_transfer_pairs g.graph.transfers_by_stop)
