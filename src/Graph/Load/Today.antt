-- ===== src/Graph/Load/Today.antt =====
-- The times of a loaded graph against the files that it was loaded from.
use mathlib.Core.List.{Permᴰ}
use mathlib.Core.Path.{subst}
use urban_goggles.Base.{
  ℕ, ℤ, Text, Text_eq, ◌==◌, ◌&&◌, Bool, false, Option, none, some, List, [], ◌∷◌, ◌≡◌, refl, ap,
  ◌⊎◌, inl, inr, arith, exists_in, keep_if, keep_if-congr, All-of_mem, Map, lookup,
}
use urban_goggles.External.Float.{Float64}
use urban_goggles.Graph.{Stop, Transfer, ScheduledStopTime, read_or, parent_station, stop_times_at}
use urban_goggles.Graph.Departures.{IsSorted}
use urban_goggles.Graph.Build.{Parsed, Trip, Sort, build_graph}
use urban_goggles.Graph.Build.Rows.{IsSort, runs_today, rows_today, build_graph-rows_today}
use urban_goggles.Graph.Parser.{
  File, Route, Table, read_csv, parse_stops, parse_routes, parse_trips, parse_transfers,
  parse_stop_times,
}
use urban_goggles.Graph.Parser.Calendar.{active_services}
use urban_goggles.Graph.Parser.Calendar.Services.{runs_service, active_services-runs_service}
use urban_goggles.Graph.Load.{
  Directory, Zones, Loaded, done, failed, LoadError, Files, gather, agency_zone, values, read_files,
  BuiltGraph, load_graph,
}

-- Some trip with the id runs on the date.
abbrev pub has_running : Table → Option File → Text → ℕ → List Trip → Text → Bool
has_running calendar dates date wd trips id =
    exists_in (λ t. t.id == id && runs_service calendar dates date wd t.service_id) trips

-- What was read of a directory with the services of a date.
abbrev pub IsRead : Text → ℕ → Directory → Parsed → Type 0
IsRead date wd dir parsed =
    (trips : Map Text Trip) × (calendar : Table) × (parse_trips dir.trips ≡ some trips)
    × (parsed.trips ≡ values trips)
    × (parse_stop_times dir.stop_times ≡ some parsed.all_stop_times)
    × (parse_stops dir.stops ≡ some parsed.stops)
    × (read_csv dir.calendar ≡ some calendar)
    × ((id : Text)
        → runs_today parsed.active parsed.trips id
          ≡ has_running calendar dir.calendar_dates date wd (values trips) id)

runs_today_lem :
    (calendar : Table) (dates : Option File) (date : Text) (wd : ℕ) (active : Map Text Bool)
    (same : (sid : Text)
      → read_or false (lookup sid active) ≡ runs_service calendar dates date wd sid)
    (id : Text) (trips : List Trip)
    → runs_today active trips id ≡ has_running calendar dates date wd trips id
unfolding exists_in
runs_today_lem calendar dates date wd active same id [] = refl
runs_today_lem calendar dates date wd active same id (t ∷ rest) =
    ground (arith, same t.service_id, runs_today_lem calendar dates date wd active same id rest)

Loaded-cases {ℓ} :
    {A : Type ℓ} (l : Loaded A) → ((a : A) × (l ≡ done a)) ⊎ ((e : LoadError) × (l ≡ failed e))
Loaded-cases (done a) = inl (a, refl)
Loaded-cases (failed e) = inr (e, refl)

gather-done :
    (o1 : Option (Map Text Stop)) (o2 : Option (Map Text Route)) (o3 : Option (Map Text Trip))
    (o4 : Option (List Transfer)) (o5 : Option (Map Text Bool))
    (o6 : Option (List ScheduledStopTime)) {files : Files}
    → gather o1 o2 o3 o4 o5 o6 ≡ done files
    → (trips : Map Text Trip) × (o1 ≡ some files.parsed.stops)
      × (o3 ≡ some trips)
      × (files.parsed.trips ≡ values trips)
      × (o5 ≡ some files.parsed.active)
      × (o6 ≡ some files.parsed.all_stop_times)
unfolding gather
gather-done none o2 o3 o4 o5 o6 h = cc
gather-done (some a) none o3 o4 o5 o6 h = cc
gather-done (some a) (some b) none o4 o5 o6 h = cc
gather-done (some a) (some b) (some c) none o5 o6 h = cc
gather-done (some a) (some b) (some c) (some d) none o6 h = cc
gather-done (some a) (some b) (some c) (some d) (some e) none h = cc
gather-done (some a) (some b) (some c) (some d) (some e) (some f) h =
    (c, ground arith, refl, ground arith, ground arith, ground arith)

read_files-IsRead :
    (date : Text) (wd : ℕ) (dir : Directory) {files : Files}
    → read_files date wd dir ≡ done files
    → IsRead date wd dir files.parsed
unfolding read_files
read_files-IsRead date wd dir {files} h =
    let (trips, stops_read, trips_read, same, active_read, rows_read) =
      gather-done (parse_stops dir.stops) (parse_routes dir.routes) (parse_trips dir.trips)
        (parse_transfers dir.transfers) (active_services dir.calendar dir.calendar_dates date wd)
        (parse_stop_times dir.stop_times) h in
    let (calendar, calendar_read, runs) =
      active_services-runs_service dir.calendar dir.calendar_dates date wd active_read in
    (
      trips,
      calendar,
      trips_read,
      same,
      rows_read,
      stops_read,
      calendar_read,
      λ id. rw same (
          runs_today_lem calendar dir.calendar_dates date wd files.parsed.active runs id
            (values trips)),
    )

-- A stop's times in a loaded graph: rows of stop_times.txt, by trips.txt and the calendars.
abbrev pub IsTimetable : Text → ℕ → Directory → Text → List ScheduledStopTime → Type 0
IsTimetable date wd dir stop_id times =
    (stops : Map Text Stop) × (trips : Map Text Trip) × (calendar : Table) × (rows : List
      ScheduledStopTime)
    × (parse_stops dir.stops ≡ some stops)
    × (parse_trips dir.trips ≡ some trips)
    × (read_csv dir.calendar ≡ some calendar)
    × (parse_stop_times dir.stop_times ≡ some rows)
    × Permᴰ times (
        keep_if
          (λ st.
            has_running calendar dir.calendar_dates date wd (values trips) st.trip_id
            && parent_station st.stop_id stops == parent_station stop_id stops)
          rows)
    × IsSorted times

-- If `BuildGraph` succeeds, the times of a stop are those rows of stop_times.txt, each once, whose
-- trip has a service that runs on the date in the agency's time zone and whose stop is of the same
-- station, in the order of their departures.
pub load_graph-IsTimetable :
    (f : Float64) (sort_ints : List ℤ → List ℤ) (sort : Sort) (laws : IsSort sort) (zones : Zones)
    (dir : Directory) (stop_id : Text) {built : BuiltGraph f.F}
    → load_graph f sort_ints sort zones dir ≡ done built
    → let day = zones.date_in (agency_zone zones dir) in
      IsTimetable day.0 day.1 dir stop_id (stop_times_at built.graph stop_id)
unfolding load_graph
load_graph-IsTimetable f sort_ints sort laws zones dir stop_id {built} h =
    let zone = agency_zone zones dir in
    let day = zones.date_in zone in
    elim (Loaded-cases (read_files day.0 day.1 dir)) [
      | inr (e, bad) ↦ absurd (ground (arith, bad, h))
      | inl (files, read) ↦
          let parsed = files.parsed in
          let same : build_graph sort (zones.clock_in zone) parsed ≡ built.graph =
            ground (arith, read, h) in
          let (trips, calendar, trips_read, _, rows_read, stops_read, calendar_read, runs) =
            read_files-IsRead day.0 day.1 dir read in
          let station = parent_station stop_id parsed.stops in
          let runs_here : ScheduledStopTime → Bool = λ st.
            has_running calendar dir.calendar_dates day.0 day.1 (values trips) st.trip_id
            && parent_station st.stop_id parsed.stops == station in
          let todays = keep_if runs_here parsed.all_stop_times in
          let kept : rows_today parsed station ≡ todays =
            keep_if-congr _ runs_here parsed.all_stop_times (
              All-of_mem _ parsed.all_stop_times (λ st m.
                ap (λ b. b && parent_station st.stop_id parsed.stops == station)
                  (runs st.trip_id))) in
          let times = build_graph-rows_today sort laws (zones.clock_in zone) parsed stop_id in
          (
            parsed.stops,
            trips,
            calendar,
            parsed.all_stop_times,
            stops_read,
            trips_read,
            calendar_read,
            rows_read,
            subst (λ xs. Permᴰ xs todays) (ap (λ g. stop_times_at g stop_id) same)
                (subst
                  (Permᴰ (stop_times_at (build_graph sort (zones.clock_in zone) parsed) stop_id))
                  kept times.0),
            subst (λ g. IsSorted (stop_times_at g stop_id)) same times.1,
          )
    ]
