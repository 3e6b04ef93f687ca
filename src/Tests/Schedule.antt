-- ===== src/Tests/Schedule.antt =====
-- A schedule of two trips through one station: internal/graph and cmd/processor/enrich.go.
use urban_goggles.Base.{
  ℕ, pos, ◌+ℤ◌, ◌+◌, sub64, add64, ◌<ℤ◌, Text, Text_eq, codes, true, some, List, [], ◌∷◌, ◌≡◌, inr,
  refl, arith, keep_if, lookup, text_eq, wrap64, find_first,
}
use urban_goggles.Transit.{DelayEvent, no_event, arrival_delay}
use urban_goggles.Graph.{
  TransitGraph, overnight_window_secs, Stop, ScheduledStopTime, get_next_departures,
  next_departures_after, stop_times_at, is_on_route, get_scheduled_stop_time, get_downstream_stops,
  parent_station_id, secs_since_midnight, resolve_trip_id,
}
use urban_goggles.Graph.Departures.{
  IsSorted, BoardsWithin, get_next_departures_lem, next_departures_after-best,
}
use urban_goggles.Graph.Trips.{Continues, get_downstream_stops-Continues}
use urban_goggles.Graph.Clock.{IsWallClock}
use urban_goggles.Processor.Enrich.{enrich_event, sched_secs, is_time_only}
use urban_goggles.Processor.Enrich.Outcome.{IsEnriched, enrich_event-hit}

abbrev row : Text → Text → ℕ → ScheduledStopTime
row trip stop secs = record {
  trip_id = trip;
  stop_id = stop;
  arrival_secs = pos secs;
  departure_secs = pos (secs + 30);
  stop_sequence = pos 1;
}

abbrev platform : Text → Text → Stop
platform stop station = record {
  id = stop;
  name = stop;
  location_type = pos 0;
  parent_station = station;
}

-- The last trip of the day leaves half an hour after midnight.
abbrev here : List ScheduledStopTime
here = row (codes "T1") (codes "A1") 30000 ∷ row (codes "T2") (codes "A2") 88200 ∷ []

abbrev graph : TransitGraph
graph = record {
  stops =
      (codes "A1", platform (codes "A1") (codes "A"))
      ∷ (codes "A2", platform (codes "A2") (codes "A"))
      ∷ [];
  trip_route = (codes "T1", codes "6") ∷ (codes "T2", codes "6") ∷ [];
  trip_direction = (codes "T1", pos 1) ∷ [];
  stop_times_by_stop = (codes "A", here) ∷ [];
  stop_times_by_trip =
      (codes "T1", row (codes "T1") (codes "A1") 30000 ∷ row (codes "T1") (codes "B1") 30300 ∷ [])
      ∷ (codes "T2", row (codes "T2") (codes "A2") 88200 ∷ row (codes "T2") (codes "B1") 88500 ∷ [])
      ∷ [];
  transfers_by_stop = [];
  routes_at_stop = [];
  trip_suffix = [];
  tz = λ t. record { hour = 0; minute = 10; second = 0 };
}

sorted : IsSorted (stop_times_at graph (codes "A1"))
unfolding stop_times_at lookup text_eq parent_station_id
sorted = ((omega arith, tt), (tt, tt))

get_next_departures_lem_example :
    get_next_departures graph (codes "A1") (codes "6") (pos 40000) 1
    ≡ row (codes "T2") (codes "A2") 88200 ∷ []
unfolding keep_if stop_times_at is_on_route lookup text_eq parent_station_id
get_next_departures_lem_example =
    get_next_departures_lem graph (codes "A1") (codes "6") (pos 40000) 1 sorted

after_midnight :
    get_next_departures graph (codes "A1") (codes "6") (pos 87000) 1
    ≡ row (codes "T2") (codes "A2") 88200 ∷ []
unfolding keep_if stop_times_at is_on_route lookup text_eq parent_station_id
after_midnight = get_next_departures_lem graph (codes "A1") (codes "6") (pos 87000) 1 sorted

early : (pos 600 <ℤ overnight_window_secs) × (pos 87000 ≡ add64 (pos 600) (pos 86400))
unfolding add64 wrap64 ◌+ℤ◌
early = (omega arith, refl)

next_departures_after-best_example :
    BoardsWithin
      (sub64 (pos 88230) (pos 87000))
      (next_departures_after graph (codes "A1") (codes "6") (pos 600) 1)
next_departures_after-best_example =
    next_departures_after-best graph (codes "A1") (codes "6") (pos 600) 1 (pos 87000)
      (row (codes "T2") (codes "A2") 88200) [] (inr early) after_midnight

found :
    get_scheduled_stop_time graph (codes "T1") (codes "A2")
    ≡ some (row (codes "T1") (codes "A1") 30000)
unfolding get_scheduled_stop_time resolve_trip_id lookup text_eq find_first parent_station_id
found = refl

downstream :
    get_downstream_stops graph (codes "6") (codes "A2") (pos 1)
    ≡ row (codes "T1") (codes "B1") 30300 ∷ []
unfolding get_downstream_stops stop_times_at lookup text_eq parent_station_id is_on_route
downstream = refl

get_downstream_stops-Continues_example :
    Continues graph
      (codes "6")
      (parent_station_id graph (codes "A2"))
      (pos 1)
      (stop_times_at graph (codes "A2"))
      (row (codes "T1") (codes "B1") 30300 ∷ [])
get_downstream_stops-Continues_example =
    get_downstream_stops-Continues graph (codes "6") (codes "A2") (pos 1) downstream

abbrev event : DelayEvent
event = record no_event {
  trip_id = codes "T2";
  stop_id = codes "A2";
  predicted_arrival = pos 1700000000;
}

wall_clock : IsWallClock graph.tz
wall_clock t = (omega arith, omega arith, omega arith)

event_row :
    get_scheduled_stop_time graph (codes "T2") (codes "A2")
    ≡ some (row (codes "T2") (codes "A2") 88200)
unfolding get_scheduled_stop_time resolve_trip_id lookup text_eq find_first
event_row = refl

hits : (enrich_event graph (pos 0) event).1 ≡ true
unfolding enrich_event get_scheduled_stop_time is_time_only resolve_trip_id lookup text_eq
    find_first sched_secs
hits = refl

enrich_event-hit_example :
    (is_time_only event ≡ true)
    × IsEnriched
        (secs_since_midnight graph (pos 0) event.predicted_arrival)
        (sched_secs arrival_delay (row (codes "T2") (codes "A2") 88200))
        event
        (enrich_event graph (pos 0) event).0
enrich_event-hit_example =
    enrich_event-hit graph (pos 0) event (row (codes "T2") (codes "A2") 88200) wall_clock event_row
      ((omega arith, omega arith), (omega arith, omega arith)) (omega arith, omega arith) hits
