-- ===== src/Tests/Cascades.antt =====
-- A broken transfer and the spread of its delay: internal/propagation and internal/graph/headway.go.
use urban_goggles.Base.{
  ℕ, ℤ, pos, ◌⊎◌, Text, Text_eq, codes, true, none, some, List, [], ◌∷◌, ◌≡◌, ◌≤◌, arith, All, Map,
  length,
}
use urban_goggles.External.Redis.{Codec}
use urban_goggles.Transit.{TransferImpact, broken}
use urban_goggles.Graph.{TransitGraph, ScheduledStopTime}
use urban_goggles.Graph.Headway.{build_headway_index}
use urban_goggles.State.{DelayState}
use urban_goggles.Propagation.Config.{default_config}
use urban_goggles.Propagation.History.{Observation}
use urban_goggles.Propagation.StopImpact.{StopOutcome}
use urban_goggles.Propagation.Engine.{PropagationEngine}
use urban_goggles.Propagation.Engine.Predict.{run_walk, propagate}
use urban_goggles.Propagation.Engine.Spread.{Reported, propagate-Reported}
use urban_goggles.Propagation.Engine.Walks.{IsOncePerPlace, run_walk-ends, propagate-IsOncePerPlace}
use urban_goggles.Evaluation.{PendingPrediction}
use urban_goggles.Processor.Forecast.{run_propagation}
use urban_goggles.Processor.Forecast.Places.{IsForecast, run_propagation-IsForecast}
use urban_goggles.Tests.Decimals.{Decimal, decimals}
use urban_goggles.Tests.Sets.{Memory, memory, sets}
use urban_goggles.Tests.Queues.{listed, listed-IsHeap}

abbrev row : Text → Text → ℕ → ScheduledStopTime
row trip stop secs = record {
  trip_id = trip;
  stop_id = stop;
  arrival_secs = pos secs;
  departure_secs = pos secs;
  stop_sequence = pos 1;
}

abbrev trips : Map Text Text
trips = (codes "T7", codes "7") ∷ (codes "T8", codes "7") ∷ (codes "T9", codes "9") ∷ []

abbrev first_trip : List ScheduledStopTime
first_trip =
    row (codes "T7") (codes "D") 900
    ∷ row (codes "T7") (codes "E") 1000
    ∷ row (codes "T7") (codes "F") 1100
    ∷ []

abbrev last_trip : List ScheduledStopTime
last_trip = row (codes "T9") (codes "G") 1500 ∷ row (codes "T9") (codes "H") 1700 ∷ []

-- Route 7 goes from D to F, and at F one changes for route 9 at G.
abbrev pub graph : TransitGraph
graph = record {
  stops = [];
  trip_route = trips;
  trip_direction = (codes "T7", pos 0) ∷ (codes "T8", pos 0) ∷ (codes "T9", pos 1) ∷ [];
  stop_times_by_stop =
      (codes "D", row (codes "T7") (codes "D") 900 ∷ row (codes "T8") (codes "D") 1500 ∷ [])
      ∷ (codes "G", row (codes "T9") (codes "G") 1500 ∷ [])
      ∷ [];
  stop_times_by_trip = (codes "T7", first_trip) ∷ (codes "T9", last_trip) ∷ [];
  transfers_by_stop =
      (
        codes "F",
        record {
          from_stop_id = codes "F";
          to_stop_id = codes "G";
          transfer_type = pos 2;
          min_transfer_time = pos 180;
        }
            ∷ [],
      )
      ∷ [];
  routes_at_stop = (codes "G", codes "9" ∷ []) ∷ [];
  trip_suffix = [];
  tz = λ t. record { hour = 0; minute = 10; second = 0 };
}

abbrev observations : Codec Text Observation
observations = record { marshal = λ o. some (codes "seen"); unmarshal = λ t. none }

abbrev outcomes : Codec Text StopOutcome
outcomes = record { marshal = λ o. some (codes "seen"); unmarshal = λ t. none }

abbrev states : Codec (DelayState Decimal) (DelayState Decimal)
states = record { marshal = some; unmarshal = some }

abbrev pub engine : PropagationEngine
engine = record {
  float = decimals;
  redis = memory (DelayState Decimal);
  sets = sets (DelayState Decimal);
  states = states;
  observations = observations;
  outcomes = outcomes;
  heap = listed Decimal;
  graph = graph;
  headways = some (build_headway_index decimals (λ xs. xs) graph);
  has_state = true;
  has_stop_hist = true;
  agency_id = codes "mta";
  cfg = default_config decimals;
}

abbrev pub impact : TransferImpact
impact = record {
  from_trip_id = codes "T1";
  from_route_id = codes "6";
  to_route_id = codes "7";
  station_id = codes "D";
  source_delay_seconds = pos 700;
  original_transfer_margin_seconds = pos 300;
  remaining_margin_seconds = pos 0;
  level = broken;
  detected_at = pos 1700000000;
  next_viable_trip_id = codes "T8";
  additional_wait_seconds = pos 600;
  sched_connection_departure_secs = pos 900;
  earliest_catch_secs = pos 1400;
}

abbrev db : Memory (DelayState Decimal)
db = record { values = λ k. none; scores = λ k m. none; roster = [] }

abbrev pub now : ℤ
now = pos 1700000000

propagate-Reported_example :
    All
      (Reported engine (listed-IsHeap Decimal) now impact)
      (propagate engine now impact db).0.impacts
unfolding default_config
propagate-Reported_example =
    propagate-Reported engine (listed-IsHeap Decimal) now impact db (ground arith)
      (ground arith, ground arith)

run_walk-ends_example :
    (length (run_walk engine now impact db).0 ≡ 100)
    ⊎ ((length (run_walk engine now impact db).0 ≤ 100)
        × ((run_walk engine now impact db).1.pq ≡ []))
unfolding default_config
run_walk-ends_example = run_walk-ends engine now impact db (listed-IsHeap Decimal)

propagate-IsOncePerPlace_example : IsOncePerPlace (propagate engine now impact db).0.impacts
propagate-IsOncePerPlace_example = propagate-IsOncePerPlace engine now impact db

-- A prediction as the state of its train, in place of its JSON document.
abbrev predictions : Codec (DelayState Decimal) (PendingPrediction Decimal)
predictions = record {
  marshal = λ p. some (record {
    agency_id = codes "mta";
    trip_id = p.id;
    route_id = p.route_id;
    stop_id = p.station_id;
    delay_seconds = p.predicted_secs;
    observed_at = now;
    confidence = (pos 1, 0);
    update_count = pos 1;
  });
  unmarshal = λ ds. none;
}

run_propagation-IsForecast_example :
    IsForecast engine now impact db
      (run_propagation engine predictions (λ t. pos 3600) (λ i. pos i) now now 0 db impact)
unfolding default_config
run_propagation-IsForecast_example =
    run_propagation-IsForecast engine (listed-IsHeap Decimal) now impact predictions (λ t. pos 3600)
      (λ i. pos i) now 0 db (ground arith) (ground arith, ground arith)
