-- ===== src/Tests/Pendings.antt =====
-- Predictions that wait for their outcome, at a server in memory: internal/evaluation.
use mathlib.Core.List.{Memᴰ}
use mathlib.Core.List.{Permᴰ}
use urban_goggles.Base.{
  ℕ, ℤ, pos, ◌≤◌, ◌⊎◌, Text, Text_eq, codes, text_eq, true, false, Option, none, some, List, [],
  ◌∷◌, ◌≡◌, refl, arith, All, length, lookup, add64, wrap64, ◌+ℤ◌, keep_if, exists_in, sub32,
  wrap32, ◌-ℤ◌,
}
use urban_goggles.External.Redis.{Codec, ok}
use urban_goggles.Graph.Search.{get_elem?}
use urban_goggles.Transit.{
  DelayEvent, no_event, TransferImpact, DownstreamImpact, PropagationResult, broken,
}
use urban_goggles.Graph.{
  TransitGraph, ScheduledStopTime, get_next_departures, parent_station_id, is_on_route,
  get_scheduled_stop_time, resolve_trip_id,
}
use urban_goggles.State.{DelayState}
use urban_goggles.Propagation.History.{Observation, history_key}
use urban_goggles.Propagation.StopImpact.{StopOutcome, stop_impact_key}
use urban_goggles.Evaluation.{PendingPrediction, pending_key, index_key}
use urban_goggles.Evaluation.Pending.{
  add_pending, find_active, pop_expired, registration, get_pending,
}
use urban_goggles.Evaluation.Pending.Claims.{IsClaimed, pop_expired-IsClaimed}
use urban_goggles.Evaluation.Pending.Finds.{reads_answered, find_active-add_pending}
use urban_goggles.Evaluation.Matching.{observe}
use urban_goggles.Evaluation.Matching.Maximum.{Counts, Attained, after_events-IsMaximum}
use urban_goggles.Evaluation.Tracking.{
  track_order, find_primary, next_best, is_candidate, other_indices, is_other, track_prediction,
  max_tracked,
}
use urban_goggles.Evaluation.Tracking.Order.{IsCandidateAt, IsLeast, find_primary-track_order}
use urban_goggles.Evaluation.Tracking.Tracked.{IsTracked, track_prediction-IsTracked}
use urban_goggles.Evaluation.Sweep.{realized_wait, record_outcome}
use urban_goggles.Evaluation.Sweep.Waits.{IsBoarded, realized_wait-IsBoarded}
use urban_goggles.Evaluation.Sweep.Recorded.{SameAt, record_outcome-SameAt}
use urban_goggles.Tests.Decimals.{Decimal, decimals}
use urban_goggles.Tests.Server.{plain, plain-IsCodec}
use urban_goggles.Tests.Sets.{
  Memory, memory, memory-IsRedis, sets, sets-IsSortedSets, range_of, nub,
}

abbrev Prediction : Type 0
Prediction = PendingPrediction Decimal

abbrev waiting : Prediction
waiting = record {
  id = codes "p1";
  agency_id = codes "mta";
  from_route = codes "6";
  route_id = codes "7";
  station_id = codes "E";
  source_station = codes "D";
  direction = pos 0;
  source_delay_secs = pos 300;
  predicted_secs = pos 240;
  baseline_secs = pos 30;
  sched_conn_dep_secs = pos 900;
  earliest_catch_secs = pos 1000;
  confidence = (pos 7, 1);
  hops = pos 1;
  hour = pos 0;
  is_primary = true;
  created_at = pos 5000;
  expires_at = pos 6800;
  observed_max = pos 0;
  matched = false;
}

abbrev empty : Memory Prediction
empty = record { values = λ k. none; scores = λ k m. none; roster = [] }

abbrev until : ℤ → ℤ
until t = pos 1800000000000

abbrev stored : Memory Prediction
stored =
    (add_pending (memory Prediction) (sets Prediction) (plain Prediction) until empty waiting).1

find_active-add_pending_example :
    (out : List Prediction) × ((find_active
        (memory Prediction)
        (sets Prediction)
        (plain Prediction)
        stored
        waiting.agency_id
        waiting.route_id
        waiting.station_id
        (pos 6000)).0
      ≡ ok out)
    × Memᴰ waiting out
unfolding add_pending find_active add64 wrap64 ◌+ℤ◌ range_of keep_if nub registration exists_in
    text_eq index_key pending_key reads_answered
find_active-add_pending_example =
    find_active-add_pending (memory Prediction) (memory-IsRedis Prediction) (sets Prediction)
      (sets-IsSortedSets Prediction) (plain Prediction) (plain-IsCodec Prediction) until empty
      waiting (pos 6000) (waiting.id ∷ []) refl (ground arith) refl refl

pop_expired-IsClaimed_example :
    All
      (IsClaimed
        (memory Prediction)
        (memory-IsRedis Prediction)
        (sets Prediction)
        (sets-IsSortedSets Prediction)
        (plain Prediction)
        stored
        (pop_expired
          (memory Prediction)
          (sets Prediction)
          (plain Prediction)
          stored
          (pos 7000)
          100).1
        (pos 7000))
      (waiting ∷ [])
unfolding add_pending pop_expired range_of keep_if nub add64 wrap64 ◌+ℤ◌ registration exists_in
    text_eq get_pending pending_key
pop_expired-IsClaimed_example =
    pop_expired-IsClaimed (memory Prediction) (memory-IsRedis Prediction) (sets Prediction)
      (sets-IsSortedSets Prediction) (plain Prediction) stored (pos 7000) 100 (waiting ∷ []) refl

abbrev seen : DelayEvent
seen = record no_event { delay_seconds = pos 150; observed_at = pos 5500 }

abbrev events : List (DelayEvent × Option ℤ)
events = (seen, some (pos 0)) ∷ (record seen { delay_seconds = pos 90 }, none) ∷ []

after_events-IsMaximum_example :
    All (Counts waiting (record waiting { matched = true; observed_max = pos 120 })) events
    × ((record waiting { matched = true; observed_max = pos 120 } ≡ waiting)
        ⊎ Attained waiting (record waiting { matched = true; observed_max = pos 120 }) events)
unfolding observe sub32 wrap32 ◌-ℤ◌
after_events-IsMaximum_example = after_events-IsMaximum events waiting

abbrev reported : Text → ℕ → DownstreamImpact Decimal
reported stop delay = record {
  route_id = codes "7";
  stop_id = stop;
  predicted_additional_delay = pos delay;
  confidence = (pos 7, 1);
  hops_from_source = pos 1;
  impact_type = codes "dwell_increase";
}

abbrev impacts : List (DownstreamImpact Decimal)
impacts = reported (codes "F") 601 ∷ reported (codes "E") 600 ∷ []

abbrev source : TransferImpact
source = record {
  from_trip_id = codes "T1";
  from_route_id = codes "6";
  to_route_id = codes "7";
  station_id = codes "D";
  source_delay_seconds = pos 300;
  original_transfer_margin_seconds = pos 300;
  remaining_margin_seconds = pos 0;
  level = broken;
  detected_at = pos 5000;
  next_viable_trip_id = codes "T8";
  additional_wait_seconds = pos 600;
  sched_connection_departure_secs = pos 900;
  earliest_catch_secs = pos 1000;
}

find_primary-track_order_example :
    IsCandidateAt source impacts 1 (pos 600)
    × IsLeast source (pos 600) impacts
    × Permᴰ {A = ℕ} (1 ∷ 0 ∷ []) (0 ∷ 1 ∷ [])
    × (get_elem? {A = ℕ} (1 ∷ 0 ∷ []) 0 ≡ some 1)
unfolding find_primary track_order next_best is_candidate text_eq other_indices is_other
find_primary-track_order_example = find_primary-track_order source impacts 1 (pos 600) refl

abbrev row : Text → ℕ → ScheduledStopTime
row trip secs = record {
  trip_id = trip;
  stop_id = codes "D";
  arrival_secs = pos secs;
  departure_secs = pos secs;
  stop_sequence = pos 1;
}

abbrev graph : TransitGraph
graph = record {
  stops = [];
  trip_route = (codes "T7", codes "7") ∷ (codes "T8", codes "7") ∷ [];
  trip_direction = [];
  stop_times_by_stop = (codes "D", row (codes "T7") 900 ∷ row (codes "T8") 1500 ∷ []) ∷ [];
  stop_times_by_trip = [];
  transfers_by_stop = [];
  routes_at_stop = [];
  trip_suffix = [];
  tz = λ t. record { hour = 0; minute = 10; second = 0 };
}

abbrev state_codec : Codec Prediction (DelayState Decimal)
state_codec = record { marshal = λ ds. none; unmarshal = λ v. none }

abbrev result : PropagationResult Decimal
result = record {
  source_trip_id = codes "T1";
  source_stop_id = codes "D";
  source_delay_seconds = pos 300;
  computed_at = pos 5000;
  impacts = impacts;
}

abbrev tracked : List Prediction
tracked =
    (track_prediction decimals (memory Prediction) (sets Prediction) state_codec (plain Prediction)
      graph (codes "mta") until (λ i. pos i) (pos 5000) empty 0 source result).0

track_prediction-IsTracked_example :
    (length tracked ≤ max_tracked)
    × All
        (IsTracked decimals
          (memory Prediction)
          (sets Prediction)
          state_codec
          (plain Prediction)
          graph
          (codes "mta")
          source
          impacts)
        tracked
track_prediction-IsTracked_example =
    track_prediction-IsTracked decimals (memory Prediction) (sets Prediction) state_codec
      (plain Prediction) graph (codes "mta") source until (λ i. pos i) (pos 5000) empty 0 result

realized_wait_run :
    (realized_wait decimals (memory Prediction) state_codec graph empty waiting).0 ≡ some (pos 600)
unfolding realized_wait get_next_departures lookup text_eq parent_station_id is_on_route add64
    wrap64 ◌+ℤ◌ get_scheduled_stop_time resolve_trip_id sub32 wrap32 ◌-ℤ◌
realized_wait_run = refl

realized_wait-IsBoarded_example :
    IsBoarded decimals
      (memory Prediction)
      state_codec
      graph
      waiting
      empty
      (get_next_departures graph (codes "D") (codes "7") (pos 900) 10)
      (pos 600)
realized_wait-IsBoarded_example =
    realized_wait-IsBoarded decimals (memory Prediction) state_codec graph waiting empty
      (memory-IsRedis Prediction) (pos 600) realized_wait_run

abbrev observations : Codec Text Observation
observations = record { marshal = λ o. some (codes "seen"); unmarshal = λ t. none }

abbrev outcomes : Codec Text StopOutcome
outcomes = record { marshal = λ o. some (codes "seen"); unmarshal = λ t. none }

record_outcome-SameAt_example :
    SameAt
      (memory Prediction)
      (sets Prediction)
      (sets-IsSortedSets Prediction)
      empty
      (record_outcome decimals
        (memory Prediction)
        state_codec
        graph
        (sets Prediction)
        (plain Prediction)
        observations
        outcomes
        true
        empty
        waiting
        (pos 7000)
        (pos 5))
      (stop_impact_key (codes "7") (codes "E") (pos 0))
unfolding text_eq history_key stop_impact_key
record_outcome-SameAt_example =
    record_outcome-SameAt (memory Prediction) (sets Prediction) (sets-IsSortedSets Prediction)
      decimals state_codec graph (plain Prediction) observations outcomes true empty waiting
      (pos 7000) (pos 5) (stop_impact_key (codes "7") (codes "E") (pos 0)) refl
