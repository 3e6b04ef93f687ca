-- ===== src/Tests/Connections.antt =====
-- A delay that breaks a connection: internal/transfer/detector.go.
use mathlib.Core.List.{Memᴰ}
use urban_goggles.Base.{
  ℕ, pos, Text, Text_eq, text_eq, codes, List, [], ◌∷◌, ◌≡◌, refl, ◌⊎◌, inl, inr, arith, All, Map,
  lookup, map, add64, wrap64, add32, sub32, sub64, wrap32, ◌+ℤ◌, ◌-ℤ◌, ◌+◌,
}
use urban_goggles.Transit.{DelayEvent, TransferImpact, no_event}
use urban_goggles.Graph.{
  TransitGraph, ScheduledStopTime, Transfer, stop_times_at, get_transfers_from, parent_station_id,
  parent_station, get_routes_at_stop, get_next_departures, next_departures_after,
  secs_since_midnight, is_on_route, get_scheduled_stop_time, resolve_trip_id,
}
use urban_goggles.Graph.Clock.{IsWallClock}
use urban_goggles.Graph.Departures.{IsSorted}
use urban_goggles.State.{DelayState}
use urban_goggles.Graph.Search.{search}
use urban_goggles.Transfers.{
  arrival_tod, tod_from_unix, min_transfer, classify, next_viable, trip_delay_at, evaluate_delay,
}
use urban_goggles.Transfers.Impacts.{IsShort}
use urban_goggles.Transfers.Reports.{Origin, evaluate_delay-Origin}
use urban_goggles.Transfers.Margins.{IsDeparture, Fits, evaluate_delay-Fits}
use urban_goggles.Tests.Decimals.{Decimal, decimals}
use urban_goggles.Tests.Server.{server, plain}

abbrev row : Text → ℕ → ScheduledStopTime
row trip secs = record {
  trip_id = trip;
  stop_id = codes "D";
  arrival_secs = pos secs;
  departure_secs = pos (secs + 30);
  stop_sequence = pos 1;
}

abbrev departures : List ScheduledStopTime
departures = row (codes "T7") 900 ∷ row (codes "T8") 1500 ∷ []

abbrev graph : TransitGraph
graph = record {
  stops = [];
  trip_route = (codes "T7", codes "7") ∷ (codes "T8", codes "7") ∷ [];
  trip_direction = [];
  stop_times_by_stop = (codes "D", departures) ∷ [];
  stop_times_by_trip = [];
  transfers_by_stop =
      (
        codes "A",
        record {
          from_stop_id = codes "A";
          to_stop_id = codes "D";
          transfer_type = pos 2;
          min_transfer_time = pos 180;
        }
            ∷ [],
      )
      ∷ [];
  routes_at_stop = (codes "D", codes "7" ∷ codes "6" ∷ []) ∷ [];
  trip_suffix = [];
  tz = λ t. record { hour = 0; minute = 10; second = 0 };
}

abbrev late : DelayEvent
late = record no_event {
  agency_id = codes "mta";
  trip_id = codes "T1";
  route_id = codes "6";
  stop_id = codes "A";
  delay_seconds = pos 300;
  scheduled_arrival = pos 1700000000;
}

abbrev db : Map Text (DelayState Decimal)
db = []

abbrev reports : List TransferImpact
reports =
    (evaluate_delay decimals (server (DelayState Decimal)) (plain (DelayState Decimal)) graph late
      (pos 1700000300) (λ i. pos (1700000300 + i)) db).0

-- The train at 930 seconds is missed and the one at 1530 is caught.
waits : map (λ imp. imp.additional_wait_seconds) reports ≡ pos 600 ∷ []
unfolding evaluate_delay get_transfers_from lookup text_eq parent_station_id parent_station
    get_routes_at_stop get_next_departures search stop_times_at next_departures_after add64 wrap64
    add32 sub32 sub64 wrap32 ◌+ℤ◌ ◌-ℤ◌ arrival_tod tod_from_unix secs_since_midnight min_transfer
    is_on_route classify next_viable trip_delay_at get_scheduled_stop_time resolve_trip_id
waits = refl

short : All IsShort (get_transfers_from graph (codes "A"))
unfolding get_transfers_from lookup text_eq parent_station_id
short = (omega arith, tt)

stop_times_lem : (s : Text) → (stop_times_at graph s ≡ departures) ⊎ (stop_times_at graph s ≡ [])
unfolding stop_times_at lookup
stop_times_lem s = ground arith

sorted : (s : Text) → IsSorted (stop_times_at graph s)
sorted s = elim (stop_times_lem s) [ inl e ↦ rw e ((omega arith, tt), (tt, tt)) | inr e ↦ rw e tt ]

departing : (s : Text) → All IsDeparture (stop_times_at graph s)
departing s = elim (stop_times_lem s) [
  | inl e ↦ rw e (omega arith, (omega arith, tt))
  | inr e ↦ rw e tt
]

clock : IsWallClock graph.tz
clock t = (omega arith, omega arith, omega arith)

evaluate_delay-Origin_example : All (Origin graph late) reports
evaluate_delay-Origin_example =
    evaluate_delay-Origin decimals (server (DelayState Decimal)) (plain (DelayState Decimal)) graph
      late (pos 1700000300) (λ i. pos (1700000300 + i)) db short

evaluate_delay-Fits_example :
    All
      (λ imp.
        (xfer : Transfer) × (Memᴰ xfer (get_transfers_from graph (codes "A")))
        × (imp.station_id ≡ xfer.to_stop_id)
        × Fits xfer imp)
      reports
evaluate_delay-Fits_example =
    evaluate_delay-Fits decimals (server (DelayState Decimal)) (plain (DelayState Decimal)) graph
      clock sorted departing late (pos 1700000300) (λ i. pos (1700000300 + i)) db short
