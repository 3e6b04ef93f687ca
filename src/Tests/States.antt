-- ===== src/Tests/States.antt =====
-- Events processed against a server that holds the state of one stop: internal/state/manager.go.
use urban_goggles.Base.{
  starts_with, if◌then◌else◌, pos, ◌≤ℤ◌, Text, Text_eq, codes, exists_in, false, Option, none, some,
  [], ◌∷◌, ◌≡◌, refl, arith, Map, abs32, sub32, wrap32, ◌-ℤ◌, ◌+ℤ◌, ◌*ℤ◌, lookup, text_eq, keep_if,
  before_byte,
}
use urban_goggles.External.Redis.{Redis, Reply, ok, IsGlobFree}
use urban_goggles.Graph.{TransitGraph}
use urban_goggles.Transit.{DelayEvent, no_event, trip_cancelled, skip_stop}
use urban_goggles.State.{
  DelayState, Failure, process_event, event_key, delay_key, trip_prefix, reconcile, confidence_max,
  final_delay, get_delay, set_state, clear_trip_delays,
}
use urban_goggles.State.Store.{view, observed, process_event-observes}
use urban_goggles.State.Smoothing.{Bounds, observed-IsSound}
use urban_goggles.State.Retraction.{process_event-cancels}
use urban_goggles.Tests.Decimals.{Decimal, decimals, decimals-IsFloat64}
use urban_goggles.Tests.Server.{server, server-IsRedis, plain, plain-IsCodec, matching}

abbrev graph : TransitGraph
graph = record {
  stops = [];
  trip_route = (codes "T1", codes "6") ∷ [];
  trip_direction = [];
  stop_times_by_stop = [];
  stop_times_by_trip = [];
  transfers_by_stop = [];
  routes_at_stop = [];
  trip_suffix = [];
  tz = λ t. record { hour = 0; minute = 0; second = 0 };
}

abbrev stored : DelayState Decimal
stored = record {
  agency_id = codes "mta";
  trip_id = codes "T1";
  route_id = codes "6";
  stop_id = codes "A1";
  delay_seconds = pos 60;
  observed_at = pos 1000;
  confidence = (pos 5, 1);
  update_count = pos 1;
}

abbrev key : Text
key = codes "delay:mta:T1:A1"

abbrev other : Text
other = codes "delay:mta:T2:A1"

abbrev db : Map Text (DelayState Decimal)
db = (key, stored) ∷ (other, stored) ∷ []

abbrev late : DelayEvent
late = record no_event {
  agency_id = codes "mta";
  trip_id = codes "T1";
  stop_id = codes "A1";
  delay_seconds = pos 360;
  observed_at = pos 1030;
}

abbrev redis : Redis
redis = server (DelayState Decimal)

abbrev after : DelayEvent → Map Text (DelayState Decimal)
after ev = (process_event decimals redis (plain (DelayState Decimal)) graph db ev).1

abbrev seen :
    Map Text (DelayState Decimal) → Text → Reply (Failure (Unit {0})) (Option (DelayState Decimal))
seen = view decimals redis (plain (DelayState Decimal)) graph

process_event-observes_example :
    seen (after late) key ≡ ok (some (observed decimals graph late (some stored)))
unfolding process_event get_delay lookup text_eq delay_key trip_prefix set_state event_key view
process_event-observes_example =
    process_event-observes decimals redis (server-IsRedis _) (plain _) (plain-IsCodec _) graph db
      late key refl refl

observed-IsSound_example :
    let next = observed decimals graph late (some stored) in
    (pos 1000 ≤ℤ next.observed_at)
    × Bounds (pos 60) (pos 360) next.delay_seconds
    × (decimals.ltf (confidence_max decimals) next.confidence ≡ false)
unfolding ◌*ℤ◌
observed-IsSound_example =
    observed-IsSound decimals decimals-IsFloat64 graph stored late (pos 60) (pos 360)
      (omega arith, omega arith) (omega arith, omega arith) (omega arith, omega arith)
      (omega arith, omega arith) refl

-- 0.7 * 360 + 0.3 * 60 seconds.
smoothed : (observed decimals graph late (some stored)).delay_seconds ≡ pos 270
unfolding observed reconcile final_delay abs32 sub32 wrap32 ◌-ℤ◌ ◌+ℤ◌ ◌*ℤ◌
smoothed = refl

abbrev skipped_stop : DelayEvent
skipped_stop = record late { event_type = skip_stop }

abbrev cancellation : DelayEvent
cancellation = record late { event_type = trip_cancelled; stop_id = [] }

glob_free : IsGlobFree (trip_prefix (codes "mta") (codes "T1"))
unfolding trip_prefix exists_in
glob_free = ground arith

cancelled :
    (process_event decimals redis (plain (DelayState Decimal)) graph db cancellation).0 ≡ none
unfolding process_event clear_trip_delays matching keep_if starts_with before_byte trip_prefix
cancelled = refl

process_event-cancels_example : seen (after cancellation) other ≡ (
    if starts_with (trip_prefix (codes "mta") (codes "T1")) other then ok none else seen db other)
process_event-cancels_example =
    process_event-cancels decimals redis (server-IsRedis _) (plain _) graph db cancellation other
      refl glob_free cancelled
