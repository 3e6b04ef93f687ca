-- ===== src/Tests/Listings.antt =====
-- The listings of a server with two states: internal/state/manager.go.
use urban_goggles.Base.{
  starts_with, pos, negsuc, some, add32, sub32, wrap32, ◌+ℤ◌, ◌-ℤ◌, abs32, Text, Text_eq, text_eq,
  codes, [], ◌∷◌, ◌≡◌, refl, arith, Map, exists_in, keep_if, before_byte, lookup,
}
use urban_goggles.External.Redis.{Redis, ok, IsGlobFree}
use urban_goggles.Graph.{TransitGraph}
use urban_goggles.State.{DelayState}
use urban_goggles.Processor.Stats.{report_stats, report_of, tally}
use urban_goggles.State.Listing.{agency_prefix, get_route_delays, get_all_active_delays}
use urban_goggles.Tests.Decimals.{Decimal, decimals}
use urban_goggles.Tests.Server.{server, plain, matching}

abbrev stored : Text → DelayState Decimal
stored route = record {
  agency_id = codes "mta";
  trip_id = codes "T1";
  route_id = route;
  stop_id = codes "A1";
  delay_seconds = pos 300;
  observed_at = pos 1000;
  confidence = (pos 5, 1);
  update_count = pos 1;
}

abbrev db : Map Text (DelayState Decimal)
db =
    (codes "delay:mta:T1:A1", stored (codes "6"))
    ∷ (codes "delay:mta:T2:A1", record (stored (codes "7")) { delay_seconds = pos 30 })
    ∷ []

abbrev graph : TransitGraph
graph = record {
  stops = [];
  trip_route = [];
  trip_direction = [];
  stop_times_by_stop = [];
  stop_times_by_trip = [];
  transfers_by_stop = [];
  routes_at_stop = [];
  trip_suffix = [];
  tz = λ t. record { hour = 0; minute = 0; second = 0 };
}

abbrev redis : Redis
redis = server (DelayState Decimal)

glob_free : IsGlobFree (agency_prefix (codes "mta"))
unfolding exists_in
glob_free = ground arith

of_route :
    (get_route_delays decimals redis (plain (DelayState Decimal)) db (codes "mta") (codes "6")).0
    ≡ ok (stored (codes "6") ∷ [])
unfolding get_route_delays matching keep_if starts_with before_byte lookup text_eq
of_route = refl

active :
    (get_all_active_delays decimals redis (plain (DelayState Decimal)) db (codes "mta")).0
    ≡ ok (stored (codes "6") ∷ [])
unfolding get_all_active_delays matching keep_if starts_with before_byte lookup text_eq abs32
active = refl

-- One delay is over the threshold; the loop takes both, the second one early.
reported :
    (report_stats decimals redis (plain _) db (codes "mta")).0
    ≡ some (record {
      active = pos 1;
      sizes = some (decimals.div (decimals.of_int (pos 300)) (decimals.of_int (pos 1)), pos 300);
    })
unfolding report_stats report_of tally add32 sub32 wrap32 ◌+ℤ◌ get_all_active_delays matching
    keep_if starts_with before_byte lookup text_eq abs32
reported = refl

tallied :
    tally decimals
      (stored (codes "6") ∷ record (stored (codes "7")) { delay_seconds = negsuc 29 } ∷ [])
      (pos 0, pos 0)
    ≡ (pos 330, pos 300)
unfolding tally add32 sub32 wrap32 ◌+ℤ◌ ◌-ℤ◌
tallied = refl
