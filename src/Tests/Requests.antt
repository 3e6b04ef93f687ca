-- ===== src/Tests/Requests.antt =====
-- Requests at a server with two states: internal/server/handlers.go.
use mathlib.Core.List.{Memᴰ}
use mathlib.Core.Path.{subst}
use urban_goggles.Base.{
  starts_with, some, ℕ, pos, abs32, Text, Text_eq, text_eq, codes, false, none, List, [], ◌∷◌, ◌≡◌,
  refl, sym, inl, arith, All, Map, exists_in, keep_if, before_byte, lookup, insert, nat_eq,
}
use urban_goggles.External.Redis.{Redis, Reply, ok, err, IsGlobFree}
use urban_goggles.External.SortedSets.{SortedSets, IsSortedSets, IsDistinctList}
use urban_goggles.Graph.{get_routes_at_stop, parent_station_id, parent_station}
use urban_goggles.State.{DelayState}
use urban_goggles.State.Listing.{agency_prefix, get_all_active_delays}
use urban_goggles.Propagation.Engine.{PropagationEngine}
use urban_goggles.Propagation.History.{history_key}
use urban_goggles.Propagation.History.Stats.{split_n, pair_in}
use urban_goggles.Propagation.History.Stats.Keys.{pair_in-history_key}
use urban_goggles.Server.{
  StopDelay, AlertFilter, stream_alerts, get_network_state, get_blast_radius,
}
use urban_goggles.Server.Network.{IsNetwork, get_network_state-IsNetwork}
use urban_goggles.Server.Streams.{IsCut, stream_alerts-IsCut}
use urban_goggles.Server.Blast.{IsCascade, get_blast_radius-IsCascade}
use urban_goggles.Tests.Decimals.{Decimal, decimals}
use urban_goggles.Tests.Queues.{listed}
use urban_goggles.Tests.Server.{server, server-IsRedis, plain, matching}
use urban_goggles.Tests.Cascades.{graph, engine, impact}

abbrev redis : Redis
redis = server (DelayState Decimal)

-- No key has a sorted set, and none can be written.
abbrev no_sets : SortedSets redis
no_sets = record {
  zrange_by_score = λ db k low high limit. (ok [], db);
  zremove = λ db k m. (ok false, db);
  set_existing = λ db k v. (err tt, db);
  exec = λ db cs. (some tt, db);
  scored = λ db k m. none;
}

nothing :
    (ms : List Text) (reply : Reply (Unit {0}) (List Text))
    → reply ≡ ok []
    → reply ≡ ok ms
    → [] ≡ ms
nothing ms reply e h = ground (arith, e, h)

no_sets-IsSortedSets : IsSortedSets no_sets
no_sets-IsSortedSets = record {
  range_reads = λ db k j low high limit. refl;
  range_scores = λ db k j m low high limit. refl;
  range_sound =
      λ db k m low high limit ms h at. elim (subst (Memᴰ m) (sym (nothing ms _ refl h)) at) [ ];
  range_complete = λ db k m low high ms s h found between. absurd (ground (arith, found));
  range_distinct = λ db k low high limit ms h. subst IsDistinctList (nothing ms _ refl h) tt;
  remove_reply = λ db k m b h. ground (arith, h);
  remove_scores = λ db k m j n b h. ground arith;
  remove_shrinks = λ db k m j n. inl refl;
  remove_holds = λ db k m j. refl;
  set_existing_holds = λ db k j v b h. absurd (ground (arith, h));
  exec_holds = λ db cs j h. absurd (ground (arith, h));
  exec_scores = λ db cs j m h. absurd (ground (arith, h));
  exec_keeps = λ db cs j m h. (refl, refl);
  get_scores = λ db k j m. refl;
}

abbrev requested : PropagationEngine
requested = record {
  float = decimals;
  redis = redis;
  sets = no_sets;
  states = plain (DelayState Decimal);
  observations = engine.observations;
  outcomes = engine.outcomes;
  heap = listed Decimal;
  graph = graph;
  headways = none;
  has_state = false;
  has_stop_hist = false;
  agency_id = codes "mta";
  cfg = engine.cfg;
}

abbrev late : Text → Text → Text → ℕ → DelayState Decimal
late trip route stop delay = record {
  agency_id = codes "mta";
  trip_id = trip;
  route_id = route;
  stop_id = stop;
  delay_seconds = pos delay;
  observed_at = pos 1700000000;
  confidence = (pos 1, 0);
  update_count = pos 1;
}

abbrev db : Map Text (DelayState Decimal)
db =
    (codes "delay:mta:T9:G", late (codes "T9") (codes "9") (codes "G") 700)
    ∷ (codes "delay:mta:T7:E", late (codes "T7") (codes "7") (codes "E") 300)
    ∷ []

glob_free : IsGlobFree (agency_prefix (codes "mta"))
unfolding exists_in
glob_free = ground arith

abbrev routes : Map Text (List (StopDelay Decimal))
routes =
    (
      codes "9",
      record {
        stop_id = codes "G";
        stop_name = codes "G";
        delay_seconds = pos 700;
        confidence = (pos 1, 0);
      }
          ∷ [],
    )
    ∷ (
      codes "7",
      record {
        stop_id = codes "E";
        stop_name = codes "E";
        delay_seconds = pos 300;
        confidence = (pos 1, 0);
      }
          ∷ [],
    )
    ∷ []

network : (get_network_state requested (λ x. x) db).0 ≡ ok routes
unfolding get_network_state get_all_active_delays matching keep_if starts_with before_byte lookup
    text_eq insert parent_station parent_station_id abs32
network = refl

get_network_state-IsNetwork_example : IsNetwork requested (λ x. x) db routes
get_network_state-IsNetwork_example =
    get_network_state-IsNetwork requested (λ x. x) (server-IsRedis (DelayState Decimal)) glob_free
      db network

abbrev on_route_9 : AlertFilter
on_route_9 = record { route_ids = codes "9" ∷ []; station_ids = [] }

-- The second send fails.
streamed :
    stream_alerts on_route_9
      (λ i. nat_eq i 3)
      0
      (impact
        ∷ record impact { to_route_id = codes "9" }
        ∷ impact
        ∷ record impact { from_route_id = codes "9" }
        ∷ [])
    ≡ record impact { to_route_id = codes "9" } ∷ []
unfolding stream_alerts exists_in text_eq
streamed = refl

stream_alerts-IsCut_example :
    IsCut on_route_9
      (λ i. nat_eq i 3)
      0
      (impact ∷ record impact { to_route_id = codes "9" } ∷ [])
      (stream_alerts on_route_9
        (λ i. nat_eq i 3)
        0
        (impact ∷ record impact { to_route_id = codes "9" } ∷ []))
stream_alerts-IsCut_example =
    stream_alerts-IsCut on_route_9 (λ i. nat_eq i 3) 0
      (impact ∷ record impact { to_route_id = codes "9" } ∷ [])

get_blast_radius-IsCascade_example :
    All
      (IsCascade requested (λ route i. pos 1700000000) db (codes "G") (codes "9" ∷ []))
      (get_blast_radius requested (λ route i. pos 1700000000) db (codes "G")).0
unfolding parent_station_id parent_station get_routes_at_stop lookup text_eq
get_blast_radius-IsCascade_example =
    get_blast_radius-IsCascade requested (server-IsRedis (DelayState Decimal)) no_sets-IsSortedSets
      glob_free (λ route i. pos 1700000000) db (codes "G")

pair_in-history_key_example :
    pair_in (split_n b':' 5 (history_key (codes "6") (codes "7") (codes "D") (pos 8)))
    ≡ some (codes "6", codes "7")
pair_in-history_key_example =
    pair_in-history_key (codes "6") (codes "7") (codes "D") 8 (ground arith) (ground arith)
      (ground arith) (omega arith)
