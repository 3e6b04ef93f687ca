-- ===== src/Server.antt =====
-- The requests of internal/server/handlers.go. The service holds the graph, the state manager and
-- the agency of its engine. `to_float32` stands for Go's conversion of a float64; the service's
-- metrics and logging are left out. A Go map is met in the order of the list.
pub mod Network
pub mod Reliability
pub mod Streams
pub mod Blast
use urban_goggles.Base.{
  ℕ, ◌+◌, ℤ, pos, ltb_ℤ, Text, Text_eq, is_empty, not, ◌==◌, ◌&&◌, ◌||◌, Bool, true, false, Option,
  none, some, List, [], ◌∷◌, ◌++◌, map, Map, lookup, insert, exists_in, if◌then◌else◌,
}
use urban_goggles.External.Redis.{Reply, ok, err}
use urban_goggles.Transit.{TransferImpact, at_risk, PropagationResult}
use urban_goggles.Graph.{TransitGraph, read_or, parent_station_id, get_routes_at_stop}
use urban_goggles.Graph.Build.{append_row}
use urban_goggles.State.{DelayState, Failure, get_delay}
use urban_goggles.State.Listing.{get_route_delays, get_all_active_delays}
use urban_goggles.Propagation.Engine.{PropagationEngine}
use urban_goggles.Propagation.Engine.Predict.{propagate}

pub record StopDelay (F32 : Type 0) : Type 0 where
  pub stop_id : Text
  pub stop_name : Text
  pub delay_seconds : ℤ
  pub confidence : F32

module _ {F F32 : Type 0} (to_float32 : F → F32) (g : TransitGraph) where
  -- The stop's own name, or its station's, or its id.
  unfoldable pub stop_name : Text → Text
  stop_name stop_id = elim (lookup stop_id g.stops) [
    | some stop ↦ stop.name
    | none ↦ elim (lookup (parent_station_id g stop_id) g.stops) [
      | some stop ↦ stop.name
      | none ↦ stop_id
    ]
  ]

  unfoldable pub stop_delay : DelayState F → StopDelay F32
  unfolding stop_name
  stop_delay d = record {
    stop_id = d.stop_id;
    stop_name = stop_name d.stop_id;
    delay_seconds = d.delay_seconds;
    confidence = to_float32 d.confidence;
  }

  -- The delays by route, in the order that they are listed.
  unfoldable pub by_route :
      List (DelayState F) → Map Text (List (StopDelay F32)) → Map Text (List (StopDelay F32))
  unfolding stop_delay append_row
  by_route [] routes = routes
  by_route (d ∷ ds) routes = by_route ds (append_row d.route_id (stop_delay d) routes)

module _ (e : PropagationEngine) {F32 : Type 0} (to_float32 : e.float.F → F32) where
  -- For one route, a stop that the graph does not know is named by its id.
  unfoldable pub route_stop_delay : DelayState e.float.F → StopDelay F32
  route_stop_delay d = record {
    stop_id = d.stop_id;
    stop_name = elim (lookup d.stop_id e.graph.stops) [ none ↦ d.stop_id | some stop ↦ stop.name ];
    delay_seconds = d.delay_seconds;
    confidence = to_float32 d.confidence;
  }

  unfoldable pub route_delays_response :
      e.redis.Db → Text → Reply e.redis.Error (List (StopDelay F32)) × e.redis.Db
  unfolding route_stop_delay
  route_delays_response db route_id =
      let (reply, db') = get_route_delays e.float e.redis e.states db e.agency_id route_id in
      elim reply [
        | err failed ↦ (err failed, db')
        | ok delays ↦ (ok (map route_stop_delay delays), db')
      ]

  unfoldable pub get_network_state :
      e.redis.Db → Reply e.redis.Error (Map Text (List (StopDelay F32))) × e.redis.Db
  unfolding by_route
  get_network_state db =
      let (reply, db') = get_all_active_delays e.float e.redis e.states db e.agency_id in
      elim reply [
        | err failed ↦ (err failed, db')
        | ok delays ↦ (ok (by_route to_float32 e.graph delays []), db')
      ]

-- An empty filter asks for nothing.
unfoldable pub matches_filter : TransferImpact → List Text → List Text → Bool
matches_filter impact routes stations =
    exists_in (λ r. impact.from_route_id == r || impact.to_route_id == r) routes
    || exists_in (λ s. impact.station_id == s) stations

pub record AlertFilter : Type 0 where
  pub route_ids : List Text
  pub station_ids : List Text

unfoldable pub has_filter : AlertFilter → Bool
has_filter req = elim req.route_ids [
  | [] ↦ elim req.station_ids [ [] ↦ false | _ ∷ _ ↦ true ]
  | _ ∷ _ ↦ true
]

-- `failed i` says that the client is gone as impact i of the channel is sent. The list are the
-- impacts that the channel yields before the client's context is done or the channel closed; the
-- result those that were sent, the failed one not.
unfoldable pub stream_alerts :
    AlertFilter → (ℕ → Bool) → ℕ → List TransferImpact → List TransferImpact
unfolding has_filter matches_filter
stream_alerts req failed i [] = []
stream_alerts req failed i (impact ∷ rest) =
    let later = stream_alerts req failed (i + 1) rest in
    if has_filter req && not (matches_filter impact req.route_ids req.station_ids)
    then later
    else if failed i
    then []
    else impact ∷ later

module _ (e : PropagationEngine) where
  unfoldable pub synthetic_detected_at : ℤ → ℤ → ℤ
  synthetic_detected_at now observed_at = if ltb_ℤ (pos 0) observed_at then observed_at else now

  -- A delayed train carries its delay down its own line.
  unfoldable pub synthetic_impact : ℤ → Text → Text → Text → DelayState e.float.F → TransferImpact
  unfolding synthetic_detected_at
  synthetic_impact now trip_id route_id station d = record {
    from_trip_id = trip_id;
    from_route_id = route_id;
    to_route_id = route_id;
    station_id = station;
    source_delay_seconds = d.delay_seconds;
    original_transfer_margin_seconds = pos 0;
    remaining_margin_seconds = pos 0;
    level = at_risk;
    detected_at = synthetic_detected_at now d.observed_at;
    next_viable_trip_id = trip_id;
    additional_wait_seconds = pos 0;
    sched_connection_departure_secs = pos 0;
    earliest_catch_secs = pos 0;
  }

  unfoldable pub predict_impact :
      ℤ
      → e.redis.Db
      → Text
      → Text
      → Reply (Failure e.redis.Error) (PropagationResult e.float.F) × e.redis.Db
  unfolding synthetic_impact
  predict_impact now db trip_id stop_id =
      let station = parent_station_id e.graph stop_id in
      let (reply, db') =
        get_delay e.float e.redis e.states e.graph db e.agency_id trip_id stop_id in
      elim reply [
        | err failed ↦ (err failed, db')
        | ok none ↦
            let nothing : PropagationResult e.float.F = record {
              source_trip_id = trip_id;
              source_stop_id = station;
              source_delay_seconds = pos 0;
              computed_at = now;
              impacts = [];
            } in
            (ok nothing, db')
        | ok (some delay) ↦
            let route = read_or [] (lookup trip_id e.graph.trip_route) in
            let (result, db'') =
              propagate e now (synthetic_impact now trip_id route station delay) db' in
            (ok result, db'')
      ]

  -- The cascades of a route's delays; `clock i` is the reading for the i-th of them.
  unfoldable pub cascades_of :
      (ℕ → ℤ)
      → ℕ
      → Text
      → Text
      → List (DelayState e.float.F)
      → e.redis.Db
      → List (PropagationResult e.float.F) × e.redis.Db
  unfolding synthetic_impact
  cascades_of clock i station route [] db = ([], db)
  cascades_of clock i station route (d ∷ ds) db =
      elim (parent_station_id e.graph d.stop_id == station) [
        | false ↦ cascades_of clock (i + 1) station route ds db
        | true ↦
            let (result, db1) =
              propagate e (clock i) (synthetic_impact (clock i) d.trip_id route station d) db in
            let (more, db2) = cascades_of clock (i + 1) station route ds db1 in
            (elim result.impacts [ [] ↦ more | _ ∷ _ ↦ result ∷ more ], db2)
      ]

  unfoldable pub blast_loop :
      (Text → ℕ → ℤ)
      → Text
      → List Text
      → e.redis.Db
      → List (PropagationResult e.float.F) × e.redis.Db
  unfolding cascades_of
  blast_loop clock station [] db = ([], db)
  blast_loop clock station (route ∷ routes) db =
      let (reply, db1) = get_route_delays e.float e.redis e.states db e.agency_id route in
      elim reply [
        | err _ ↦ blast_loop clock station routes db1
        | ok delays ↦
            let (out, db2) = cascades_of (clock route) 0 station route delays db1 in
            let (more, db3) = blast_loop clock station routes db2 in (out ++ more, db3)
      ]

  unfoldable pub get_blast_radius :
      (Text → ℕ → ℤ) → e.redis.Db → Text → List (PropagationResult e.float.F) × e.redis.Db
  unfolding blast_loop
  get_blast_radius clock db station_id =
      let station = parent_station_id e.graph station_id in
      blast_loop clock station (get_routes_at_stop e.graph station) db
