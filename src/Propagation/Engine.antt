-- ===== src/Propagation/Engine.antt =====
-- internal/propagation/engine.go: the predicted spread of a broken transfer, walked from a queue
-- that yields the largest delay first. `now` is the clock's reading, in whole seconds, taken to be
-- the same throughout a call. Logging is left out.
pub mod Queue
pub mod Seeds
pub mod Spread
pub mod Loop
pub mod Predict
pub mod Reach
pub mod Walks
pub mod Readings
use urban_goggles.Base.{
  ℕ, zero, suc, ◌+◌, ℤ, pos, pos_part, ltb_ℤ, leb_ℤ, int_eq, quot, rem, add32, add64, wrap32, Text,
  Text_eq, codes, is_empty, ◌==◌, Bool, true, false, not, ◌&&◌, ◌||◌, Option, none, some, List, [],
  ◌∷◌, ◌++◌, Map, lookup, insert, if◌then◌else◌,
}
use urban_goggles.External.Redis.{Redis, Reply, ok, err, Codec}
use urban_goggles.External.SortedSets.{SortedSets}
use urban_goggles.External.Heap.{Heap}
use urban_goggles.External.Float.{Float64}
use urban_goggles.Transit.{TransferImpact, DownstreamImpact, PropagationResult}
use urban_goggles.Graph.{
  TransitGraph, Transfer, ScheduledStopTime, read_or, parent_station_id, secs_since_midnight,
  get_routes_at_stop, get_transfers_from, get_downstream_stops, next_departures_after,
}
use urban_goggles.Graph.Headway.{get_scheduled_headway}
use urban_goggles.State.{DelayState}
use urban_goggles.State.Listing.{get_all_active_delays}
use urban_goggles.Propagation.Config.{Config}
use urban_goggles.Propagation.History.{Observation, get_average_impact}
use urban_goggles.Propagation.StopImpact.{StopOutcome, get_average_stop_impact}

-- An entry of the queue; its place in the heap is the heap's own.
pub record QueueItem (F : Type 0) : Type 0 where
  pub route_id : Text
  pub stop_id : Text
  pub delay : ℤ
  pub confidence : F
  pub hops : ℤ
  pub impact_type : Text
  pub direction_id : ℤ

-- `Less`: a larger delay comes out first.
abbrev pub less : {F : Type 0} → QueueItem F → QueueItem F → Bool
less a b = ltb_ℤ b.delay a.delay

pub record PropagationEngine : Type 1 where
  pub float : Float64
  pub redis : Redis
  pub sets : SortedSets redis
  pub states : Codec redis.Value (DelayState float.F)
  pub observations : Codec Text Observation
  pub outcomes : Codec Text StopOutcome
  pub heap : Heap (QueueItem float.F)
  pub graph : TransitGraph
  -- The graph's index of headways, `none` where it was not built.
  pub headways : Option (Map Text float.F)
  -- Whether `state` and `stopHist` are set.
  pub has_state : Bool
  pub has_stop_hist : Bool
  pub agency_id : Text
  pub cfg : Config float.F

-- The traversal's changing state; its `live`, `tod` and `hour` are parameters below.
pub record Walk (e : PropagationEngine) : Type 0 where
  pub pq : e.heap.Queue
  pub visited : Map Text Bool
  pub db : e.redis.Db

-- `routeID:parentStationID`.
abbrev pub stop_key : Text → Text → Text
stop_key route_id parent_id = route_id ++ (b':' ∷ parent_id)

abbrev pub dwell_increase : Text
dwell_increase = codes "dwell_increase"

abbrev pub cascade_transfer : Text
cascade_transfer = codes "cascade_transfer"

abbrev pub cascade_dwell : Text
cascade_dwell = codes "cascade_dwell"

module _ (e : PropagationEngine) (now : ℤ) where
  -- One round of the loop of `snapshotLiveDelays`.
  add_live : Map Text ℤ → DelayState e.float.F → Map Text ℤ
  add_live out ds =
      let key = stop_key ds.route_id (parent_station_id e.graph ds.stop_id) in
      if leb_ℤ ds.delay_seconds (pos 0)
      then out
      else if ltb_ℤ (read_or (pos 0) (lookup key out)) ds.delay_seconds
      then insert key ds.delay_seconds out
      else out

  add_all_live : Map Text ℤ → List (DelayState e.float.F) → Map Text ℤ
  unfolding add_live
  add_all_live out [] = out
  add_all_live out (ds ∷ rest) = add_all_live (add_live out ds) rest

  unfoldable pub snapshot_live_delays : e.redis.Db → Map Text ℤ × e.redis.Db
  unfolding add_all_live
  snapshot_live_delays db = elim e.has_state [
    | false ↦ ([], db)
    | true ↦
        let (reply, db') = get_all_active_delays e.float e.redis e.states db e.agency_id in
        (elim reply [ err _ ↦ [] | ok delays ↦ add_all_live [] delays ], db')
  ]

  -- The mean of observed values and a modelled one, weighted by how many were observed.
  shrink : ℤ → e.float.F → e.float.F → ℤ
  shrink count avg model =
      let f = e.float in
      let wgt = f.div (f.of_int count) (f.add (f.of_int count) (f.lit 10 0)) in
      f.round_int32 (f.add (f.mul wgt avg) (f.mul (f.sub (f.lit 1 0) wgt) model))

  blend_reply : Reply e.redis.Error (e.float.F × ℤ) → ℤ → ℤ
  unfolding shrink
  blend_reply (err _) model_delay = model_delay
  blend_reply (ok (avg, n)) model_delay =
      if ltb_ℤ n e.cfg.per_stop_min_count
      then model_delay
      else shrink n avg (e.float.of_int model_delay)

  unfoldable pub blend_per_stop : e.redis.Db → ℤ → Text → Text → ℤ → ℤ × e.redis.Db
  unfolding blend_reply
  blend_per_stop db hour route_id stop_id model_delay = elim e.has_stop_hist [
    | false ↦ (model_delay, db)
    | true ↦
        let (reply, db') =
          get_average_stop_impact e.redis e.sets e.outcomes e.float db route_id
            (parent_station_id e.graph stop_id) hour now in
        (blend_reply reply model_delay, db')
  ]

  -- `accumulated` after one more stop, and the confidence there.
  unfoldable pub more_dwell : ℤ → ℤ
  more_dwell accumulated =
      let f = e.float in
      add32 accumulated (
        f.round_int32 (
          f.mul (f.mul (f.of_int e.cfg.base_dwell_secs) e.cfg.load_increase_pct)
            e.cfg.dwell_elasticity))

  unfoldable pub confidence_at : e.float.F → ℕ → e.float.F
  confidence_at base i =
      e.float.mul base (e.float.pow e.cfg.confidence_decay (e.float.of_int (pos (i + 1))))

  module _ (hour : ℤ) (route_id : Text) (direction_id : ℤ) (base_conf : e.float.F) (hops : ℤ)
      (impact_type : Text) where
    unfoldable pub seed_item : Text → ℤ → e.float.F → QueueItem e.float.F
    seed_item stop_id delay confidence = record {
      route_id = route_id;
      stop_id = stop_id;
      delay = delay;
      confidence = confidence;
      hops = hops;
      impact_type = impact_type;
      direction_id = direction_id;
    }

    -- The loop over the stops from index `i` on.
    unfoldable pub seed_loop :
        List ScheduledStopTime → ℕ → ℤ → e.heap.Queue × e.redis.Db → e.heap.Queue × e.redis.Db
    unfolding seed_item more_dwell confidence_at
    seed_loop [] i accumulated (q, db) = (q, db)
    seed_loop (st ∷ rest) i accumulated (q, db) =
        let accumulated' = more_dwell accumulated in
        let conf = confidence_at base_conf i in
        elim (e.float.ltf conf e.cfg.min_confidence
          || ltb_ℤ accumulated' e.cfg.min_delay_threshold) [
            | true ↦ (q, db)
            | false ↦
                let (delay, db') = blend_per_stop db hour route_id st.stop_id accumulated' in
                seed_loop rest (i + 1) accumulated'
                  (e.heap.push (seed_item st.stop_id delay conf) q, db')
          ]

    unfoldable pub seed_stops :
        List ScheduledStopTime → ℤ → e.heap.Queue × e.redis.Db → e.heap.Queue × e.redis.Db
    unfolding seed_loop
    seed_stops [] start_delay (q, db) = (q, db)
    seed_stops (st ∷ rest) start_delay (q, db) =
        seed_loop rest 1 start_delay
          (e.heap.push (seed_item st.stop_id start_delay base_conf) q, db)

    unfoldable pub seed_downstream :
        Text → ℤ → e.heap.Queue × e.redis.Db → e.heap.Queue × e.redis.Db
    unfolding seed_stops
    seed_downstream station_id start_delay s =
        seed_stops (get_downstream_stops e.graph route_id station_id direction_id) start_delay s

  -- `none` is the result `ok == false`.
  unfoldable pub derive_direction : Text → Text → ℤ → Option ℤ
  derive_direction route_id station_id tod =
      elim (next_departures_after e.graph station_id route_id tod 1).0 [
        | [] ↦ none
        | dep ∷ _ ↦ lookup dep.trip_id e.graph.trip_direction
      ]
