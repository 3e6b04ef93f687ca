-- ===== src/Propagation/Engine/Predict.antt =====
-- `estimateInitialDelay` and `Propagate` of internal/propagation/engine.go.
use urban_goggles.Base.{
  ℤ, pos, pos_part, ltb_ℤ, quot, rem, Text_eq, is_empty, not, ◌==◌, ◌&&◌, ◌||◌, Option, none, some,
  List, [], lookup, if◌then◌else◌,
}
use urban_goggles.External.Redis.{Reply, ok, err}
use urban_goggles.Transit.{TransferImpact, DownstreamImpact, PropagationResult}
use urban_goggles.Graph.{read_or, parent_station_id, secs_since_midnight}
use urban_goggles.Graph.Headway.{get_scheduled_headway}
use urban_goggles.Propagation.History.{get_average_impact}
use urban_goggles.Propagation.Engine.{
  PropagationEngine, Walk, stop_key, dwell_increase, snapshot_live_delays, seed_downstream, shrink,
}
use urban_goggles.Propagation.Engine.Loop.{walk_loop}

module _ (e : PropagationEngine) (now : ℤ) (impact : TransferImpact) where
  -- The direction of the next viable trip, 0 where it is not known.
  unfoldable pub first_direction : ℤ
  first_direction =
      if is_empty impact.next_viable_trip_id
      then pos 0
      else read_or (pos 0) (lookup impact.next_viable_trip_id e.graph.trip_direction)

  unfoldable pub detected_tod : ℤ
  detected_tod = secs_since_midnight e.graph now impact.detected_at

  -- `hw` is the scheduled headway, `none` where `hwOK` is false.
  wait_estimate : Option e.float.F → e.float.F
  wait_estimate hw =
      let f = e.float in
      let wait = f.of_int impact.additional_wait_seconds in
      let guarded : e.float.F = elim hw [
        | none ↦ wait
        | some h ↦ (let half = f.div h (f.lit 2 0) in if f.ltf wait half then half else wait)
      ] in
      if f.ltf guarded (f.lit 0 0) || f.eqf guarded (f.lit 0 0)
      then f.mul (f.mul (f.of_int impact.source_delay_seconds) e.cfg.load_increase_pct)
          e.cfg.dwell_elasticity
      else guarded

  capped_delay : Option e.float.F → ℤ → e.float.F
  capped_delay hw connecting_delay =
      let f = e.float in
      let add = f.of_int connecting_delay in
      let cap = read_or (f.lit 900 0) hw in if f.ltf cap add then cap else add

  schedule_estimate : ℤ → ℤ → e.float.F
  unfolding wait_estimate capped_delay
  schedule_estimate direction_id connecting_delay =
      let f = e.float in
      let hw =
        get_scheduled_headway f e.graph e.headways impact.to_route_id direction_id impact.station_id
          detected_tod in
      if not (is_empty impact.from_route_id) && impact.from_route_id == impact.to_route_id
      then f.of_int impact.source_delay_seconds
      else if ltb_ℤ (pos 0) connecting_delay
      then f.add (wait_estimate hw) (capped_delay hw connecting_delay)
      else wait_estimate hw

  unfoldable pub estimate_initial_delay : ℤ → ℤ → e.float.F × ℤ → ℤ
  unfolding schedule_estimate shrink
  estimate_initial_delay direction_id connecting_delay (hist_avg, hist_count) =
      shrink e now hist_count hist_avg (schedule_estimate direction_id connecting_delay)

  -- What `GetAverageImpact` returns besides its error, which the caller drops.
  unfoldable pub history_of : Reply e.redis.Error (e.float.F × ℤ) → e.float.F × ℤ
  history_of (err _) = (e.float.lit 0 0, pos 0)
  history_of (ok (avg, count)) = (avg, count)

  -- The walk once its queue is seeded.
  unfoldable pub seeded : ℤ → ℤ → e.redis.Db → Walk e
  seeded initial_delay hour db =
      let (q, db') =
        seed_downstream e now hour impact.to_route_id first_direction (e.float.lit 1 0) (pos 1)
          dwell_increase impact.station_id initial_delay (e.heap.empty, db) in
      record { pq = q; visited = []; db = db' }

  -- The impacts and the walk's last state.
  unfoldable pub run_walk : e.redis.Db → List (DownstreamImpact e.float.F) × Walk e
  unfolding seeded history_of
  run_walk db =
      let tod = detected_tod in
      let hour = rem (quot tod 3600) 24 in
      let station = parent_station_id e.graph impact.station_id in
      let (live, db1) = snapshot_live_delays e now db in
      let (reply, db2) =
        get_average_impact e.redis e.sets e.observations e.float db1 impact.from_route_id
          impact.to_route_id station hour now in
      let conn_delay = read_or (pos 0) (lookup (stop_key impact.to_route_id station) live) in
      let initial_delay = estimate_initial_delay first_direction conn_delay (history_of reply) in
      walk_loop e now live tod hour (pos_part e.cfg.max_impacts) (seeded initial_delay hour db2)

  unfoldable pub propagate : e.redis.Db → PropagationResult e.float.F × e.redis.Db
  propagate db =
      let (impacts, last) = run_walk db in
      (
        record {
          source_trip_id = impact.from_trip_id;
          source_stop_id = impact.station_id;
          source_delay_seconds = impact.source_delay_seconds;
          computed_at = now;
          impacts = impacts;
        },
        last.db,
      )
