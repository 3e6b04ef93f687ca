-- ===== src/Propagation/Engine/Readings.antt =====
-- A propagation only reads the server.
use urban_goggles.Base.{
  ℕ, zero, suc, ◌+◌, ℤ, ltb_ℤ, leb_ℤ, Text, Text_eq, ◌==◌, Bool-cases, Option-cases, ◌&&◌, ◌||◌,
  List, [], ◌∷◌, Map, inl, inr,
}
use urban_goggles.Transit.{TransferImpact}
use urban_goggles.External.Reads.{Reads, ranges}
use urban_goggles.Graph.{ScheduledStopTime}
use urban_goggles.State.Listing.{get_all_active_delays-Reads}
use urban_goggles.Propagation.History.{get_average_impact}
use urban_goggles.Propagation.StopImpact.{get_average_stop_impact}
use urban_goggles.Propagation.Engine.{
  PropagationEngine, QueueItem, Walk, cascade_transfer, derive_direction, snapshot_live_delays,
  blend_per_stop, seed_loop, seed_stops, seed_downstream, more_dwell, confidence_at,
}
use urban_goggles.Propagation.Engine.Loop.{ripple, expand, next_unvisited, visit, walk_loop}
use urban_goggles.Propagation.Engine.Predict.{seeded, run_walk, propagate}

module _ (e : PropagationEngine) (now : ℤ) (origin : e.redis.Db) where
  -- What was read of the server at the origin.
  abbrev From : e.redis.Db → Type 0
  From db = Reads e.sets origin db

  snapshot-From : (db : e.redis.Db) → From db → From (snapshot_live_delays e now db).1
  unfolding snapshot_live_delays
  snapshot-From db t = elim (Bool-cases e.has_state) [
    | inl with_state ↦
        rw (snapshot_live_delays, with_state)
          (get_all_active_delays-Reads e.float e.sets e.states e.agency_id t)
    | inr without ↦ rw (snapshot_live_delays, without) t
  ]

  blend-From :
      (db : e.redis.Db) (hour : ℤ) (route_id stop_id : Text) (delay : ℤ)
      → From db
      → From (blend_per_stop e now db hour route_id stop_id delay).1
  unfolding blend_per_stop get_average_stop_impact
  blend-From db hour route_id stop_id delay t = elim (Bool-cases e.has_stop_hist) [
    | inl with_history ↦ rw (blend_per_stop, with_history) (ranges _ _ _ _ t)
    | inr without ↦ rw (blend_per_stop, without) t
  ]

  module _ (hour : ℤ) (route_id : Text) (direction_id : ℤ) (base_conf : e.float.F) (hops : ℤ)
      (impact_type : Text) where
    seed_loop-From :
        (stops : List ScheduledStopTime) (i : ℕ) (accumulated : ℤ) (q : e.heap.Queue)
        (db : e.redis.Db)
        → From db
        → From
            (seed_loop e now hour route_id direction_id base_conf hops impact_type stops i
              accumulated
              (q, db)).1
    unfolding seed_loop
    seed_loop-From [] i accumulated q db t = t
    seed_loop-From (st ∷ rest) i accumulated q db t =
        let accumulated' = more_dwell e now accumulated in
        let conf = confidence_at e now base_conf i in
        elim (Bool-cases
          (e.float.ltf conf e.cfg.min_confidence || ltb_ℤ accumulated' e.cfg.min_delay_threshold)) [
            | inl stop ↦ rw (seed_loop, stop) t
            | inr go ↦
                rw (seed_loop, go)
                  (seed_loop-From rest (i + 1) accumulated' _ _
                    (blend-From db hour route_id st.stop_id accumulated' t))
          ]

    seed_stops-From :
        (stops : List ScheduledStopTime) (start_delay : ℤ) (q : e.heap.Queue) (db : e.redis.Db)
        → From db
        → From
            (seed_stops e now hour route_id direction_id base_conf hops impact_type stops
              start_delay
              (q, db)).1
    unfolding seed_stops
    seed_stops-From [] start_delay q db t = t
    seed_stops-From (st ∷ rest) start_delay q db t = seed_loop-From rest 1 start_delay _ db t

    seed_downstream-From :
        (station_id : Text) (start_delay : ℤ) (q : e.heap.Queue) (db : e.redis.Db)
        → From db
        → From
            (seed_downstream e now hour route_id direction_id base_conf hops impact_type station_id
              start_delay
              (q, db)).1
    unfolding seed_downstream
    seed_downstream-From station_id start_delay q db t = seed_stops-From _ start_delay q db t

  module _ (live : Map Text ℤ) (tod hour : ℤ) where
    ripple-From :
        (item : QueueItem e.float.F) (parent_id : Text) (q : e.heap.Queue) (db : e.redis.Db)
        → From db
        → From (ripple e now live tod hour item parent_id (q, db)).1
    unfolding ripple
    ripple-From item parent_id q db t = elim (Bool-cases (item.impact_type == cascade_transfer)) [
      | inr dwell ↦ rw (ripple, dwell) t
      | inl transfer ↦ elim (Option-cases (derive_direction e now item.route_id parent_id tod)) [
        | inl unknown ↦ rw (ripple, transfer, unknown) t
        | inr (dir, known) ↦
            rw (ripple, transfer, known) (seed_downstream-From hour _ _ _ _ _ parent_id _ q db t)
      ]
    ]

    expand-From :
        (item : QueueItem e.float.F) (parent_id : Text) (w : Walk e)
        → From w.db
        → From (expand e now live tod hour item parent_id w).db
    unfolding expand
    expand-From item parent_id w t =
        elim (Bool-cases
          (ltb_ℤ item.hops e.cfg.max_depth && leb_ℤ e.cfg.min_delay_threshold item.delay)) [
            | inl on ↦ rw (expand, on) (ripple-From item parent_id _ w.db t)
            | inr over ↦ rw (expand, over) t
          ]

    walk_loop-From :
        (left : ℕ) (w : Walk e) → From w.db → From (walk_loop e now live tod hour left w).1.db
    unfolding walk_loop visit
    walk_loop-From zero w t = t
    walk_loop-From (suc left) w t =
        let found = next_unvisited e now live tod hour (e.heap.size w.pq) w.visited w.pq in
        elim (Option-cases found.0) [
          | inl ended ↦ rw (walk_loop, ended) t
          | inr (item, next) ↦
              rw (walk_loop, next)
                (walk_loop-From left (visit e now live tod hour item found.1 w)
                  (expand-From item _ _ t))
        ]

  run_walk-From :
      (impact : TransferImpact) (db : e.redis.Db) → From db → From (run_walk e now impact db).1.db
  unfolding run_walk seeded get_average_impact
  run_walk-From impact db t =
      walk_loop-From _ _ _ _ _
        (seed_downstream-From _ _ _ _ _ _ _ _ _ _ (ranges _ _ _ _ (snapshot-From db t)))

  pub propagate-From :
      (impact : TransferImpact) (db : e.redis.Db) → From db → From (propagate e now impact db).1
  unfolding propagate
  propagate-From impact db t = run_walk-From impact db t
