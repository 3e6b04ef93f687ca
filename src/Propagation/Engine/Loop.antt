-- ===== src/Propagation/Engine/Loop.antt =====
-- The walk of internal/propagation/engine.go: `propagateTransfers` and the loop of `Propagate`.
use urban_goggles.Base.{
  ℕ, zero, suc, ℤ, pos, ltb_ℤ, leb_ℤ, add64, wrap32, Text, Text_eq, ◌==◌, Bool, true, false, ◌&&◌,
  Option, none, some, List, [], ◌∷◌, Map, lookup, insert, if◌then◌else◌,
}
use urban_goggles.Transit.{DownstreamImpact}
use urban_goggles.Graph.{
  Transfer, read_or, parent_station_id, get_routes_at_stop, get_transfers_from,
}
use urban_goggles.Propagation.Engine.{
  PropagationEngine, QueueItem, Walk, stop_key, cascade_transfer, cascade_dwell, derive_direction,
  seed_downstream,
}

module _ (e : PropagationEngine) (now : ℤ) where
  module _ (live : Map Text ℤ) (tod hour : ℤ) where
    module _ (visited : Map Text Bool) (source_route : Text) (delay : ℤ) (parent_conf : e.float.F)
        (parent_hops : ℤ) where
      -- The delay that a connecting route takes over; the test of `propagateTransfers` on one route
      -- fails with `none`.
      unfoldable pub carried_delay : Transfer → Text → Option ℤ
      carried_delay xfer to_route =
          let f = e.float in
          let dest = stop_key to_route (parent_station_id e.graph xfer.to_stop_id) in
          let min_xfer =
            if leb_ℤ xfer.min_transfer_time (pos 0) then pos 120 else xfer.min_transfer_time in
          let new_delay = f.trunc_int32 (f.mul (f.of_int delay) e.cfg.dwell_elasticity) in
          if to_route == source_route
          then none
          else if read_or false (lookup dest visited)
          then none
          else if ltb_ℤ delay (add64 min_xfer (read_or (pos 0) (lookup dest live)))
          then none
          else if f.ltf (f.mul parent_conf e.cfg.confidence_decay) e.cfg.min_confidence
          then none
          else if ltb_ℤ new_delay e.cfg.min_delay_threshold
          then none
          else some new_delay

      unfoldable pub cascade_item : Transfer → Text → ℤ → QueueItem e.float.F
      cascade_item xfer to_route new_delay = record {
        route_id = to_route;
        stop_id = xfer.to_stop_id;
        delay = new_delay;
        confidence = e.float.mul parent_conf e.cfg.confidence_decay;
        hops = add64 parent_hops (pos 1);
        impact_type = cascade_transfer;
        direction_id = pos 0;
      }

      unfoldable pub push_routes : Transfer → List Text → e.heap.Queue → e.heap.Queue
      unfolding carried_delay cascade_item
      push_routes xfer [] q = q
      push_routes xfer (to_route ∷ rest) q = elim (carried_delay xfer to_route) [
        | none ↦ push_routes xfer rest q
        | some new_delay ↦
            push_routes xfer rest (e.heap.push (cascade_item xfer to_route new_delay) q)
      ]

      unfoldable pub push_transfers : List Transfer → e.heap.Queue → e.heap.Queue
      unfolding push_routes
      push_transfers [] q = q
      push_transfers (xfer ∷ rest) q =
          push_transfers rest (push_routes xfer (get_routes_at_stop e.graph xfer.to_stop_id) q)

      unfoldable pub propagate_transfers : Text → e.heap.Queue → e.heap.Queue
      unfolding push_transfers
      propagate_transfers station_id q = push_transfers (get_transfers_from e.graph station_id) q

    -- A cascade onto a new route goes on down that route.
    unfoldable pub ripple :
        QueueItem e.float.F → Text → e.heap.Queue × e.redis.Db → e.heap.Queue × e.redis.Db
    ripple item parent_id s =
        if item.impact_type == cascade_transfer
        then elim (derive_direction e now item.route_id parent_id tod) [
          | none ↦ s
          | some dir ↦
              seed_downstream e now hour item.route_id dir item.confidence item.hops cascade_dwell
                parent_id item.delay s
        ]
        else s

    -- What the loop does after it has appended the impact of an item.
    unfoldable pub expand : QueueItem e.float.F → Text → Walk e → Walk e
    unfolding ripple
    expand item parent_id w =
        if ltb_ℤ item.hops e.cfg.max_depth && leb_ℤ e.cfg.min_delay_threshold item.delay
        then (let pq =
              propagate_transfers w.visited item.route_id item.delay item.confidence item.hops
                parent_id w.pq in
            let (q, db) = ripple item parent_id (pq, w.db) in
            record { pq = q; visited = w.visited; db = db })
        else w

    unfoldable pub item_key : QueueItem e.float.F → Text
    item_key item = stop_key item.route_id (parent_station_id e.graph item.stop_id)

    unfoldable pub impact_of : QueueItem e.float.F → DownstreamImpact e.float.F
    impact_of item = record {
      route_id = item.route_id;
      stop_id = parent_station_id e.graph item.stop_id;
      predicted_additional_delay = item.delay;
      confidence = e.float.to_float32 item.confidence;
      hops_from_source = wrap32 item.hops;
      impact_type = item.impact_type;
    }

    -- The rounds of the loop that end in `continue`, and the item of the round after them. The
    -- fuel is the size of the queue, which each round lowers.
    unfoldable pub next_unvisited :
        ℕ → Map Text Bool → e.heap.Queue → Option (QueueItem e.float.F) × e.heap.Queue
    unfolding item_key
    next_unvisited zero visited q = (none, q)
    next_unvisited (suc fuel) visited q = elim (e.heap.pop q) [
      | none ↦ (none, q)
      | some (item, q') ↦ elim (read_or false (lookup (item_key item) visited)) [
        | true ↦ next_unvisited fuel visited q'
        | false ↦ (some item, q')
      ]
    ]

    -- The walk after the round of an item, `q` being the queue that it was taken from.
    unfoldable pub visit : QueueItem e.float.F → e.heap.Queue → Walk e → Walk e
    unfolding item_key expand
    visit item q w =
        expand item (parent_station_id e.graph item.stop_id)
          (record { pq = q; visited = insert (item_key item) true w.visited; db = w.db })

    -- The loop, which ends when `left` more impacts were appended.
    unfoldable pub walk_loop : ℕ → Walk e → List (DownstreamImpact e.float.F) × Walk e
    unfolding next_unvisited visit impact_of
    walk_loop zero w = ([], w)
    walk_loop (suc left) w =
        let (next, q) = next_unvisited (e.heap.size w.pq) w.visited w.pq in
        elim next [
          | none ↦ ([], record { pq = q; visited = w.visited; db = w.db })
          | some item ↦
              let (impacts, last) = walk_loop left (visit item q w) in
              (impact_of item ∷ impacts, last)
        ]
