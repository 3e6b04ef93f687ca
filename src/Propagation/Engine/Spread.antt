-- ===== src/Propagation/Engine/Spread.antt =====
-- The walk of the engine against the places that an impact's delay can reach.
use mathlib.Core.Path.{subst}
use mathlib.Core.Option.{some-injective}
use urban_goggles.Base.{
  ℕ, zero, suc, ℤ, pos, ltb_ℤ, leb_ℤ, wrap32-eq_of_InInt32, InInt32, ◌≤ℤ◌, Text, Text_eq, ◌==◌,
  Bool, true, false, ◌&&◌, Option, some, ◌≡◌, refl, arith, All, All-map, Map, lookup, Bool-cases,
  Option-cases, inl, inr, pos_part, quot, rem,
}
use urban_goggles.Transit.{TransferImpact, DownstreamImpact}
use urban_goggles.Graph.{Transfer, read_or, parent_station_id}
use urban_goggles.External.Heap.{IsHeap}
use urban_goggles.Propagation.Engine.{
  PropagationEngine, QueueItem, Walk, less, cascade_transfer, cascade_dwell, dwell_increase,
  derive_direction, seed_item, snapshot_live_delays,
}
use urban_goggles.Propagation.Engine.Queue.{pop-All, empty-All}
use urban_goggles.Propagation.Engine.Seeds.{seed_downstream-All, propagate_transfers-All}
use urban_goggles.Propagation.Engine.Loop.{
  carried_delay, cascade_item, propagate_transfers, ripple, expand, item_key, impact_of,
  next_unvisited, visit, walk_loop,
}
use urban_goggles.Propagation.Engine.Predict.{
  first_direction, detected_tod, seeded, run_walk, propagate,
}
use urban_goggles.Propagation.Engine.Reach.{IsReached, IsReached-hops}

-- A delay is only carried to another route.
carried_delay-other :
    (e : PropagationEngine) (now : ℤ) (live : Map Text ℤ) (tod hour : ℤ) (visited : Map Text Bool)
    (source_route : Text) (delay : ℤ) (parent_conf : e.float.F) (parent_hops : ℤ) (xfer : Transfer)
    (to_route : Text) (new_delay : ℤ)
    → carried_delay e now live tod hour visited source_route delay parent_conf parent_hops xfer
        to_route
      ≡ some new_delay
    → (to_route == source_route) ≡ false
unfolding carried_delay
carried_delay-other e now live tod hour visited source_route delay parent_conf parent_hops xfer
      to_route new_delay h =
    ground (arith, h)

module _ (e : PropagationEngine) (laws : IsHeap less e.heap) (now : ℤ)
    (impact : TransferImpact) where
  -- The item's place can be reached with its hops.
  abbrev pub Placed : QueueItem e.float.F → Type 0
  Placed item =
      IsReached e now impact item.route_id (parent_station_id e.graph item.stop_id) item.hops

  tod : ℤ
  tod = detected_tod e now impact

  module _ (live : Map Text ℤ) (hour : ℤ) where
    transfers-Placed :
        (item : QueueItem e.float.F) (visited : Map Text Bool) (q : e.heap.Queue)
        → ltb_ℤ item.hops e.cfg.max_depth ≡ true
        → Placed item
        → All Placed (e.heap.items q)
        → All Placed (
            e.heap.items (
              propagate_transfers e now live tod hour visited item.route_id item.delay
                item.confidence item.hops
                (parent_station_id e.graph item.stop_id)
                q))
    unfolding cascade_item
    transfers-Placed item visited q shallow placed all =
        propagate_transfers-All e laws now Placed live tod hour visited item.route_id item.delay
          item.confidence item.hops _ q
          (λ xfer to_route m n new_delay carried.
            IsReached.transfer xfer to_route placed shallow m n (
              carried_delay-other e now live tod hour visited item.route_id item.delay
                item.confidence item.hops xfer to_route new_delay carried))
          all

    ripple-Placed :
        (item : QueueItem e.float.F) (q : e.heap.Queue) (db : e.redis.Db)
        → Placed item
        → All Placed (e.heap.items q)
        → All Placed (
            e.heap.items
              (ripple e now live tod hour item (parent_station_id e.graph item.stop_id) (q, db)).0)
    unfolding ripple tod seed_item
    ripple-Placed item q db placed all = elim (Bool-cases (item.impact_type == cascade_transfer)) [
      | inr other ↦ rw (ripple, other) all
      | inl cascade ↦
          elim (Option-cases
            (derive_direction e now item.route_id (parent_station_id e.graph item.stop_id) tod)) [
              | inl unknown ↦ rw (ripple, cascade, unknown) all
              | inr (dir, known) ↦
                  rw (ripple, cascade, known)
                    (seed_downstream-All e laws now Placed hour item.route_id dir item.confidence
                      item.hops cascade_dwell _ item.delay q db
                      (λ st m delay conf. IsReached.onward st dir placed known m) all)
            ]
    ]

    expand-Placed :
        (item : QueueItem e.float.F) (w : Walk e)
        → Placed item
        → All Placed (e.heap.items w.pq)
        → All Placed (
            e.heap.items
              (expand e now live tod hour item (parent_station_id e.graph item.stop_id) w).pq)
    unfolding expand
    expand-Placed item w placed all =
        elim (Bool-cases
          (ltb_ℤ item.hops e.cfg.max_depth && leb_ℤ e.cfg.min_delay_threshold item.delay)) [
            | inr stop ↦ rw (expand, stop) all
            | inl go ↦
                rw (expand, go)
                  (ripple-Placed item _ w.db placed
                    (transfers-Placed item w.visited w.pq (ground (arith, go)) placed all))
          ]

    abbrev WherePlaced : Option (QueueItem e.float.F) × e.heap.Queue → Type 0
    WherePlaced next =
        All Placed (e.heap.items next.1)
        × ((item : QueueItem e.float.F) → next.0 ≡ some item → Placed item)

    next_unvisited-Placed :
        (fuel : ℕ) (visited : Map Text Bool) (q : e.heap.Queue)
        → All Placed (e.heap.items q)
        → WherePlaced (next_unvisited e now live tod hour fuel visited q)
    unfolding next_unvisited
    next_unvisited-Placed zero visited q all = (all, λ item h. absurd (ground (arith, h)))
    next_unvisited-Placed (suc fuel) visited q all = elim (Option-cases (e.heap.pop q)) [
      | inl empty ↦ rw (next_unvisited, empty) (all, λ item' h. absurd (ground (arith, h)))
      | inr ((item, q'), popped) ↦
          let both = pop-All laws Placed q q' item popped all in
          elim (Bool-cases (read_or false (lookup (item_key e now live tod hour item) visited))) [
            | inl seen ↦
                rw (next_unvisited, popped, seen) (next_unvisited-Placed fuel visited q' both.1)
            | inr fresh ↦
                rw (next_unvisited, popped, fresh)
                  (both.1, λ item' h. subst Placed (some-injective item item' h) both.0)
          ]
    ]

    -- The impact is that of a placed item.
    abbrev FromPlaced : DownstreamImpact e.float.F → Type 0
    FromPlaced imp =
        (item : QueueItem e.float.F) × Placed item × (imp ≡ impact_of e now live tod hour item)

    walk_loop-FromPlaced :
        (left : ℕ) (w : Walk e)
        → All Placed (e.heap.items w.pq)
        → All FromPlaced (walk_loop e now live tod hour left w).0
    unfolding walk_loop visit
    walk_loop-FromPlaced zero w all = tt
    walk_loop-FromPlaced (suc left) w all =
        let next = next_unvisited e now live tod hour (e.heap.size w.pq) w.visited w.pq in
        let placed = next_unvisited-Placed (e.heap.size w.pq) w.visited w.pq all in
        elim (Option-cases next.0) [
          | inl nothing ↦ rw (walk_loop, nothing) tt
          | inr (item, got) ↦
              let here = placed.1 item got in
              rw (walk_loop, got)
                (
                  (item, here, refl),
                  walk_loop-FromPlaced left _ (expand-Placed item _ here placed.0),
                )
        ]

  -- What an impact of a result is, where the depth is an int32 and at least one.
  abbrev pub Reported : DownstreamImpact e.float.F → Type 0
  Reported imp =
      IsReached e now impact imp.route_id imp.stop_id imp.hops_from_source
      × (pos 1 ≤ℤ imp.hops_from_source)
      × (imp.hops_from_source ≤ℤ e.cfg.max_depth)

  placed-Reported :
      (live : Map Text ℤ) (hour : ℤ)
      → pos 1 ≤ℤ e.cfg.max_depth
      → InInt32 e.cfg.max_depth
      → (imp : DownstreamImpact e.float.F) → FromPlaced live hour imp
      → Reported imp
  unfolding impact_of
  placed-Reported live hour deep bound imp (item, placed, same) =
      let range = IsReached-hops deep (ground (arith, bound)) placed in
      let narrow = wrap32-eq_of_InInt32 item.hops (ground (arith, range, bound)) in
      rw same (rw narrow (placed, range.0, range.1))

  seeded-Placed :
      (initial_delay hour : ℤ) (db : e.redis.Db)
      → All Placed (e.heap.items (seeded e now impact initial_delay hour db).pq)
  unfolding seeded seed_item
  seeded-Placed initial_delay hour db =
      seed_downstream-All e laws now Placed hour impact.to_route_id (first_direction e now impact)
        (e.float.lit 1 0) (pos 1) dwell_increase impact.station_id initial_delay e.heap.empty db
        (λ st m delay conf. IsReached.first st m) (empty-All laws Placed)

  -- Where the engine's depth is an int32 and at least one, every impact of a result is at a place
  -- that the delay can reach, from the transfer down the receiving route, by transfers to other
  -- routes and on down those, in the reported number of hops, which lies between one and the depth.
  pub propagate-Reported :
      (db : e.redis.Db)
      → pos 1 ≤ℤ e.cfg.max_depth
      → InInt32 e.cfg.max_depth
      → All Reported (propagate e now impact db).0.impacts
  unfolding propagate run_walk tod
  propagate-Reported db deep bound =
      let live = (snapshot_live_delays e now db).0 in
      let hour = rem (quot tod 3600) 24 in
      All-map (FromPlaced live hour) Reported _ (placed-Reported live hour deep bound)
        (walk_loop-FromPlaced live hour (pos_part e.cfg.max_impacts) _ (seeded-Placed _ hour _))
