-- ===== src/Propagation/Engine/Seeds.antt =====
-- A property of every item of the queue, kept by the engine's operations on the queue.
use mathlib.Core.List.{Memᴰ}
use urban_goggles.Base.{
  ℕ, ◌+◌, ℤ, ltb_ℤ, Text, Text_eq, Bool, ◌||◌, some, List, [], ◌∷◌, ◌≡◌, All, All-of_mem, Map,
  Bool-cases, Option-cases, inl, inr,
}
use urban_goggles.Graph.{
  Transfer, ScheduledStopTime, get_routes_at_stop, get_transfers_from, get_downstream_stops,
}
use urban_goggles.External.Heap.{IsHeap}
use urban_goggles.Propagation.Engine.{
  PropagationEngine, QueueItem, less, seed_item, seed_downstream, seed_loop, seed_stops, more_dwell,
  confidence_at, blend_per_stop,
}
use urban_goggles.Propagation.Engine.Queue.{push-All}
use urban_goggles.Propagation.Engine.Loop.{
  carried_delay, cascade_item, push_routes, push_transfers, propagate_transfers,
}

module _ (e : PropagationEngine) (laws : IsHeap less e.heap) (now : ℤ)
    (P : QueueItem e.float.F → Type 0) where
  module _ (hour : ℤ) (route_id : Text) (direction_id : ℤ) (base_conf : e.float.F) (hops : ℤ)
      (impact_type : Text) where
    -- What the property takes of a stop that is seeded.
    abbrev pub Seedable : ScheduledStopTime → Type 0
    Seedable st =
        (delay : ℤ) (conf : e.float.F)
        → P (
            seed_item e now hour route_id direction_id base_conf hops impact_type st.stop_id delay
              conf)

    seed_loop-All :
        (stops : List ScheduledStopTime) (i : ℕ) (accumulated : ℤ) (q : e.heap.Queue)
        (db : e.redis.Db)
        → All Seedable stops
        → All P (e.heap.items q)
        → All P (
            e.heap.items
              (seed_loop e now hour route_id direction_id base_conf hops impact_type stops i
                accumulated
                (q, db)).0)
    unfolding seed_loop
    seed_loop-All [] i accumulated q db seedable all = all
    seed_loop-All (st ∷ rest) i accumulated q db seedable all =
        let accumulated' = more_dwell e now accumulated in
        let conf = confidence_at e now base_conf i in
        elim (Bool-cases
          (e.float.ltf conf e.cfg.min_confidence || ltb_ℤ accumulated' e.cfg.min_delay_threshold)) [
            | inl stop ↦ rw (seed_loop, stop) all
            | inr go ↦
                let blended = blend_per_stop e now db hour route_id st.stop_id accumulated' in
                rw (seed_loop, go)
                  (seed_loop-All rest (i + 1) accumulated' _ blended.1 seedable.1
                    (push-All laws P _ q (seedable.0 blended.0 conf) all))
          ]

    seed_stops-All :
        (stops : List ScheduledStopTime) (start_delay : ℤ) (q : e.heap.Queue) (db : e.redis.Db)
        → All Seedable stops
        → All P (e.heap.items q)
        → All P (
            e.heap.items
              (seed_stops e now hour route_id direction_id base_conf hops impact_type stops
                start_delay
                (q, db)).0)
    unfolding seed_stops
    seed_stops-All [] start_delay q db seedable all = all
    seed_stops-All (st ∷ rest) start_delay q db seedable all =
        seed_loop-All rest 1 start_delay _ db seedable.1
          (push-All laws P _ q (seedable.0 start_delay base_conf) all)

    pub seed_downstream-All :
        (station_id : Text) (start_delay : ℤ) (q : e.heap.Queue) (db : e.redis.Db)
        → ((st : ScheduledStopTime)
            → Memᴰ st (get_downstream_stops e.graph route_id station_id direction_id)
            → Seedable st)
        → All P (e.heap.items q)
        → All P (
            e.heap.items
              (seed_downstream e now hour route_id direction_id base_conf hops impact_type
                station_id start_delay
                (q, db)).0)
    unfolding seed_downstream
    seed_downstream-All station_id start_delay q db seedable all =
        seed_stops-All _ start_delay q db (All-of_mem Seedable _ seedable) all

  module _ (live : Map Text ℤ) (tod hour : ℤ) (visited : Map Text Bool) (source_route : Text)
      (delay : ℤ) (parent_conf : e.float.F) (parent_hops : ℤ) where
    -- What the property takes of a route that a transfer leads to.
    abbrev pub Carried : Transfer → Text → Type 0
    Carried xfer to_route =
        (new_delay : ℤ)
        → carried_delay e now live tod hour visited source_route delay parent_conf parent_hops xfer
            to_route
          ≡ some new_delay
        → P (
            cascade_item e now live tod hour visited source_route delay parent_conf parent_hops xfer
              to_route new_delay)

    push_routes-All :
        (xfer : Transfer) (routes : List Text) (q : e.heap.Queue)
        → All (Carried xfer) routes
        → All P (e.heap.items q)
        → All P (
            e.heap.items (
              push_routes e now live tod hour visited source_route delay parent_conf parent_hops
                xfer routes q))
    unfolding push_routes
    push_routes-All xfer [] q carried all = all
    push_routes-All xfer (to_route ∷ rest) q carried all =
        elim (Option-cases (
          carried_delay e now live tod hour visited source_route delay parent_conf parent_hops xfer
            to_route)) [
              | inl none_carried ↦
                  rw (push_routes, none_carried) (push_routes-All xfer rest q carried.1 all)
              | inr (new_delay, some_carried) ↦
                  rw (push_routes, some_carried)
                    (push_routes-All xfer rest _ carried.1
                      (push-All laws P _ q (carried.0 new_delay some_carried) all))
            ]

    push_transfers-All :
        (transfers : List Transfer) (q : e.heap.Queue)
        → All (λ xfer. All (Carried xfer) (get_routes_at_stop e.graph xfer.to_stop_id)) transfers
        → All P (e.heap.items q)
        → All P (
            e.heap.items (
              push_transfers e now live tod hour visited source_route delay parent_conf parent_hops
                transfers q))
    unfolding push_transfers
    push_transfers-All [] q carried all = all
    push_transfers-All (xfer ∷ rest) q carried all =
        push_transfers-All rest _ carried.1 (push_routes-All xfer _ q carried.0 all)

    pub propagate_transfers-All :
        (station_id : Text) (q : e.heap.Queue)
        → ((xfer : Transfer) (to_route : Text)
            → Memᴰ xfer (get_transfers_from e.graph station_id)
            → Memᴰ to_route (get_routes_at_stop e.graph xfer.to_stop_id)
            → Carried xfer to_route)
        → All P (e.heap.items q)
        → All P (
            e.heap.items (
              propagate_transfers e now live tod hour visited source_route delay parent_conf
                parent_hops station_id q))
    unfolding propagate_transfers
    propagate_transfers-All station_id q carried all =
        push_transfers-All (get_transfers_from e.graph station_id) q
          (All-of_mem (λ xfer. All (Carried xfer) (get_routes_at_stop e.graph xfer.to_stop_id)) _
            (λ xfer m. All-of_mem (Carried xfer) _ (λ to_route n. carried xfer to_route m n)))
          all
