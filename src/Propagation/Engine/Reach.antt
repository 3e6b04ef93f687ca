-- ===== src/Propagation/Engine/Reach.antt =====
-- Where a broken transfer's predicted delay can spread to: the rules of the walk without its queue,
-- and the walk against them.
use mathlib.Core.List.{Memᴰ}
use urban_goggles.Base.{
  ℤ, pos, ltb_ℤ, add64, InInt64, add64_lem, +ℤ_parts, ◌≤ℤ◌, Text, Text_eq, ◌==◌, true, false, some,
  ◌≡◌, arith,
}
use urban_goggles.Transit.{TransferImpact}
use urban_goggles.Graph.{
  Transfer, ScheduledStopTime, parent_station_id, get_routes_at_stop, get_transfers_from,
  get_downstream_stops,
}
use urban_goggles.Propagation.Engine.{PropagationEngine, derive_direction}
use urban_goggles.Propagation.Engine.Predict.{first_direction, detected_tod}

-- A route, a station and a number of hops that the delay of an impact can reach.
pub data IsReached (e : PropagationEngine) (now : ℤ) (impact : TransferImpact)
    : Text → Text → ℤ → Type 0 where
  -- A stop after the transfer, on the route that misses its passengers.
  first :
      (st : ScheduledStopTime)
      → Memᴰ st (
          get_downstream_stops e.graph impact.to_route_id impact.station_id
            (first_direction e now impact))
      → IsReached e now impact impact.to_route_id (parent_station_id e.graph st.stop_id) (pos 1)
  -- One more transfer, to another route.
  transfer :
      {route station : Text} {hops : ℤ} (xfer : Transfer) (to_route : Text)
      → IsReached e now impact route station hops
      → ltb_ℤ hops e.cfg.max_depth ≡ true
      → Memᴰ xfer (get_transfers_from e.graph station)
      → Memᴰ to_route (get_routes_at_stop e.graph xfer.to_stop_id)
      → (to_route == route) ≡ false
      → IsReached e now impact to_route
          (parent_station_id e.graph xfer.to_stop_id)
          (add64 hops (pos 1))
  -- A stop further down the route, in the direction of its next departure.
  onward :
      {route station : Text} {hops : ℤ} (st : ScheduledStopTime) (dir : ℤ)
      → IsReached e now impact route station hops
      → derive_direction e now route station (detected_tod e now impact) ≡ some dir
      → Memᴰ st (get_downstream_stops e.graph route station dir)
      → IsReached e now impact route (parent_station_id e.graph st.stop_id) hops

-- What a reached place has of hops: between one and the depth, if the depth is at least one.
pub IsReached-hops :
    {e : PropagationEngine} {now : ℤ} {impact : TransferImpact} {route station : Text} {hops : ℤ}
    → pos 1 ≤ℤ e.cfg.max_depth
    → InInt64 e.cfg.max_depth
    → IsReached e now impact route station hops
    → (pos 1 ≤ℤ hops) × (hops ≤ℤ e.cfg.max_depth)
IsReached-hops deep bound (IsReached.first st m) = (omega arith, deep)
IsReached-hops {e} deep bound
      (IsReached.transfer {hops = hops} xfer to_route from shallow m n other) =
    let at = IsReached-hops deep bound from in
    rw (add64_lem hops (pos 1) (ground (arith, +ℤ_parts hops (pos 1))))
      (ground (arith, +ℤ_parts hops (pos 1)))
IsReached-hops deep bound (IsReached.onward st dir from d m) = IsReached-hops deep bound from
