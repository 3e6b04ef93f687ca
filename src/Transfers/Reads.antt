-- ===== src/Transfers/Reads.antt =====
-- The detector only reads the stored states.
use urban_goggles.Base.{
  ℕ, ◌+◌, ℤ, pos, leb_ℤ, Text, Text_eq, ◌==◌, List, [], ◌∷◌, ◌≡◌, refl, ◌∙◌, length, inl, inr,
  Bool-cases, Option-cases, add64,
}
use urban_goggles.External.Redis.{Redis, IsRedis, Codec}
use urban_goggles.External.Float.{Float64}
use urban_goggles.Transit.{DelayEvent}
use urban_goggles.Graph.{
  TransitGraph, Transfer, ScheduledStopTime, get_routes_at_stop, get_transfers_from,
  get_next_departures, next_departures_after, get_scheduled_stop_time,
}
use urban_goggles.State.{DelayState, delay_key, get_delay}
use urban_goggles.Transfers.{
  min_transfer, arrival_tod, trip_delay_at, first_connection, check_route, check_routes,
  check_transfers, evaluate_delay,
}

module _ (f : Float64) (r : Redis) (laws : IsRedis r) (c : Codec r.Value (DelayState f.F))
    (g : TransitGraph) where
  held-trip_delay_at :
      (db : r.Db) (agency_id trip_id station_id j : Text)
      → r.held (trip_delay_at f r c g db agency_id trip_id station_id).1 j ≡ r.held db j
  unfolding trip_delay_at get_delay
  held-trip_delay_at db agency_id trip_id station_id j =
      elim (Option-cases (get_scheduled_stop_time g trip_id station_id)) [
        | inl e ↦ rw (e, trip_delay_at) refl
        | inr (row, e) ↦
            rw (e, trip_delay_at) (laws.held-get db (delay_key agency_id trip_id row.stop_id) j)
      ]

  module _ (ev : DelayEvent) (now : ℤ) (detected : ℕ → ℤ) where
    held-first_connection :
        (db : r.Db) (i : ℕ) (station route : Text) (min eff : ℤ) (deps : List ScheduledStopTime)
        (j : Text)
        → r.held (first_connection f r c g ev now detected db i station route min eff deps).1 j
          ≡ r.held db j
    unfolding first_connection
    held-first_connection db i station route min eff [] j = refl
    held-first_connection db i station route min eff (next_dep ∷ _) j =
        held-trip_delay_at db ev.agency_id next_dep.trip_id station j

    held-check_route :
        (db : r.Db) (i : ℕ) (xfer : Transfer) (route j : Text)
        → r.held (check_route f r c g ev now detected db i xfer route).1 j ≡ r.held db j
    unfolding check_route
    held-check_route db i xfer route j =
        let min = min_transfer xfer in
        let eff = (next_departures_after g xfer.to_stop_id route (arrival_tod g now ev) 1).1 in
        elim (Bool-cases (route == ev.route_id)) [
          | inl own ↦ rw (own, check_route) refl
          | inr other ↦
              rw (other, check_route)
                (held-first_connection db i xfer.to_stop_id route min eff
                  (get_next_departures g xfer.to_stop_id route (add64 eff min) 3) j)
        ]

    held-check_routes :
        (xfer : Transfer) (routes : List Text) (db : r.Db) (i : ℕ) (j : Text)
        → r.held (check_routes f r c g ev now detected db i xfer routes).1 j ≡ r.held db j
    unfolding check_routes
    held-check_routes xfer [] db i j = refl
    held-check_routes xfer (route ∷ rest) db i j =
        let found = check_route f r c g ev now detected db i xfer route in
        let here = held-check_route db i xfer route j in
        elim (Option-cases found.0) [
          | inl e ↦ rw (e, check_routes) (held-check_routes xfer rest found.1 i j ∙ here)
          | inr (imp, e) ↦
              rw (e, check_routes) (held-check_routes xfer rest found.1 (i + 1) j ∙ here)
        ]

    held-check_transfers :
        (xfers : List Transfer) (db : r.Db) (i : ℕ) (j : Text)
        → r.held (check_transfers f r c g ev now detected db i xfers).1 j ≡ r.held db j
    unfolding check_transfers
    held-check_transfers [] db i j = refl
    held-check_transfers (xfer ∷ rest) db i j =
        let routes = get_routes_at_stop g xfer.to_stop_id in
        let here = check_routes f r c g ev now detected db i xfer routes in
        held-check_transfers rest here.1 (i + length here.0) j
        ∙ held-check_routes xfer routes db i j

    -- `EvaluateDelay` leaves what the server holds for every key as it was.
    held-evaluate_delay :
        (db : r.Db) (j : Text)
        → r.held (evaluate_delay f r c g ev now detected db).1 j ≡ r.held db j
    unfolding evaluate_delay
    held-evaluate_delay db j = elim (Bool-cases (leb_ℤ ev.delay_seconds (pos 0))) [
      | inl on_time ↦ rw (on_time, evaluate_delay) refl
      | inr late ↦
          rw (late, evaluate_delay) (held-check_transfers (get_transfers_from g ev.stop_id) db 0 j)
    ]
