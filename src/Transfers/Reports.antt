-- ===== src/Transfers/Reports.antt =====
-- All impacts that `EvaluateDelay` reports, over its two loops.
use mathlib.Core.List.{Memᴰ}
use urban_goggles.Base.{
  ℕ, ◌+◌, ℤ, pos, ◌<ℤ◌, leb_ℤ, add64, Text, Text_eq, text_eq_iff, ◌==◌, some, List, [], ◌∷◌, ◌≡◌,
  ◌≢◌, inl, inr, refl, arith, length, All, All-append, Bool-cases, Option-cases,
}
use urban_goggles.External.Redis.{Redis, Codec}
use urban_goggles.External.Float.{Float64}
use urban_goggles.Transit.{DelayEvent, TransferImpact}
use urban_goggles.Graph.{
  TransitGraph, Transfer, ScheduledStopTime, get_routes_at_stop, get_transfers_from,
  get_next_departures, next_departures_after,
}
use urban_goggles.State.{DelayState}
use urban_goggles.Transfers.{
  min_transfer, trip_delay_at, first_connection, check_route, check_routes, check_transfers,
  evaluate_delay, arrival_tod,
}
use urban_goggles.Transfers.Impacts.{IsShort, IsImpactOn, judge-IsImpactOn}

pub All-member : {A : Type 0} (P : A → Type 0) (xs : List A) {x : A} → All P xs → Memᴰ x xs → P x
All-member P [] h m = elim m [ ]
All-member P (y ∷ xs) h (Memᴰ.head e) = rw e h.0
All-member P (y ∷ xs) h (Memᴰ.tail m) = All-member P xs h.1 m

-- Where an impact comes from: a transfer and a route that the loops meet.
pub record Origin (g : TransitGraph) (ev : DelayEvent) (imp : TransferImpact) : Type 0 where
  pub xfer : Transfer
  pub route : Text
  pub late : pos 0 <ℤ ev.delay_seconds
  pub leaves : Memᴰ xfer (get_transfers_from g ev.stop_id)
  pub serves : Memᴰ route (get_routes_at_stop g xfer.to_stop_id)
  pub on : IsImpactOn ev xfer route imp

module _ (f : Float64) (r : Redis) (c : Codec r.Value (DelayState f.F)) (g : TransitGraph)
    (ev : DelayEvent) (now : ℤ) (detected : ℕ → ℤ) where
  pub check_route-IsImpactOn :
      (db : r.Db) (i : ℕ) (xfer : Transfer) (route : Text) {imp : TransferImpact}
      → IsShort xfer
      → (check_route f r c g ev now detected db i xfer route).0 ≡ some imp
      → IsImpactOn ev xfer route imp
  unfolding check_route first_connection
  check_route-IsImpactOn db i xfer route {imp} short h =
      let min = min_transfer xfer in
      let eff = (next_departures_after g xfer.to_stop_id route (arrival_tod g now ev) 1).1 in
      elim (Bool-cases (route == ev.route_id)) [
        | inl own ↦ absurd (ground (arith, own, h))
        | inr other ↦
            go eff (get_next_departures g xfer.to_stop_id route (add64 eff min) 3)
              (λ e. ground (arith, other, text_eq_iff route ev.route_id)) (rw other at h)
      ]
    where
      go :
          (eff : ℤ) (deps : List ScheduledStopTime)
          → route ≢ ev.route_id
          → (first_connection f r c g ev now detected db i xfer.to_stop_id route
              (min_transfer xfer)
              eff
              deps).0
            ≡ some imp
          → IsImpactOn ev xfer route imp
      go eff [] other found = absurd (ground (arith, found))
      go eff (next_dep ∷ _) other found =
          judge-IsImpactOn g ev xfer route eff (detected i) next_dep
            (trip_delay_at f r c g db ev.agency_id next_dep.trip_id xfer.to_stop_id).0 {imp = imp}
            short other found

  -- A property of every impact of one connection holds of all that the inner loop finds.
  check_routes-All :
      (P : TransferImpact → Type 0) (xfer : Transfer) (routes : List Text) (db : r.Db) (i : ℕ)
      → ((db : r.Db) (i : ℕ) (route : Text) (imp : TransferImpact)
          → Memᴰ route routes
          → (check_route f r c g ev now detected db i xfer route).0 ≡ some imp
          → P imp)
      → All P (check_routes f r c g ev now detected db i xfer routes).0
  unfolding check_routes
  check_routes-All P xfer [] db i h = tt
  check_routes-All P xfer (route ∷ rest) db i h =
      let found = check_route f r c g ev now detected db i xfer route in
      elim (Option-cases found.0) [
        | inl e ↦
            rw (e, check_routes)
              (check_routes-All P xfer rest found.1 i
                (λ db i route imp m. h db i route imp (Memᴰ.tail m)))
        | inr (imp, e) ↦
            rw (e, check_routes)
              (
                h db i route imp (Memᴰ.head refl) e,
                check_routes-All P xfer rest found.1 (i + 1)
                    (λ db i route imp m. h db i route imp (Memᴰ.tail m)),
              )
      ]

  pub check_transfers-All :
      (P : TransferImpact → Type 0) (xfers : List Transfer) (db : r.Db) (i : ℕ)
      → ((db : r.Db) (i : ℕ) (xfer : Transfer) (route : Text) (imp : TransferImpact)
          → Memᴰ xfer xfers
          → Memᴰ route (get_routes_at_stop g xfer.to_stop_id)
          → (check_route f r c g ev now detected db i xfer route).0 ≡ some imp
          → P imp)
      → All P (check_transfers f r c g ev now detected db i xfers).0
  unfolding check_transfers
  check_transfers-All P [] db i h = tt
  check_transfers-All P (xfer ∷ rest) db i h =
      let routes = get_routes_at_stop g xfer.to_stop_id in
      let here = check_routes f r c g ev now detected db i xfer routes in
      All-append P here.0 _
        (check_routes-All P xfer routes db i
          (λ db i route imp. h db i xfer route imp (Memᴰ.head refl)))
        (check_transfers-All P rest here.1 (i + length here.0)
          (λ db i xfer route imp m. h db i xfer route imp (Memᴰ.tail m)))

  -- Every impact of a delayed event is one of another route's connection from a transfer at the
  -- event's stop, with the level that its remaining margin gives and a wait that is not negative,
  -- if no transfer takes more than a million seconds.
  pub evaluate_delay-Origin :
      (db : r.Db)
      → All IsShort (get_transfers_from g ev.stop_id)
      → All (Origin g ev) (evaluate_delay f r c g ev now detected db).0
  unfolding evaluate_delay
  evaluate_delay-Origin db short = elim (Bool-cases (leb_ℤ ev.delay_seconds (pos 0))) [
    | inl on_time ↦ rw (on_time, evaluate_delay) tt
    | inr late ↦
        rw (late, evaluate_delay)
          (check_transfers-All (Origin g ev) (get_transfers_from g ev.stop_id) db 0
            (λ db i xfer route imp leaves serves found. record {
              xfer = xfer;
              route = route;
              late = ground arith;
              leaves = leaves;
              serves = serves;
              on =
                  check_route-IsImpactOn db i xfer route {imp = imp}
                    (All-member IsShort _ short leaves) found;
            }))
  ]
