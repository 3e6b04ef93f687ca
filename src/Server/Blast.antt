-- ===== src/Server/Blast.antt =====
-- The cascades from a station.
use mathlib.Core.List.{Memᴰ}
use urban_goggles.Base.{
  ℕ, ◌+◌, ℤ, Text, Text_eq, ◌==◌, true, Bool-cases, List, [], ◌∷◌, ◌≡◌, ◌≢◌, refl, inl, inr, arith,
  All, All-append, All-map, All-of_mem,
}
use urban_goggles.External.Redis.{IsRedis, Reply-cases, ok, IsGlobFree}
use urban_goggles.External.SortedSets.{IsSortedSets}
use urban_goggles.External.Reads.{Reads, here, held-Reads}
use urban_goggles.Transit.{PropagationResult, DownstreamImpact}
use urban_goggles.Graph.{parent_station_id, get_routes_at_stop}
use urban_goggles.State.{DelayState}
use urban_goggles.State.Listing.{
  IsListed, IsListed-held, agency_prefix, get_route_delays, get_route_delays-IsListed,
  get_route_delays-Reads,
}
use urban_goggles.Propagation.Engine.{PropagationEngine}
use urban_goggles.Propagation.Engine.Predict.{propagate}
use urban_goggles.Propagation.Engine.Readings.{propagate-From}
use urban_goggles.Server.{synthetic_impact, cascades_of, blast_loop, get_blast_radius}

-- The cascade that a delay has at the station: the server of the request holds the delay for a key
-- of the agency, its route is one of the station's routes, and the engine starts from that server
-- after reads alone, at a reading of the clock for that route.
pub record IsCascade (e : PropagationEngine) (clock : Text → ℕ → ℤ) (db : e.redis.Db)
    (station : Text) (routes : List Text) (result : PropagationResult e.float.F) : Type 0 where
  pub route : Text
  pub reading : ℕ
  pub delay : DelayState e.float.F
  pub serves : Memᴰ route routes
  pub at_walk : e.redis.Db
  pub only_read : Reads e.sets db at_walk
  pub listed :
      IsListed e.float e.redis e.states e.graph db e.agency_id (λ ds. ds.route_id == route) delay
  pub is_here : parent_station_id e.graph delay.stop_id == station ≡ true
  pub spreads : result.impacts ≢ []
  pub predicted :
      result
      ≡ (let now = clock route reading in
          propagate e now (synthetic_impact e now delay.trip_id route station delay) at_walk).0

module _ (e : PropagationEngine) (laws : IsRedis e.redis) (set_laws : IsSortedSets e.sets)
    (globless : IsGlobFree (agency_prefix e.agency_id)) (clock : Text → ℕ → ℤ) (db : e.redis.Db)
    (station : Text) (routes : List Text) where
  abbrev AreCascades : List (PropagationResult e.float.F) → Type 0
  AreCascades = All (IsCascade e clock db station routes)

  with_impacts :
      (result : PropagationResult e.float.F) (more : List (PropagationResult e.float.F))
      (impacts : List (DownstreamImpact e.float.F))
      → result.impacts ≡ impacts
      → (result.impacts ≢ [] → IsCascade e clock db station routes result)
      → AreCascades more
      → AreCascades (elim impacts [ [] ↦ more | _ ∷ _ ↦ result ∷ more ])
  with_impacts result more [] same h rest = rest
  with_impacts result more (x ∷ xs) same h rest =
      (h (λ gone. absurd (ground (arith, same, gone))), rest)

  abbrev AreListed : Text → List (DelayState e.float.F) → Type 0
  AreListed route =
      All (IsListed e.float e.redis e.states e.graph db e.agency_id (λ ds. ds.route_id == route))

  -- The cascades of a route, and the server after them.
  cascades_of-IsCascade :
      (route : Text) (serves : Memᴰ route routes) (i : ℕ) (ds : List (DelayState e.float.F))
      (db' : e.redis.Db)
      → AreListed route ds
      → Reads e.sets db db'
      → let run = cascades_of e (clock route) i station route ds db' in
        AreCascades run.0 × Reads e.sets db run.1
  unfolding cascades_of
  cascades_of-IsCascade route serves i [] db' listed only_read = (tt, only_read)
  cascades_of-IsCascade route serves i (d ∷ ds) db' listed only_read =
      elim (Bool-cases (parent_station_id e.graph d.stop_id == station)) [
        | inr away ↦
            rw (cascades_of, away)
              (cascades_of-IsCascade route serves (i + 1) ds db' listed.1 only_read)
        | inl at_station ↦
            let now = clock route i in
            let cause = synthetic_impact e now d.trip_id route station d in
            let run = propagate e now cause db' in
            let later =
              cascades_of-IsCascade route serves (i + 1) ds run.1 listed.1
                (propagate-From e now db cause db' only_read) in
            rw (cascades_of, at_station)
              (
                with_impacts run.0 _ run.0.impacts refl
                    (λ spreads. record {
                      route = route;
                      reading = i;
                      delay = d;
                      serves = serves;
                      at_walk = db';
                      only_read = only_read;
                      listed = listed.0;
                      is_here = at_station;
                      spreads = spreads;
                      predicted = refl;
                    })
                    later.0,
                later.1,
              )
      ]

  -- What a later read of the listing yields, the server of the request holds.
  read-AreListed :
      (route : Text) (db' : e.redis.Db) (delays : List (DelayState e.float.F))
      → Reads e.sets db db'
      → (get_route_delays e.float e.redis e.states db' e.agency_id route).0 ≡ ok delays
      → AreListed route delays
  read-AreListed route db' delays only_read found =
      All-map _ _ delays
        (λ ds.
          IsListed-held e.float e.redis e.states e.graph db db' e.agency_id _ ds
            (held-Reads e.sets laws set_laws only_read))
        (get_route_delays-IsListed e.float e.redis laws e.states e.graph db' e.agency_id globless
          route found)

  blast_loop-IsCascade :
      (left : List Text) (db' : e.redis.Db)
      → All (λ route. Memᴰ route routes) left
      → Reads e.sets db db'
      → AreCascades (blast_loop e clock station left db').0
  unfolding blast_loop
  blast_loop-IsCascade [] db' serve only_read = tt
  blast_loop-IsCascade (route ∷ left) db' serve only_read =
      let after = get_route_delays-Reads e.float e.sets e.states e.agency_id route only_read in
      elim (Reply-cases (get_route_delays e.float e.redis e.states db' e.agency_id route).0) [
        | inr (x, failed) ↦ rw (blast_loop, failed) (blast_loop-IsCascade left _ serve.1 after)
        | inl (delays, found) ↦
            let cascades =
              cascades_of-IsCascade route serve.0 0 delays _
                (read-AreListed route db' delays only_read found) after in
            rw (blast_loop, found)
              (All-append _ _ _ cascades.0 (blast_loop-IsCascade left _ serve.1 cascades.1))
      ]

module _ (e : PropagationEngine) (laws : IsRedis e.redis) (set_laws : IsSortedSets e.sets)
    (globless : IsGlobFree (agency_prefix e.agency_id)) where
  -- If the agency's key prefix has no glob character, every cascade that `GetBlastRadius` returns
  -- has impacts and is what `Propagate` predicts for a delay that the server of the request holds
  -- for a key of the agency, with a route that serves the station and a stop of the station; the
  -- server that `Propagate` starts from is that of the request after reads alone, and the time is
  -- one that the clock showed for that route.
  pub get_blast_radius-IsCascade :
      (clock : Text → ℕ → ℤ) (db : e.redis.Db) (station_id : Text)
      → let station = parent_station_id e.graph station_id in
        All
          (IsCascade e clock db station (get_routes_at_stop e.graph station))
          (get_blast_radius e clock db station_id).0
  unfolding get_blast_radius
  get_blast_radius-IsCascade clock db station_id =
      let station = parent_station_id e.graph station_id in
      let routes = get_routes_at_stop e.graph station in
      blast_loop-IsCascade e laws set_laws globless clock db station routes routes db
        (All-of_mem _ routes (λ route m. m)) here
