-- ===== src/Server/Network.antt =====
-- The delays of the network by route.
use mathlib.Core.List.{append-nil, append_assoc}
use urban_goggles.Base.{
  Text, Text_eq, ltb_ℤ, abs32, ◌==◌, Bool, true, false, List, [], ◌∷◌, ◌++◌, map, ◌≡◌, refl, sym,
  ap, ◌∙◌, inl, inr, arith, All, Map, lookup, keep_if, if◌then◌else◌,
}
use urban_goggles.External.Redis.{IsRedis, Reply-cases, ok, IsGlobFree}
use urban_goggles.Graph.{TransitGraph, read_or}
use urban_goggles.Graph.Build.{append_row}
use urban_goggles.Graph.Build.Rows.{lookup-append_row}
use urban_goggles.State.{DelayState, active_delay_threshold}
use urban_goggles.State.Listing.{
  IsListed, agency_prefix, get_all_active_delays, get_all_active_delays-IsListed,
}
use urban_goggles.Propagation.Engine.{PropagationEngine}
use urban_goggles.Server.{StopDelay, stop_delay, by_route, get_network_state}

module _ {F F32 : Type 0} (to_float32 : F → F32) (g : TransitGraph) (route : Text) where
  map_keep-if :
      (d : DelayState F) (b : Bool) (rest : List (DelayState F))
      → (if b then stop_delay to_float32 g d ∷ [] else []) ++ map (stop_delay to_float32 g) rest
        ≡ map (stop_delay to_float32 g) (if b then d ∷ rest else rest)
  map_keep-if d true rest = refl
  map_keep-if d false rest = refl

  lookup-by_route :
      (ds : List (DelayState F)) (routes : Map Text (List (StopDelay F32)))
      → read_or [] (lookup route (by_route to_float32 g ds routes))
        ≡ read_or [] (lookup route routes)
          ++ map (stop_delay to_float32 g) (keep_if (λ d. d.route_id == route) ds)
  unfolding by_route keep_if
  lookup-by_route [] routes = sym (append-nil _)
  lookup-by_route (d ∷ ds) routes =
      let sd = stop_delay to_float32 g d in
      let old = read_or [] (lookup route routes) in
      let rest = keep_if (λ d. d.route_id == route) ds in
      lookup-by_route ds (append_row d.route_id sd routes)
      ∙ ap (λ xs. xs ++ map (stop_delay to_float32 g) rest)
          (lookup-append_row d.route_id route sd routes)
      ∙ append_assoc old (if d.route_id == route then sd ∷ [] else []) _
      ∙ ap (λ xs. old ++ xs) (map_keep-if d (d.route_id == route) rest)

module _ (e : PropagationEngine) {F32 : Type 0} (to_float32 : e.float.F → F32) where
  -- A response lists each route's share of one list of delays, in its order, and the delays of that
  -- list are what the server holds for keys of the agency, over the threshold.
  abbrev pub IsNetwork : e.redis.Db → Map Text (List (StopDelay F32)) → Type 0
  IsNetwork db routes =
      (delays : List (DelayState e.float.F)) × All
        (IsListed e.float e.redis e.states e.graph db e.agency_id
          (λ ds. ltb_ℤ active_delay_threshold (abs32 ds.delay_seconds)))
        delays
      × ((route : Text)
          → read_or [] (lookup route routes)
            ≡ map (stop_delay to_float32 e.graph) (keep_if (λ d. d.route_id == route) delays))

  -- If the agency's key prefix has no glob character and `GetNetworkState` returns no error, then
  -- the delays that it lists for a route are those of one list that have the route, in its order,
  -- and each of that list is what the server holds for a key of the agency and over the threshold.
  pub get_network_state-IsNetwork :
      (laws : IsRedis e.redis) (globless : IsGlobFree (agency_prefix e.agency_id)) (db : e.redis.Db)
      {routes : Map Text (List (StopDelay F32))}
      → (get_network_state e to_float32 db).0 ≡ ok routes
      → IsNetwork db routes
  unfolding get_network_state lookup
  get_network_state-IsNetwork laws globless db {routes} h =
      elim (Reply-cases (get_all_active_delays e.float e.redis e.states db e.agency_id).0) [
        | inr (x, failed) ↦ absurd (ground (arith, failed, h))
        | inl (delays, listed) ↦
            let same : by_route to_float32 e.graph delays [] ≡ routes = ground (arith, listed, h) in
            (
              delays,
              get_all_active_delays-IsListed e.float e.redis laws e.states e.graph db e.agency_id
                  globless listed,
              λ route. rw⁻¹ same (lookup-by_route to_float32 e.graph route delays []),
            )
      ]
