-- ===== src/Ingest/Normalizer/Route.antt =====
-- What `ParseRouteFromTripID` finds in an MTA trip id.
use mathlib.Core.Logic.{◌≢◌}
use urban_goggles.Base.{
  Text, Lacks, after_byte-append, before_byte-append, before_byte_of_Lacks, ◌≡◌, refl, [], ◌∷◌,
  ◌++◌,
}
use urban_goggles.Ingest.Normalizer.{parse_route_from_trip_id}

-- In a trip id made of an origin without an underscore, an underscore and a route that is not
-- empty and has no dot, with or without a dot and a suffix after it, `ParseRouteFromTripID` finds
-- the route.
pub parse_route-shape :
    (origin route suffix : Text)
    → Lacks b'_' origin
    → Lacks b'.' route
    → route ≢ []
    → (parse_route_from_trip_id (origin ++ b'_' ∷ (route ++ b'.' ∷ suffix)) ≡ route)
      × (parse_route_from_trip_id (origin ++ b'_' ∷ route) ≡ route)
unfolding parse_route_from_trip_id
parse_route-shape origin [] suffix ho hr n = absurd (n refl)
parse_route-shape origin (c ∷ route) suffix ho hr n = (
  rw (after_byte-append b'_' origin (c ∷ route ++ b'.' ∷ suffix) ho)
      (before_byte-append b'.' (c ∷ route) suffix hr),
  rw (after_byte-append b'_' origin (c ∷ route) ho) (before_byte_of_Lacks b'.' (c ∷ route) hr),
)
