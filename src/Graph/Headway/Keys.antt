-- ===== src/Graph/Headway/Keys.antt =====
-- The keys of the index of headways: without colons in the ids, a key tells what it is made of.
use mathlib.Core.List.{append_assoc}
use urban_goggles.Base.{
  ℤ, Text, Lacks, decimal, decimal-Lacks, decimal-injective, split_byte, split_byte-append,
  split_byte_of_Lacks, List, [], ◌∷◌, ◌++◌, ◌≡◌, sym, ap, ◌∙◌, arith,
}
use urban_goggles.Graph.Headway.{route_direction, headway_key}

cons_lem : {x y : Text} {xs ys : List Text} → x ∷ xs ≡ y ∷ ys → (x ≡ y) × (xs ≡ ys)
cons_lem h = (ground (arith, h), ground (arith, h))

split_byte-route_direction :
    (route : Text) (direction : ℤ)
    → Lacks b':' route
    → split_byte b':' (route_direction route direction) ≡ route ∷ decimal direction ∷ []
split_byte-route_direction route direction h =
    split_byte-append b':' route (decimal direction) h
    ∙ ap (λ xs. route ∷ xs) (split_byte_of_Lacks b':' (decimal direction) (decimal-Lacks direction))

pub route_direction-injective :
    (r r' : Text) (d d' : ℤ)
    → Lacks b':' r
    → Lacks b':' r'
    → route_direction r d ≡ route_direction r' d'
    → (r ≡ r') × (d ≡ d')
route_direction-injective r r' d d' h h' e =
    let parts =
      sym (split_byte-route_direction r d h)
      ∙ ap (split_byte b':') e
      ∙ split_byte-route_direction r' d' h' in
    let (same, rest) = cons_lem parts in (same, decimal-injective d d' (cons_lem rest).0)

split_byte-headway_key :
    (route : Text) (direction : ℤ) (station : Text) (hour : ℤ)
    → Lacks b':' route
    → Lacks b':' station
    → split_byte b':' (headway_key route direction station hour)
      ≡ route ∷ decimal direction ∷ station ∷ decimal hour ∷ []
unfolding headway_key
split_byte-headway_key route direction station hour hr hs =
    let last = b':' ∷ (station ++ (b':' ∷ decimal hour)) in
    ap (split_byte b':') (append_assoc route (b':' ∷ decimal direction) last)
    ∙ split_byte-append b':' route (decimal direction ++ last) hr
    ∙ ap (λ xs. route ∷ xs)
        (split_byte-append b':' (decimal direction) (station ++ (b':' ∷ decimal hour))
            (decimal-Lacks direction)
          ∙ ap (λ xs. decimal direction ∷ xs)
              (split_byte-append b':' station (decimal hour) hs
                ∙ ap (λ xs. station ∷ xs)
                    (split_byte_of_Lacks b':' (decimal hour) (decimal-Lacks hour))))

pub headway_key-injective :
    (r r' s s' : Text) (d d' h h' : ℤ)
    → Lacks b':' r
    → Lacks b':' r'
    → Lacks b':' s
    → Lacks b':' s'
    → headway_key r d s h ≡ headway_key r' d' s' h'
    → (r ≡ r') × (d ≡ d') × (s ≡ s') × (h ≡ h')
headway_key-injective r r' s s' d d' h h' lr lr' ls ls' e =
    let parts =
      sym (split_byte-headway_key r d s h lr ls)
      ∙ ap (split_byte b':') e
      ∙ split_byte-headway_key r' d' s' h' lr' ls' in
    let (same_route, rest) = cons_lem parts in
    let (directions, rest2) = cons_lem rest in
    let (same_station, rest3) = cons_lem rest2 in
    (
      same_route,
      decimal-injective d d' directions,
      same_station,
      decimal-injective h h' (cons_lem rest3).0,
    )
