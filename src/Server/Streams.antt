-- ===== src/Server/Streams.antt =====
-- What a stream of alerts sends.
use mathlib.Core.Path.{subst}
use urban_goggles.Base.{
  ℕ, suc, ◌+◌, Text, Text_eq, text_eq, text_eq_iff, ◌==◌, ◌&&◌, ◌||◌, not, Bool, true, false,
  Bool-cases, List, [], ◌∷◌, ◌++◌, ◌≡◌, refl, ap, ◌∙◌, ◌⊎◌, inl, inr, arith, exists_in, keep_if,
  length,
}
use urban_goggles.Transit.{TransferImpact}
use urban_goggles.Server.{AlertFilter, has_filter, matches_filter, stream_alerts}

abbrev pub is_in : Text → List Text → Bool
is_in t ts = exists_in (λ s. s == t) ts

abbrev is_nil : List Text → Bool
is_nil [] = true
is_nil (t ∷ ts) = false

-- The client names nothing, or one of the impact's routes, or its station.
abbrev pub wants : AlertFilter → TransferImpact → Bool
wants req impact =
    is_nil req.route_ids && is_nil req.station_ids
    || (is_in impact.from_route_id req.route_ids || is_in impact.to_route_id req.route_ids)
    || is_in impact.station_id req.station_ids

-- Nothing is left, or the send of what comes next fails, at its place among the impacts.
abbrev pub Ends : AlertFilter → (ℕ → Bool) → ℕ → List TransferImpact → Type 0
Ends req failed n after =
    (after ≡ [])
    ⊎ ((impact : TransferImpact) × (rest : List TransferImpact) × (after ≡ impact ∷ rest)
        × (wants req impact ≡ true)
        × (failed n ≡ true))

-- The impacts up to one whose send fails, `i` being the place of the first, or all of them.
pub record IsCut (req : AlertFilter) (failed : ℕ → Bool) (i : ℕ)
    (impacts sent : List TransferImpact) : Type 0 where
  pub before : List TransferImpact
  pub after : List TransferImpact
  pub split : impacts ≡ before ++ after
  pub sends : sent ≡ keep_if (wants req) before
  pub ends : Ends req failed (i + length before) after

text_eq_comm : (s t : Text) → text_eq s t ≡ text_eq t s
text_eq_comm s t = ground (arith, text_eq_iff s t, text_eq_iff t s)

exists-or :
    (a b : Text) (ts : List Text)
    → exists_in (λ r. a == r || b == r) ts ≡ (is_in a ts || is_in b ts)
unfolding exists_in
exists-or a b [] = refl
exists-or a b (t ∷ ts) = ground (arith, text_eq_comm a t, text_eq_comm b t, exists-or a b ts)

exists-same : (a : Text) (ts : List Text) → exists_in (λ s. a == s) ts ≡ is_in a ts
unfolding exists_in
exists-same a [] = refl
exists-same a (t ∷ ts) = ground (arith, text_eq_comm a t, exists-same a ts)

filter-or :
    (a b c : Bool) (routes stations : List Text)
    → (has_filter (record { route_ids = routes; station_ids = stations }) && not (a || b || c))
      ≡ not (is_nil routes && is_nil stations || (a || b) || c)
unfolding has_filter
filter-or a b c [] [] = ground arith
filter-or a b c [] (s ∷ ss) = ground arith
filter-or a b c (r ∷ rs) stations = ground arith

wants_lem :
    (routes stations : List Text) (impact : TransferImpact)
    → let req : AlertFilter = record { route_ids = routes; station_ids = stations } in
      (has_filter req && not (matches_filter impact routes stations)) ≡ not (wants req impact)
unfolding has_filter matches_filter
wants_lem routes stations impact =
    rw
      (
        exists-or impact.from_route_id impact.to_route_id routes,
        exists-same impact.station_id stations,
      )
      (filter-or (is_in impact.from_route_id routes) (is_in impact.to_route_id routes)
        (is_in impact.station_id stations) routes stations)

further :
    (req : AlertFilter) (failed : ℕ → Bool) (i n : ℕ) (after : List TransferImpact)
    → Ends req failed (i + 1 + n) after
    → Ends req failed (i + suc n) after
further req failed i n after h =
    let e : i + 1 + n ≡ i + suc n = omega arith in subst (λ k. Ends req failed k after) e h

-- A stream sends, in order, exactly those of its impacts that the client wants, up to the first of
-- them whose send fails, or all.
pub stream_alerts-IsCut :
    (req : AlertFilter) (failed : ℕ → Bool) (i : ℕ) (impacts : List TransferImpact)
    → IsCut req failed i impacts (stream_alerts req failed i impacts)
unfolding stream_alerts keep_if
stream_alerts-IsCut req failed i [] = record {
  before = [];
  after = [];
  split = refl;
  sends = refl;
  ends = inl refl;
}
stream_alerts-IsCut req failed i (impact ∷ rest) =
    let test = wants_lem req.route_ids req.station_ids impact in
    let later = stream_alerts-IsCut req failed (i + 1) rest in
    elim (Bool-cases (wants req impact)) [
      | inr unwanted ↦ rw (test ∙ ap not unwanted) (record {
        before = impact ∷ later.before;
        after = later.after;
        split = ap (λ xs. impact ∷ xs) later.split;
        sends = rw (keep_if, unwanted) later.sends;
        ends = further req failed i (length later.before) later.after later.ends;
      })
      | inl wanted ↦ elim (Bool-cases (failed i)) [
        | inl gone ↦
            rw (test ∙ ap not wanted, gone)
              (record {
                before = [];
                after = impact ∷ rest;
                split = refl;
                sends = refl;
                ends = inr (impact, rest, refl, wanted, ground (arith, gone));
              })
        | inr fine ↦
            rw (test ∙ ap not wanted, fine)
              (record {
                before = impact ∷ later.before;
                after = later.after;
                split = ap (λ xs. impact ∷ xs) later.split;
                sends = rw (keep_if, wanted) (ap (λ xs. impact ∷ xs) later.sends);
                ends = further req failed i (length later.before) later.after later.ends;
              })
      ]
    ]
