-- ===== src/Graph/Departures.antt =====
-- `GetNextDepartures` against its description, and the frames of `NextDeparturesAfter`.
use urban_goggles.Base.{
  ℕ, zero, suc, ◌≤◌, ℤ, pos, ◌≤ℤ◌, ◌<ℤ◌, leb_ℤ, ltb_ℤ, Text, Bool, true, ◌&&◌, List, [], ◌∷◌, ◌≡◌,
  refl, ap, ◌∙◌, ◌⊎◌, add64, sub64, inl, inr, arith, All, take, keep_if, if◌then◌else◌, Bool-cases,
}
use urban_goggles.Graph.Search.{Splits, search-Splits, drop, length}
use urban_goggles.Graph.{
  TransitGraph, ScheduledStopTime, stop_times_at, is_on_route, departs_from, take_matching,
  get_next_departures, next_departures_after, later_frame_wins, overnight_window_secs,
}

-- Stop times in the order of their departures, as `BuildGraph` leaves them.
abbrev pub IsSorted : List ScheduledStopTime → Type 0
IsSorted [] = Unit
IsSorted (st ∷ rest) = All (λ x. st.departure_secs ≤ℤ x.departure_secs) rest × IsSorted rest

departs_from_head :
    (st : ScheduledStopTime) (rest : List ScheduledStopTime) (after_secs : ℤ) (b : ℕ)
    → All (λ x. st.departure_secs ≤ℤ x.departure_secs) rest
    → leb_ℤ after_secs st.departure_secs ≡ true
    → departs_from rest after_secs b ≡ true
unfolding departs_from
departs_from_head st [] after_secs b h e = refl
departs_from_head st (x ∷ rest) after_secs zero h e = ground arith
departs_from_head st (x ∷ rest) after_secs (suc b) h e =
    departs_from_head st rest after_secs b h.1 e

-- On sorted stop times the test of the binary search is monotone.
departs_from_mono :
    (all : List ScheduledStopTime) (after_secs : ℤ) (a b : ℕ)
    → IsSorted all
    → a ≤ b
    → departs_from all after_secs a ≡ true
    → departs_from all after_secs b ≡ true
unfolding departs_from
departs_from_mono [] after_secs a b s h e = refl
departs_from_mono (st ∷ rest) after_secs zero zero s h e = e
departs_from_mono (st ∷ rest) after_secs zero (suc b) s h e =
    departs_from_head st rest after_secs b s.0 e
departs_from_mono (st ∷ rest) after_secs (suc a) zero s h e = absurd (omega arith)
departs_from_mono (st ∷ rest) after_secs (suc a) (suc b) s h e =
    departs_from_mono rest after_secs a b s.1 (omega arith) e

take_matching-keep_if {ℓ} :
    {A : Type ℓ} (p : A → Bool) (n : ℕ) (xs : List A) → take_matching p n xs ≡ take n (keep_if p xs)
unfolding take_matching keep_if
take_matching-keep_if p zero xs = refl
take_matching-keep_if p (suc n) [] = refl
take_matching-keep_if p (suc n) (x ∷ xs) =
    ground (arith, take_matching-keep_if p n xs, take_matching-keep_if p (suc n) xs)

-- What the split leaves out fails the test, and what it keeps passes.
keep_if-drop :
    (p : ScheduledStopTime → Bool) (after_secs : ℤ) (all : List ScheduledStopTime) (k : ℕ)
    → Splits (departs_from all after_secs) (length all) k
    → keep_if p (drop k all) ≡ keep_if (λ st. leb_ℤ after_secs st.departure_secs && p st) all
unfolding departs_from keep_if
keep_if-drop p after_secs [] zero s = refl
keep_if-drop p after_secs [] (suc k) s = refl
keep_if-drop p after_secs (st ∷ rest) zero s = ground (
  arith,
  s.above 0,
  keep_if-drop p after_secs rest 0 (record {
    bound = omega arith;
    below = λ i h. absurd (omega arith);
    above = λ i h k. s.above (suc i) (omega arith) (omega arith);
  }),
)
keep_if-drop p after_secs (st ∷ rest) (suc k) s = ground (
  arith,
  s.below 0,
  keep_if-drop p after_secs rest k (record {
    bound = let b = s.bound in omega arith;
    below = λ i h. s.below (suc i) (omega arith);
    above = λ i h k. s.above (suc i) (omega arith) (omega arith);
  }),
)

-- On a stop's times sorted by departure, `GetNextDepartures` returns the first n of those that
-- depart at the given time or later on the given route.
pub get_next_departures_lem :
    (g : TransitGraph) (stop_id route_id : Text) (after_secs : ℤ) (n : ℕ)
    → IsSorted (stop_times_at g stop_id)
    → get_next_departures g stop_id route_id after_secs n
      ≡ take n (
          keep_if
            (λ st. leb_ℤ after_secs st.departure_secs && is_on_route g route_id st)
            (stop_times_at g stop_id))
get_next_departures_lem g stop_id route_id after_secs n s =
    unfold get_next_departures in
    (take_matching-keep_if (is_on_route g route_id) n _
      ∙ ap (take n) (
          keep_if-drop (is_on_route g route_id) after_secs (stop_times_at g stop_id) _
            (search-Splits _ _ (λ a b. departs_from_mono _ after_secs a b s))))

-- The ways to count a time of day: as it is, or in the previous service day's schedule.
abbrev pub IsFrame : ℤ → ℤ → Type 0
IsFrame tod frame =
    (frame ≡ tod) ⊎ ((tod <ℤ overnight_window_secs) × (frame ≡ add64 tod (pos 86400)))

-- Some departure leaves the frame no later, after the time of day, than the given wait.
abbrev pub BoardsWithin : ℤ → List ScheduledStopTime × ℤ → Type 0
BoardsWithin wait (deps, frame) =
    (st : ScheduledStopTime) × (rest : List ScheduledStopTime) × (deps ≡ st ∷ rest)
    × (sub64 st.departure_secs frame ≤ℤ wait)

abbrev choose : ℤ → ℤ → List ScheduledStopTime → List ScheduledStopTime → List ScheduledStopTime × ℤ
choose tod wrapped deps late =
    if ltb_ℤ tod overnight_window_secs && later_frame_wins tod wrapped late deps
    then (late, wrapped)
    else (deps, tod)

choose-deps :
    (tod wrapped : ℤ) (x : ScheduledStopTime) (xs late : List ScheduledStopTime)
    → BoardsWithin (sub64 x.departure_secs tod) (choose tod wrapped (x ∷ xs) late)
unfolding later_frame_wins
choose-deps tod wrapped x xs [] = elim (Bool-cases (ltb_ℤ tod overnight_window_secs)) [
  | inl e ↦ rw (e, choose) (x, xs, refl, omega arith)
  | inr e ↦ rw (e, choose) (x, xs, refl, omega arith)
]
choose-deps tod wrapped x xs (l ∷ ls) =
    elim (Bool-cases
      (ltb_ℤ tod overnight_window_secs && later_frame_wins tod wrapped (l ∷ ls) (x ∷ xs))) [
        | inl e ↦ rw (e, choose) (l, ls, refl, ground arith)
        | inr e ↦ rw (e, choose) (x, xs, refl, omega arith)
      ]

choose-late :
    (tod wrapped : ℤ) (x : ScheduledStopTime) (xs deps : List ScheduledStopTime)
    → tod <ℤ overnight_window_secs
    → BoardsWithin (sub64 x.departure_secs wrapped) (choose tod wrapped deps (x ∷ xs))
unfolding later_frame_wins
choose-late tod wrapped x xs [] h =
    elim (Bool-cases
      (ltb_ℤ tod overnight_window_secs && later_frame_wins tod wrapped (x ∷ xs) [])) [
        | inl e ↦ rw (e, choose) (x, xs, refl, omega arith)
        | inr e ↦ absurd (ground arith)
      ]
choose-late tod wrapped x xs (d ∷ ds) h =
    elim (Bool-cases
      (ltb_ℤ tod overnight_window_secs && later_frame_wins tod wrapped (x ∷ xs) (d ∷ ds))) [
        | inl e ↦ rw (e, choose) (x, xs, refl, omega arith)
        | inr e ↦ rw (e, choose) (d, ds, refl, ground arith)
      ]

module _ (g : TransitGraph) (stop_id route_id : Text) (tod : ℤ) (n : ℕ) where
  -- `NextDeparturesAfter` returns the next departures from the frame that it returns, and the
  -- frame is the time of day itself or, before 4 a.m. only, the time of day in the previous day's
  -- schedule.
  pub next_departures_after-IsFrame :
      let (deps, frame) = next_departures_after g stop_id route_id tod n in
      IsFrame tod frame × (deps ≡ get_next_departures g stop_id route_id frame n)
  unfolding next_departures_after
  next_departures_after-IsFrame = ground arith

  -- For each frame that the time of day allows and that has a departure, `NextDeparturesAfter`
  -- returns departures whose first one leaves no later after the time of day than the frame's
  -- first one.
  pub next_departures_after-best :
      (frame : ℤ) (x : ScheduledStopTime) (xs : List ScheduledStopTime)
      → IsFrame tod frame
      → get_next_departures g stop_id route_id frame n ≡ x ∷ xs
      → BoardsWithin (sub64 x.departure_secs frame) (next_departures_after g stop_id route_id tod n)
  unfolding next_departures_after
  next_departures_after-best frame x xs (inl e) h =
      rw (e, ← e, h)
        (choose-deps frame _ x xs
          (get_next_departures g stop_id route_id (add64 frame (pos 86400)) n))
  next_departures_after-best frame x xs (inr (early, e)) h =
      let late : get_next_departures g stop_id route_id (add64 tod (pos 86400)) n ≡ x ∷ xs =
        rw e at h in
      rw (e, next_departures_after, late)
        (choose-late tod _ x xs (get_next_departures g stop_id route_id tod n) early)
