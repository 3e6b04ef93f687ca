-- ===== src/Evaluation/Tracking/Tracked.antt =====
-- What `TrackPrediction` stores.
use urban_goggles.Base.{
  ℕ, ◌+◌, ◌≤◌, ◌^◌, ◌%◌, leb, ℤ, Text, Map, true, false, Bool-cases, Option-cases, Option, none,
  some, List, [], ◌∷◌, ◌≡◌, refl, arith, inl, inr, All, length, ◌⊎◌,
}
use urban_goggles.Graph.Search.{get_elem?}
use urban_goggles.Graph.{TransitGraph}
use urban_goggles.External.Redis.{Redis, Codec}
use urban_goggles.External.SortedSets.{SortedSets}
use urban_goggles.External.Float.{Float64}
use urban_goggles.State.{DelayState}
use urban_goggles.Transit.{TransferImpact, DownstreamImpact, PropagationResult}
use urban_goggles.Evaluation.{PendingPrediction, PendingError}
use urban_goggles.Evaluation.Pending.{add_pending}
use urban_goggles.Evaluation.Tracking.{
  max_tracked, is_skipped, prediction_of, track_loop, track_prediction,
}

module _ (f : Float64) (r : Redis) (z : SortedSets r) (cs : Codec r.Value (DelayState f.F))
    (c : Codec r.Value (PendingPrediction f.F)) (g : TransitGraph) (agency_id : Text)
    (src : TransferImpact) where
  -- A stored prediction is that of one of the impacts, which is the primary or has a confidence of
  -- 0.3 at least; nothing has been observed for it.
  abbrev pub IsTracked : List (DownstreamImpact f.F) → PendingPrediction f.F → Type 0
  IsTracked impacts p =
      (i : ℕ) × (imp : DownstreamImpact f.F) × (get_elem? impacts i ≡ some imp)
      × (p.route_id ≡ imp.route_id)
      × (p.station_id ≡ imp.stop_id)
      × (p.predicted_secs ≡ imp.predicted_additional_delay)
      × ((p.is_primary ≡ true) ⊎ (f.ltf imp.confidence (f.lit 3 1) ≡ false))
      × (p.matched ≡ false)

  module _ (impacts : List (DownstreamImpact f.F)) (created_at : ℤ) (baselines : Map Text ℤ)
      (primary : Option ℕ) (until : ℤ → ℤ) (nano : ℕ → ℤ) where
    kept-IsTracked :
        (i : ℕ) (imp : DownstreamImpact f.F) (seq : ℕ)
        → get_elem? impacts i ≡ some imp
        → is_skipped f r z cs c g agency_id src created_at baselines primary i imp ≡ false
        → IsTracked impacts (
            prediction_of f r z cs c g agency_id src created_at baselines primary i imp
              (nano i)
              seq)
    unfolding is_skipped prediction_of
    kept-IsTracked i imp seq there kept =
        (i, imp, there, refl, refl, refl, ground (arith, kept), refl)

    abbrev WithinLimit : List (PendingPrediction f.F) → Type 0
    WithinLimit stored = (length stored ≤ max_tracked) × All (IsTracked impacts) stored

    track_loop-WithinLimit :
        (order : List ℕ) (seq : ℕ) (db : r.Db) (stored : List (PendingPrediction f.F))
        (first : Option (PendingError r.Error))
        → WithinLimit stored
        → WithinLimit
            (track_loop f r z cs c g agency_id src created_at baselines primary until nano impacts
              order seq db stored first).0
    unfolding track_loop
    track_loop-WithinLimit [] seq db stored first h = h
    track_loop-WithinLimit (i ∷ order) seq db stored first h =
        elim (Option-cases (get_elem? impacts i)) [
          | inl outside ↦ rw (track_loop, outside) h
          | inr (imp, there) ↦ elim (Bool-cases (leb max_tracked (length stored))) [
            | inl full ↦ rw (track_loop, there, full) h
            | inr room ↦
                elim (Bool-cases
                  (is_skipped f r z cs c g agency_id src created_at baselines primary i imp)) [
                    | inl skipped ↦
                        rw (track_loop, there, room, skipped)
                          (track_loop-WithinLimit order seq db stored first h)
                    | inr kept ↦
                        let seq' = (seq + 1) % 2 ^ 64 in
                        let p =
                          prediction_of f r z cs c g agency_id src created_at baselines primary i
                            imp (nano i) seq' in
                        elim (Option-cases (add_pending r z c until db p).0) [
                          | inl done ↦
                              rw (track_loop, there, room, kept, done)
                                (track_loop-WithinLimit order seq' _ (p ∷ stored) first (
                                  ground (arith, room),
                                  (kept-IsTracked i imp seq' there kept, h.1),
                                ))
                          | inr (failure, refused) ↦
                              rw (track_loop, there, room, kept, refused)
                                (track_loop-WithinLimit order seq' _ stored _ h)
                        ]
                  ]
          ]
        ]

  -- Of a prediction at most twenty impacts are stored, each of them with its route, station and
  -- delay, not matched yet, and with a confidence of 0.3 at least if it is not the primary one.
  pub track_prediction-IsTracked :
      (until : ℤ → ℤ) (nano : ℕ → ℤ) (now : ℤ) (db : r.Db) (seq : ℕ) (res : PropagationResult f.F)
      → (length (track_prediction f r z cs c g agency_id until nano now db seq src res).0
          ≤ max_tracked)
        × All
            (IsTracked res.impacts)
            (track_prediction f r z cs c g agency_id until nano now db seq src res).0
  unfolding track_prediction
  track_prediction-IsTracked until nano now db seq res =
      track_loop-WithinLimit res.impacts _ _ _ until nano _ seq _ [] none (omega arith, tt)
