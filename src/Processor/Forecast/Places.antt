-- ===== src/Processor/Forecast/Places.antt =====
-- Where the predictions lie that a run of a propagation leaves for their evaluation.
use mathlib.Core.Path.{subst}
use urban_goggles.Base.{
  ℕ, zero, suc, ◌≤◌, ℤ, pos, ◌≤ℤ◌, InInt32, false, none, some, List, [], ◌∷◌, ◌≡◌, ◌≢◌, refl, ◌⊎◌,
  inl, inr, arith, All, All-map, length,
}
use urban_goggles.External.Redis.{Codec}
use urban_goggles.External.Heap.{IsHeap}
use urban_goggles.Transit.{TransferImpact, DownstreamImpact}
use urban_goggles.Graph.Search.{get_elem?}
use urban_goggles.Propagation.Engine.{PropagationEngine, less}
use urban_goggles.Propagation.Engine.Predict.{propagate}
use urban_goggles.Propagation.Engine.Reach.{IsReached}
use urban_goggles.Propagation.Engine.Spread.{Reported, propagate-Reported}
use urban_goggles.Evaluation.{PendingPrediction}
use urban_goggles.Evaluation.Tracking.{max_tracked}
use urban_goggles.Evaluation.Tracking.Tracked.{IsTracked, track_prediction-IsTracked}
use urban_goggles.Processor.Forecast.{Forecast, run_propagation}

All-get {ℓ κ} :
    {A : Type ℓ} (P : A → Type κ) (xs : List A) (i : ℕ) (x : A)
    → All P xs
    → get_elem? xs i ≡ some x
    → P x
All-get P [] i x all found = cc
All-get P (y ∷ ys) zero x all found = subst P (ground arith) all.0
All-get P (y ∷ ys) (suc i) x all found = All-get P ys i x all.1 found

List-cases {ℓ} :
    {A : Type ℓ} (xs : List A) → (xs ≡ []) ⊎ ((x : A) × (rest : List A) × (xs ≡ x ∷ rest))
List-cases [] = inl refl
List-cases (x ∷ rest) = inr (x, rest, refl)

module _ (e : PropagationEngine) (now : ℤ) (impact : TransferImpact) where
  -- The prediction is for a place that the delay can reach, within the engine's depth, and waits for
  -- its evaluation.
  abbrev pub IsForetold : PendingPrediction e.float.F → Type 0
  IsForetold p =
      (hops : ℤ) × IsReached e now impact p.route_id p.station_id hops
      × (hops ≤ℤ e.cfg.max_depth)
      × (p.matched ≡ false)

  -- The engine's result has no impacts, nothing is published and nothing stored; or it has impacts,
  -- it is published, and at most twenty predictions are stored.
  abbrev pub IsForecast : e.redis.Db → Forecast e → Type 0
  IsForecast db run =
      (((propagate e now impact db).0.impacts ≡ []) × (run.published ≡ none) × (run.tracked ≡ []))
      ⊎ ((run.published ≡ some (propagate e now impact db).0)
          × ((propagate e now impact db).0.impacts ≢ [])
          × (length run.tracked ≤ max_tracked)
          × All IsForetold run.tracked)

module _ (e : PropagationEngine) (laws : IsHeap less e.heap) (now : ℤ) (impact : TransferImpact)
    (c : Codec e.redis.Value (PendingPrediction e.float.F)) (until : ℤ → ℤ) (nano : ℕ → ℤ)
    (tracked_at : ℤ) where
  tracked-IsForetold :
      (impacts : List (DownstreamImpact e.float.F))
      → All (Reported e laws now impact) impacts
      → (p : PendingPrediction e.float.F)
      → IsTracked e.float e.redis e.sets e.states c e.graph e.agency_id impact impacts p
      → IsForetold e now impact p
  tracked-IsForetold impacts reported p (i, imp, there, route, station, _, _, unmatched) =
      let (reached, _, shallow) =
        All-get (Reported e laws now impact) impacts i imp reported there in
      (imp.hops_from_source, rw (route, station) reached, shallow, unmatched)

  -- Where the engine's depth is an int32 and at least one: if the engine's result has no impacts, a
  -- run publishes nothing and stores nothing; otherwise it publishes the result and stores at most
  -- twenty predictions, each for a place that the delay can reach within the depth and not matched
  -- yet.
  pub run_propagation-IsForecast :
      (seq : ℕ) (db : e.redis.Db)
      → pos 1 ≤ℤ e.cfg.max_depth
      → InInt32 e.cfg.max_depth
      → IsForecast e now impact db (run_propagation e c until nano now tracked_at seq db impact)
  unfolding run_propagation
  run_propagation-IsForecast seq db deep bound =
      elim (List-cases (propagate e now impact db).0.impacts) [
        | inl quiet ↦ rw (run_propagation, quiet) (inl (refl, refl, refl))
        | inr (imp, rest, some_impacts) ↦
            let res = (propagate e now impact db).0 in
            let reported = propagate-Reported e laws now impact db deep bound in
            let stored =
              track_prediction-IsTracked e.float e.redis e.sets e.states c e.graph e.agency_id
                impact until nano tracked_at (propagate e now impact db).1 seq res in
            let foretold : All (IsForetold e now impact) _ =
              All-map _ _ _ (tracked-IsForetold res.impacts reported) stored.1 in
            rw (run_propagation, some_impacts) (inr (refl, (λ gone. cc), stored.0, foretold))
      ]
