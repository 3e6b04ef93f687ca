-- ===== src/Processor/Forecast.antt =====
-- `runPropagation` of cmd/processor/main.go: a broken transfer's prediction, tracked for its
-- evaluation and published. Errors of the tracking are only logged.
pub mod Places
use urban_goggles.Base.{ℕ, ℤ, Option, none, some, List, [], ◌∷◌}
use urban_goggles.External.Redis.{Codec}
use urban_goggles.Transit.{TransferImpact, PropagationResult}
use urban_goggles.Propagation.Engine.{PropagationEngine}
use urban_goggles.Propagation.Engine.Predict.{propagate}
use urban_goggles.Evaluation.{PendingPrediction}
use urban_goggles.Evaluation.Tracking.{track_prediction}

-- What a run leaves: the predictions that were stored, the result that was published, the counter of
-- the evaluator and the server.
pub record Forecast (e : PropagationEngine) : Type 0 where
  pub tracked : List (PendingPrediction e.float.F)
  pub published : Option (PropagationResult e.float.F)
  pub seq : ℕ
  pub db : e.redis.Db

-- `now` is the clock's reading for the walk, `tracked_at` that for the tracking.
unfoldable pub run_propagation :
    (e : PropagationEngine) (c : Codec e.redis.Value (PendingPrediction e.float.F)) (until : ℤ → ℤ)
    (nano : ℕ → ℤ) (now tracked_at : ℤ)
    → ℕ
    → e.redis.Db
    → TransferImpact
    → Forecast e
run_propagation e c until nano now tracked_at seq db impact =
    let (result, db1) = propagate e now impact db in
    elim result.impacts [
      | [] ↦ record { tracked = []; published = none; seq = seq; db = db1 }
      | _ ∷ _ ↦
          let (tracked, _, seq', db2) =
            track_prediction e.float e.redis e.sets e.states c e.graph e.agency_id until nano
              tracked_at db1 seq impact result in
          record { tracked = tracked; published = some result; seq = seq'; db = db2 }
    ]
