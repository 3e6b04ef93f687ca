-- ===== src/Evaluation.antt =====
-- internal/evaluation: predictions that wait for their outcome. This file has the stored prediction
-- and its keys; Pending the store of pending.go, and Tracking, Matching and Sweep the evaluator of
-- evaluator.go. Metrics and logging are left out.
pub mod Pending
pub mod Tracking
pub mod Matching
pub mod Sweep
use urban_goggles.Base.{ℤ, pos, ◌*◌, Text, codes, Bool, ◌∷◌, ◌++◌}
use urban_goggles.State.{Failure}

pub record PendingPrediction (F : Type 0) : Type 0 where
  pub id : Text
  pub agency_id : Text
  pub from_route : Text
  pub route_id : Text
  pub station_id : Text
  pub source_station : Text
  pub direction : ℤ
  pub source_delay_secs : ℤ
  pub predicted_secs : ℤ
  pub baseline_secs : ℤ
  pub sched_conn_dep_secs : ℤ
  pub earliest_catch_secs : ℤ
  pub confidence : F
  pub hops : ℤ
  pub hour : ℤ
  pub is_primary : Bool
  pub created_at : ℤ
  pub expires_at : ℤ
  pub observed_max : ℤ
  pub matched : Bool

pub data PendingError (E : Type 0) : Type 0 where
  failed : Failure E → PendingError E
  already_expired : PendingError E

unfoldable pub pending_key : Text → Text
pending_key id = codes "pending:pred:" ++ id

unfoldable pub index_key : Text → Text → Text → Text
index_key agency_id route_id station_id =
    codes "pending:idx:" ++ (agency_id ++ (b':' ∷ (route_id ++ (b':' ∷ station_id))))

abbrev pub expiry_key : Text
expiry_key = codes "pending:expiry"

-- 50 minutes, in nanoseconds.
abbrev pub pending_index_ttl : ℤ
pending_index_ttl = pos (50 * 60 * 1000000000)

abbrev pub prediction_window_secs : ℤ
prediction_window_secs = pos 1800
