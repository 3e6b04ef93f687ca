-- ===== src/Server/Reliability.antt =====
-- `GetTransferReliability` of internal/server/handlers.go.
use urban_goggles.Base.{ℕ, ℤ, wrap32, Text, none, some, List, map}
use urban_goggles.External.Redis.{Reply, ok, err}
use urban_goggles.Graph.{parent_station_id}
use urban_goggles.Propagation.Engine.{PropagationEngine}
use urban_goggles.Propagation.History.Stats.{TransferStat, get_transfer_stats}

module _ (e : PropagationEngine) {F32 : Type 0} (to_float32 : e.float.F → F32) where
  unfoldable pub transfer_stat : TransferStat e.float.F → TransferStat F32
  transfer_stat st = record {
    from_route_id = st.from_route_id;
    to_route_id = st.to_route_id;
    station_id = st.station_id;
    avg_delay_when_broken = to_float32 st.avg_delay_when_broken;
    sample_count = wrap32 st.sample_count;
  }

  unfoldable pub get_transfer_reliability :
      (ℕ → ℤ) → e.redis.Db → Text → ℤ → Reply e.redis.Error (List (TransferStat F32)) × e.redis.Db
  unfolding transfer_stat
  get_transfer_reliability clock db station_id hour =
      let ((stats, error), db') =
        get_transfer_stats e.float e.redis e.sets e.observations clock
          (parent_station_id e.graph station_id) hour db in
      elim error [ some failed ↦ (err failed, db') | none ↦ (ok (map transfer_stat stats), db') ]
