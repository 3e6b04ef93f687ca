-- ===== src/Propagation/StopImpact.antt =====
-- internal/propagation/stopimpact.go: observed outcomes of single stops, in sorted sets.
use urban_goggles.Base.{ℤ, pos, sub64, Text, codes, decimal, Option, none, some, [], ◌∷◌, ◌++◌}
use urban_goggles.External.Redis.{Redis, Reply, ok, err, Codec}
use urban_goggles.External.SortedSets.{SortedSets, zadd, zrem_to}
use urban_goggles.External.Float.{Float64}
use urban_goggles.State.{Failure, json}
use urban_goggles.Propagation.History.{history_retention_secs, exec_failure, tally, mean}

pub record StopOutcome : Type 0 where
  pub observed : ℤ
  pub at : ℤ

unfoldable pub stop_impact_key : Text → Text → ℤ → Text
stop_impact_key route_id station_id hour =
    codes "stopimpact:" ++ (route_id ++ (b':' ∷ (station_id ++ (b':' ∷ decimal hour))))

module _ (r : Redis) (z : SortedSets r) (c : Codec Text StopOutcome) where
  unfoldable pub record_stop_outcome :
      r.Db → Text → Text → ℤ → ℤ → ℤ → ℤ → Option (Failure r.Error) × r.Db
  record_stop_outcome db route_id station_id hour observed_delay now nano =
      let key = stop_impact_key route_id station_id hour in
      elim (c.marshal (record { observed = observed_delay; at = nano })) [
        | none ↦ (some json, db)
        | some payload ↦
            let (e, db') =
              z.exec db
                (zadd key now payload ∷ zrem_to key (sub64 now history_retention_secs) ∷ []) in
            (exec_failure e, db')
      ]

  module _ (f : Float64) where
    unfoldable pub get_average_stop_impact :
        r.Db → Text → Text → ℤ → ℤ → Reply r.Error (f.F × ℤ) × r.Db
    get_average_stop_impact db route_id station_id hour now =
        let (reply, db') =
          z.zrange_by_score db (stop_impact_key route_id station_id hour)
            (some (sub64 now history_retention_secs)) none none in
        (
          elim reply [
            | err e ↦ err e
            | ok ms ↦ ok (mean f (tally c (λ o. o.observed) ms (pos 0, pos 0)))
          ],
          db',
        )
