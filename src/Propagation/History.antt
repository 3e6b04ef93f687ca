-- ===== src/Propagation/History.antt =====
-- internal/propagation/history.go: observed impacts of transfer pairs, in sorted sets. `now` and
-- `nano` are the clock's readings.
pub mod Retention
pub mod Stats
use urban_goggles.Base.{
  ℤ, pos, ◌*◌, add64, sub64, int_eq, Text, codes, decimal, Option, none, some, List, [], ◌∷◌, ◌++◌,
  if◌then◌else◌,
}
use urban_goggles.External.Redis.{Redis, Reply, ok, err, Codec}
use urban_goggles.External.SortedSets.{SortedSets, Command, zadd, zrem_to}
use urban_goggles.External.Float.{Float64}
use urban_goggles.State.{Failure, redis, json}

-- 30 days.
abbrev pub history_retention_secs : ℤ
history_retention_secs = pos (30 * 24 * 3600)

pub record Observation : Type 0 where
  pub source_delay : ℤ
  pub downstream_impact : ℤ
  pub at : ℤ

-- The error of a pipeline as that of its caller.
abbrev pub exec_failure : {E : Type 0} → Option E → Option (Failure E)
exec_failure none = none
exec_failure (some e) = some (redis e)

unfoldable pub history_key : Text → Text → Text → ℤ → Text
history_key from_route to_route station_id hour =
    codes "history:"
    ++ (from_route ++ (b':' ∷ (to_route ++ (b':' ∷ (station_id ++ (b':' ∷ decimal hour))))))

-- The loop over the members: the sum of one field, and the number of members that decode.
unfoldable pub tally : {A : Type 0} → Codec Text A → (A → ℤ) → List Text → ℤ × ℤ → ℤ × ℤ
tally c field [] total = total
tally c field (m ∷ ms) (sum, count) = elim (c.unmarshal m) [
  | none ↦ tally c field ms (sum, count)
  | some a ↦ tally c field ms (add64 sum (field a), add64 count (pos 1))
]

module _ (f : Float64) where
  -- The mean and the number, both 0 where nothing was counted.
  unfoldable pub mean : ℤ × ℤ → f.F × ℤ
  mean (sum, count) =
      if int_eq count (pos 0)
      then (f.lit 0 0, pos 0)
      else (f.div (f.of_int sum) (f.of_int count), count)

module _ (r : Redis) (z : SortedSets r) (c : Codec Text Observation) where
  unfoldable pub record_observation :
      r.Db → Text → Text → Text → ℤ → ℤ → ℤ → ℤ → ℤ → Option (Failure r.Error) × r.Db
  record_observation db from_route to_route station_id hour source_delay downstream_impact now
        nano =
      let key = history_key from_route to_route station_id hour in
      elim (c.marshal (record {
        source_delay = source_delay;
        downstream_impact = downstream_impact;
        at = nano;
      })) [
        | none ↦ (some json, db)
        | some payload ↦
            let (e, db') =
              z.exec db
                (zadd key now payload ∷ zrem_to key (sub64 now history_retention_secs) ∷ []) in
            (exec_failure e, db')
      ]

  module _ (f : Float64) where
    unfoldable pub get_average_impact :
        r.Db → Text → Text → Text → ℤ → ℤ → Reply r.Error (f.F × ℤ) × r.Db
    get_average_impact db from_route to_route station_id hour now =
        let (reply, db') =
          z.zrange_by_score db (history_key from_route to_route station_id hour)
            (some (sub64 now history_retention_secs)) none none in
        (
          elim reply [
            | err e ↦ err e
            | ok ms ↦ ok (mean f (tally c (λ o. o.downstream_impact) ms (pos 0, pos 0)))
          ],
          db',
        )
