-- ===== src/Propagation/History/Stats.antt =====
-- `GetTransferStats` of internal/propagation/history.go. The iterator's scan
-- is taken as a whole before the reads, which change no key.
pub mod Keys
use urban_goggles.Base.{
  atoi, ℕ, zero, suc, ◌+◌, ℤ, pos, int_eq, Text, codes, decimal, after_byte, before_byte, Option,
  none, some, List, [], ◌∷◌, ◌++◌, if◌then◌else◌,
}
use urban_goggles.External.Redis.{Redis, Reply, ok, err, Codec}
use urban_goggles.External.SortedSets.{SortedSets}
use urban_goggles.External.Float.{Float64}
use urban_goggles.Propagation.History.{Observation, get_average_impact}

pub record TransferStat (F : Type 0) : Type 0 where
  pub from_route_id : Text
  pub to_route_id : Text
  pub station_id : Text
  pub avg_delay_when_broken : F
  pub sample_count : ℤ

-- strings.SplitN at one byte.
unfoldable pub split_n : ℕ → ℕ → Text → List Text
split_n b zero s = []
split_n b (suc zero) s = s ∷ []
split_n b (suc (suc n)) s = elim (after_byte b s) [
  | none ↦ s ∷ []
  | some rest ↦ before_byte b s ∷ split_n b (suc n) rest
]

unfoldable pub pair_in : List Text → Option (Text × Text)
pair_in (_ ∷ from_route ∷ to_route ∷ _ ∷ hour ∷ []) =
    if (atoi hour).1 then some (from_route, to_route) else none
pair_in _ = none

unfoldable pub stats_pattern : Text → ℤ → Text
stats_pattern station_id hour = codes "history:*:*:" ++ (station_id ++ (b':' ∷ decimal hour))

module _ (f : Float64) (r : Redis) (z : SortedSets r) (c : Codec Text Observation) (clock : ℕ → ℤ)
    (station_id : Text) (hour : ℤ) where
  -- What one pair adds, with the reply to its read.
  unfoldable pub stat_of : Text × Text → Reply r.Error (f.F × ℤ) → List (TransferStat f.F)
  stat_of _ (err _) = []
  stat_of (from_route, to_route) (ok (avg, count)) =
      if int_eq count (pos 0)
      then []
      else record {
        from_route_id = from_route;
        to_route_id = to_route;
        station_id = station_id;
        avg_delay_when_broken = avg;
        sample_count = count;
      }
        ∷ []

  -- `clock i` is the reading for the i-th key.
  unfoldable pub stats_loop : ℕ → List Text → r.Db → List (TransferStat f.F) × r.Db
  unfolding split_n pair_in stat_of
  stats_loop i [] db = ([], db)
  stats_loop i (key ∷ keys) db = elim (pair_in (split_n b':' 5 key)) [
    | none ↦ stats_loop (i + 1) keys db
    | some pair ↦
        let (reply, db1) = get_average_impact r z c f db pair.0 pair.1 station_id hour (clock i) in
        let (more, db2) = stats_loop (i + 1) keys db1 in (stat_of pair reply ++ more, db2)
  ]

  -- The stats that were collected come with the error that ended the scan.
  unfoldable pub get_transfer_stats : r.Db → (List (TransferStat f.F) × Option r.Error) × r.Db
  unfolding stats_loop stats_pattern
  get_transfer_stats db =
      let ((keys, error), db1) = r.scan db (stats_pattern station_id hour) in
      let (stats, db2) = stats_loop 0 keys db1 in ((stats, error), db2)
