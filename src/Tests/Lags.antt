-- ===== src/Tests/Lags.antt =====
-- Lags, ticks and retries: cmd/processor/main.go.
use urban_goggles.Base.{
  add64, wrap64, ◌+ℤ◌, ℕ, pos, Text_eq, codes, leb, Bool, true, false, Option, none, some, [], ◌∷◌,
  ◌≡◌, refl, arith, length, if◌then◌else◌,
}
use urban_goggles.Processor.Lag.{PartitionLags, sum_lags, monitor_tick, monitor_lag}
use urban_goggles.Processor.Lag.Hysteresis.{last_crossing, monitor_lag-last_crossing}
use urban_goggles.Processor.Retry.{with_retry}
use urban_goggles.Processor.Retry.Attempts.{GivesUp, with_retry-recovers, with_retry-GivesUp}

monitor_lag-last_crossing_example : monitor_lag false (pos 500 ∷ pos 2000 ∷ pos 300 ∷ []) ≡ true
unfolding last_crossing
monitor_lag-last_crossing_example =
    monitor_lag-last_crossing false (pos 500 ∷ pos 2000 ∷ pos 300 ∷ [])

abbrev lags : PartitionLags
lags = (codes "delays/0", pos 4) ∷ (codes "delays/1", pos 1500) ∷ []

behind : monitor_tick (sum_lags lags) false ≡ true
unfolding sum_lags monitor_tick add64 wrap64 ◌+ℤ◌
behind = refl

-- The first two attempts fail, each with its number.
abbrev third_time : ℕ → Option ℕ
third_time i = if leb 2 i then none else some i

abbrev never_done : ℕ → Bool
never_done i = false

with_retry-recovers_example :
    ((with_retry third_time never_done 5 (pos 100)).0 ≡ none)
    × (length (with_retry third_time never_done 5 (pos 100)).1 ≡ 2)
with_retry-recovers_example =
    with_retry-recovers third_time never_done 5 2 (pos 100) (omega arith)
      (ground arith, refl, (ground arith, refl, tt)) refl

exhausted : (with_retry third_time never_done 2 (pos 100)).0 ≡ some 1
unfolding with_retry
exhausted = refl

with_retry-GivesUp_example :
    GivesUp third_time never_done 2 0 (length (with_retry third_time never_done 2 (pos 100)).1) 1
with_retry-GivesUp_example =
    with_retry-GivesUp third_time never_done 2 (pos 100) 1 (omega arith) exhausted
