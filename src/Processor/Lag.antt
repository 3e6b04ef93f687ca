-- ===== src/Processor/Lag.antt =====
-- The lag monitor of cmd/processor/main.go: the lag of each partition, their sum, and the catch-up
-- mode that `monitorLag` switches on its ticks.
pub mod Hysteresis
pub mod Sum
use urban_goggles.Base.{
  ℤ, pos, ltb_ℤ, add64, sub64, Text, Text_eq, Bool, true, false, not, ◌&&◌, List, [], ◌∷◌, ◌++◌,
  Map, insert, delete, if◌then◌else◌,
}

abbrev pub catch_up_enter_lag : ℤ
catch_up_enter_lag = pos 1000

abbrev pub catch_up_exit_lag : ℤ
catch_up_exit_lag = pos 100

-- The lag that `ConsumeClaim` stores for the message in hand.
unfoldable pub message_lag : ℤ → ℤ → ℤ
message_lag high_water_mark offset =
    let lag = sub64 (sub64 high_water_mark offset) (pos 1) in
    if ltb_ℤ lag (pos 0) then pos 0 else lag

abbrev pub PartitionLags : Type 0
PartitionLags = Map Text ℤ

-- A message at an offset is taken up, or the claim of a partition ends.
pub data ClaimEvent : Type 0 where
  takes : Text → ℤ → ℤ → ClaimEvent
  ends : Text → ClaimEvent

unfoldable pub claim_step : PartitionLags → ClaimEvent → PartitionLags
claim_step lags (takes lag_key high_water_mark offset) =
    insert lag_key (message_lag high_water_mark offset) lags
claim_step lags (ends lag_key) = delete lag_key lags

sum_from : ℤ → PartitionLags → ℤ
sum_from total [] = total
sum_from total ((_, v) ∷ rest) = sum_from (add64 total v) rest

unfoldable pub sum_lags : PartitionLags → ℤ
unfolding sum_from
sum_lags lags = sum_from (pos 0) lags

-- One tick: the mode afterwards.
unfoldable pub monitor_tick : ℤ → Bool → Bool
monitor_tick lag was_catch_up =
    if ltb_ℤ catch_up_enter_lag lag && not was_catch_up
    then true
    else if ltb_ℤ lag catch_up_exit_lag && was_catch_up
    then false
    else was_catch_up

-- The ticks of a run, each with the sum of the lags that it meets.
pub monitor_lag : Bool → List ℤ → Bool
monitor_lag catch_up [] = catch_up
monitor_lag catch_up (lag ∷ rest) = monitor_lag (monitor_tick lag catch_up) rest
