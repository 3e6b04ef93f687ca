-- ===== src/Processor/Lag/Hysteresis.antt =====
-- The catch-up mode after any ticks: the last lag outside the band between the thresholds decides.
use urban_goggles.Base.{
  ℤ, ltb_ℤ, Bool, true, false, Option, none, some, List, [], ◌∷◌, ◌≡◌, refl, arith, if◌then◌else◌,
}
use urban_goggles.Graph.{read_or}
use urban_goggles.Processor.Lag.{catch_up_enter_lag, catch_up_exit_lag, monitor_tick, monitor_lag}

-- What one lag says of the mode, if it says anything.
abbrev pub crossing : ℤ → Option Bool
crossing lag =
    if ltb_ℤ catch_up_enter_lag lag
    then some true
    else if ltb_ℤ lag catch_up_exit_lag
    then some false
    else none

-- The last lag that says something.
unfoldable pub last_crossing : List ℤ → Option Bool
last_crossing [] = none
last_crossing (lag ∷ rest) = elim (last_crossing rest) [ some b ↦ some b | none ↦ crossing lag ]

-- After any ticks the catch-up mode is what the last lag above the entry or below the exit
-- threshold says, and the mode at the start if there was none.
pub monitor_lag-last_crossing :
    (catch_up : Bool) (lags : List ℤ)
    → monitor_lag catch_up lags ≡ read_or catch_up (last_crossing lags)
unfolding monitor_lag last_crossing monitor_tick
monitor_lag-last_crossing catch_up [] = refl
monitor_lag-last_crossing catch_up (lag ∷ rest) =
    ground (arith, monitor_lag-last_crossing (monitor_tick lag catch_up) rest)
