-- ===== src/Graph/Clock.antt =====
-- The time of day that `SecsSinceMidnight` reads off the clock on the wall.
use urban_goggles.Base.{◌≤◌, ◌<◌, ℤ, pos_part, neg_part, arith}
use urban_goggles.Graph.{TransitGraph, WallClock, secs_since_midnight}

-- The time zone answers with times of day.
abbrev pub IsWallClock : (ℤ → WallClock) → Type 0
IsWallClock tz = (t : ℤ) → ((tz t).hour < 24) × ((tz t).minute < 60) × ((tz t).second < 60)

abbrev pub IsTimeOfDay : ℤ → Type 0
IsTimeOfDay a = (pos_part a < 86400) × (neg_part a ≤ 0)

pub secs_since_midnight-IsTimeOfDay :
    (g : TransitGraph) (now ts : ℤ) → IsWallClock g.tz → IsTimeOfDay (secs_since_midnight g now ts)
unfolding secs_since_midnight
secs_since_midnight-IsTimeOfDay g now ts w = ground (arith, w ts, w now)
