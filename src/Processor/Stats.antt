-- ===== src/Processor/Stats.antt =====
-- One report of `reportStats` in cmd/processor/main.go: the mean and the greatest of the delays'
-- sizes, over the state manager. The sum and the maximum are int32.
use urban_goggles.Base.{
  ℤ, pos, ltb_ℤ, sub32, add32, Text, Option, none, some, List, [], ◌∷◌, length, if◌then◌else◌,
}
use urban_goggles.External.Redis.{Redis, ok, err, Codec}
use urban_goggles.External.Float.{Float64}
use urban_goggles.State.{DelayState}
use urban_goggles.State.Listing.{get_all_active_delays}

-- What is logged; `avg` and `max` are left out where there are no delays.
pub record Report (F : Type 0) : Type 0 where
  pub active : ℤ
  pub sizes : Option (F × ℤ)

module _ (f : Float64) where
  -- The loop, with the sum and the maximum so far.
  unfoldable pub tally : List (DelayState f.F) → ℤ × ℤ → ℤ × ℤ
  tally [] so_far = so_far
  tally (d ∷ rest) (sum, max) =
      let s =
        if ltb_ℤ d.delay_seconds (pos 0) then sub32 (pos 0) d.delay_seconds else d.delay_seconds in
      tally rest (add32 sum s, if ltb_ℤ max s then s else max)

  unfoldable pub report_of : List (DelayState f.F) → Report f.F
  report_of [] = record { active = pos 0; sizes = none }
  report_of (d ∷ rest) =
      let n = pos (length (d ∷ rest)) in
      let (sum, max) = tally (d ∷ rest) (pos 0, pos 0) in
      record { active = n; sizes = some (f.div (f.of_int sum) (f.of_int n), max) }

  -- A failed fetch reports nothing.
  unfoldable pub report_stats :
      (r : Redis) → Codec r.Value (DelayState f.F) → r.Db → Text → Option (Report f.F) × r.Db
  report_stats r c db agency_id =
      let (found, db') = get_all_active_delays f r c db agency_id in
      elim found [ ok delays ↦ (some (report_of delays), db') | err e ↦ (none, db') ]
