-- ===== src/Transfers/Impacts.antt =====
-- What every impact that the detector reports is: a connection from the delayed stop to another
-- route, with the level that its remaining margin gives.
use urban_goggles.Base.{
  InInt64, ◌≤◌, ℤ, pos, pos_part, neg_part, ◌<◌, add32, sub32, sub64, ◌≤ℤ◌, ◌<ℤ◌, ◌+ℤ◌, int_laws,
  add64, add64_lem, wrap32, wrap32-eq_of_InInt32, part_zero, Text, Text_eq, some, List, [], ◌∷◌,
  ◌≡◌, ◌≢◌, ◌⊎◌, inl, inr, refl, arith, Option-cases,
}
use urban_goggles.Transit.{DelayEvent, ImpactLevel, TransferImpact, broken, at_risk}
use urban_goggles.Graph.{TransitGraph, Transfer, ScheduledStopTime}
use urban_goggles.Transfers.{min_transfer, classify, next_viable, reported, impact_of, judge}

-- The time that a transfer is given in the schedule is at most a million seconds.
abbrev pub IsShort : Transfer → Type 0
IsShort xfer = xfer.min_transfer_time ≤ℤ pos 1000000

-- The level, as a margin in seconds stands to the time that the transfer takes.
abbrev pub HasLevel : ℤ → TransferImpact → Type 0
HasLevel min imp =
    ((imp.level ≡ broken) × (imp.remaining_margin_seconds <ℤ min))
    ⊎ ((imp.level ≡ at_risk)
        × (min ≤ℤ imp.remaining_margin_seconds)
        × (imp.remaining_margin_seconds <ℤ min +ℤ pos 60)
        × (imp.additional_wait_seconds ≡ pos 0))

-- An impact on the connection that a transfer makes to a route.
pub record IsImpactOn (ev : DelayEvent) (xfer : Transfer) (route : Text) (imp : TransferImpact)
    : Type 0 where
  pub trip : imp.from_trip_id ≡ ev.trip_id
  pub delay : imp.source_delay_seconds ≡ ev.delay_seconds
  pub station : imp.station_id ≡ xfer.to_stop_id
  pub to_route : imp.to_route_id ≡ route
  pub other_route : route ≢ ev.route_id
  pub level : HasLevel (min_transfer xfer) imp
  pub wait : pos 0 ≤ℤ imp.additional_wait_seconds

next_viable_wait :
    (next_dep : ScheduledStopTime) (deps : List ScheduledStopTime)
    → pos 0 ≤ℤ (next_viable next_dep deps).1
unfolding next_viable
next_viable_wait next_dep [] = omega arith
next_viable_wait next_dep (dep ∷ deps) = ground arith

pub min_transfer_bound :
    (xfer : Transfer)
    → IsShort xfer
    → (0 < pos_part (min_transfer xfer))
      × (pos_part (min_transfer xfer) ≤ 1000000)
      × (neg_part (min_transfer xfer) ≡ 0)
unfolding min_transfer
min_transfer_bound xfer h = ground (arith, part_zero xfer.min_transfer_time)

-- The int32 conversions of the thresholds are exact.
min_transfer_exact :
    (xfer : Transfer)
    → IsShort xfer
    → let min = min_transfer xfer in
      (wrap32 min ≡ min) × (wrap32 (add64 min (pos 60)) ≡ min +ℤ pos 60)
min_transfer_exact xfer h =
    let min = min_transfer xfer in
    let bound = min_transfer_bound xfer h in
    let sum : InInt64 (min +ℤ pos 60) =
      (omega (int_laws, part_zero (min +ℤ pos 60)), omega (int_laws, part_zero (min +ℤ pos 60))) in
    (
      wrap32-eq_of_InInt32 min (omega arith, omega arith),
      rw (add64_lem min (pos 60) sum) (
          wrap32-eq_of_InInt32 (min +ℤ pos 60) (
            omega (int_laws, part_zero (min +ℤ pos 60)),
            omega (int_laws, part_zero (min +ℤ pos 60)),
          )),
    )

classify-HasLevel :
    (min remaining : ℤ) (level : ImpactLevel)
    → wrap32 min ≡ min
    → wrap32 (add64 min (pos 60)) ≡ min +ℤ pos 60
    → classify remaining min ≡ some level
    → ((level ≡ broken) × (remaining <ℤ min))
      ⊎ ((level ≡ at_risk) × (min ≤ℤ remaining) × (remaining <ℤ min +ℤ pos 60))
unfolding classify
classify-HasLevel min remaining level e e60 h = ground arith

module _ (g : TransitGraph) (ev : DelayEvent) (xfer : Transfer) (route : Text) where
  impact_of-IsImpactOn :
      (eff detected : ℤ) (next_dep : ScheduledStopTime) (remaining : ℤ) (level : ImpactLevel)
      → IsShort xfer
      → route ≢ ev.route_id
      → classify remaining (min_transfer xfer) ≡ some level
      → IsImpactOn ev xfer route (
          impact_of g ev xfer.to_stop_id route
            (min_transfer xfer)
            eff
            detected
            next_dep
            remaining
            level)
  unfolding impact_of reported
  impact_of-IsImpactOn eff detected next_dep remaining at_risk short other h =
      let (e, e60) = min_transfer_exact xfer short in
      let l = classify-HasLevel (min_transfer xfer) remaining at_risk e e60 h in
      record {
        trip = refl;
        delay = refl;
        station = refl;
        to_route = refl;
        other_route = other;
        level = ground arith;
        wait = omega arith;
      }
  impact_of-IsImpactOn eff detected next_dep remaining broken short other h =
      let (e, e60) = min_transfer_exact xfer short in
      let l = classify-HasLevel (min_transfer xfer) remaining broken e e60 h in
      record {
        trip = refl;
        delay = refl;
        station = refl;
        to_route = refl;
        other_route = other;
        level = ground arith;
        wait = next_viable_wait next_dep _;
      }

  pub judge-IsImpactOn :
      (eff detected : ℤ) (next_dep : ScheduledStopTime) (delay : ℤ) {imp : TransferImpact}
      → IsShort xfer
      → route ≢ ev.route_id
      → judge g ev xfer.to_stop_id route (min_transfer xfer) eff detected next_dep delay ≡ some imp
      → IsImpactOn ev xfer route imp
  unfolding judge
  judge-IsImpactOn eff detected next_dep delay {imp} short other h =
      let remaining =
        add32 (sub32 (wrap32 (sub64 next_dep.departure_secs eff)) ev.delay_seconds) delay in
      elim (Option-cases (classify remaining (min_transfer xfer))) [
        | inl e ↦ absurd (ground (arith, e, h))
        | inr (level, e) ↦
            let same : impact_of g ev xfer.to_stop_id route (min_transfer xfer) eff detected
                  next_dep remaining level
                ≡ imp =
              ground (arith, e, h) in
            rw⁻¹ same (impact_of-IsImpactOn eff detected next_dep remaining level short other e)
      ]
