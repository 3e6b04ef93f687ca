-- ===== src/Transfers/Margins.antt =====
-- The connections that the detector looks at are ones that the schedule leaves time for.
use mathlib.Core.List.{Memᴰ}
use urban_goggles.Base.{
  ℕ, ltb_ℤ→le, suc, zero, ◌≤◌, ◌<◌, ℤ, pos, pos_part, neg_part, ◌≤ℤ◌, ◌-ℤ◌, ◌+ℤ◌, leb_ℤ, int_laws,
  part_zero, add64, add64_lem, sub64, sub64_lem, wrap32, wrap32-eq_of_InInt32, InInt32, InInt64,
  add32, sub32, Text, Text_eq, ◌==◌, Bool, true, ◌&&◌, some, List, [], ◌∷◌, ◌≡◌, inl, inr, refl,
  arith, All, take, keep_if, Bool-cases, Option-cases, sym, ◌∙◌,
}
use urban_goggles.External.Redis.{Redis, Codec}
use urban_goggles.External.Float.{Float64}
use urban_goggles.Transit.{DelayEvent, ImpactLevel, TransferImpact, broken, at_risk}
use urban_goggles.Graph.{
  TransitGraph, Transfer, ScheduledStopTime, get_transfers_from, get_next_departures,
  next_departures_after, stop_times_at, is_on_route,
}
use urban_goggles.Graph.Clock.{IsWallClock, IsTimeOfDay, secs_since_midnight-IsTimeOfDay}
use urban_goggles.Graph.Departures.{
  IsSorted, IsFrame, get_next_departures_lem, next_departures_after-IsFrame,
}
use urban_goggles.State.{DelayState}
use urban_goggles.Transfers.{
  min_transfer, tod_from_unix, arrival_tod, classify, reported, impact_of, judge, first_connection,
  check_route, evaluate_delay,
}
use urban_goggles.Transfers.Impacts.{IsShort, min_transfer_bound}
use urban_goggles.Transfers.Reports.{All-member, check_route-IsImpactOn, check_transfers-All}

module _ {A : Type 0} (p : A → Bool) (P : A → Type 0) where
  -- The first member that is kept passes the test, and has what all members have.
  head-keep_if :
      (n : ℕ) (xs : List A) {y : A} {ys : List A}
      → All P xs
      → take n (keep_if p xs) ≡ y ∷ ys
      → (p y ≡ true) × P y
  unfolding keep_if
  head-keep_if zero xs all h = absurd (ground (arith, h))
  head-keep_if (suc n) [] all h = absurd (ground (arith, h))
  head-keep_if (suc n) (x ∷ xs) {y} {ys} (px, all) h = elim (Bool-cases (p x)) [
    | inl e ↦ let same : x ≡ y = ground (arith, e, h) in rw⁻¹ same (e, px)
    | inr e ↦ head-keep_if (suc n) xs {y = y} {ys = ys} all (ground (arith, e, h))
  ]

-- Departures are at most a million seconds after midnight.
abbrev pub IsDeparture : ScheduledStopTime → Type 0
IsDeparture st = st.departure_secs ≤ℤ pos 1000000

-- A time of day, or one counted in the schedule of the day before.
abbrev IsFrameTime : ℤ → Type 0
IsFrameTime a = (pos_part a < 200000) × (neg_part a ≤ 0)

arrival_tod-IsTimeOfDay :
    (g : TransitGraph) (now : ℤ) (ev : DelayEvent)
    → IsWallClock g.tz
    → IsTimeOfDay (arrival_tod g now ev)
unfolding arrival_tod tod_from_unix
arrival_tod-IsTimeOfDay g now ev w = ground (
  arith,
  secs_since_midnight-IsTimeOfDay g now ev.scheduled_arrival w,
  secs_since_midnight-IsTimeOfDay g now ev.observed_at w,
)

IsFrame-IsFrameTime : (tod frame : ℤ) → IsTimeOfDay tod → IsFrame tod frame → IsFrameTime frame
IsFrame-IsFrameTime tod frame h (inl e) = rw e (omega arith, omega arith)
IsFrame-IsFrameTime tod frame h (inr (early, e)) =
    rw
      (
        e,
        add64_lem tod (pos 86400) (
          omega (int_laws, part_zero (tod +ℤ pos 86400)),
          omega (int_laws, part_zero (tod +ℤ pos 86400)),
        ),
      )
      (
        omega (int_laws, part_zero (tod +ℤ pos 86400)),
        omega (int_laws, part_zero (tod +ℤ pos 86400)),
      )

-- A departure that the transfer leaves time for has a margin of at least that time.
margin_lem :
    (dep eff min : ℤ)
    → IsFrameTime eff
    → (pos_part min ≤ 1000000) × (neg_part min ≡ 0)
    → dep ≤ℤ pos 1000000
    → leb_ℤ (add64 eff min) dep ≡ true
    → min ≤ℤ wrap32 (sub64 dep eff)
margin_lem dep eff min he hm hd after =
    let sum : InInt64 (eff +ℤ min) = (
      omega (int_laws, part_zero min, part_zero (eff +ℤ min)),
      omega (int_laws, part_zero (eff +ℤ min)),
    ) in
    let later : eff +ℤ min ≤ℤ dep =
      ltb_ℤ→le dep (eff +ℤ min) (ground (arith, add64_lem eff min sum)) in
    let margin = dep -ℤ eff in
    let wide : InInt64 margin =
      (omega (int_laws, part_zero margin), omega (int_laws, part_zero margin)) in
    let narrow : InInt32 margin =
      (omega (int_laws, part_zero margin), omega (int_laws, part_zero margin)) in
    rw (sub64_lem dep eff wide, wrap32-eq_of_InInt32 margin narrow) (omega int_laws)

-- The transfer's time fits into the scheduled margin of an impact.
abbrev pub Fits : Transfer → TransferImpact → Type 0
Fits xfer imp = min_transfer xfer ≤ℤ imp.original_transfer_margin_seconds

impact_of-margin :
    (g : TransitGraph) (ev : DelayEvent) (station route : Text) (min eff detected : ℤ)
    (next_dep : ScheduledStopTime) (remaining : ℤ) (level : ImpactLevel)
    → (impact_of g ev station route min eff detected next_dep remaining
        level).original_transfer_margin_seconds
      ≡ wrap32 (sub64 next_dep.departure_secs eff)
unfolding impact_of reported
impact_of-margin g ev station route min eff detected next_dep remaining at_risk = refl
impact_of-margin g ev station route min eff detected next_dep remaining broken = refl

judge-margin :
    (g : TransitGraph) (ev : DelayEvent) (station route : Text) (min eff detected : ℤ)
    (next_dep : ScheduledStopTime) (delay : ℤ) {imp : TransferImpact}
    → judge g ev station route min eff detected next_dep delay ≡ some imp
    → imp.original_transfer_margin_seconds ≡ wrap32 (sub64 next_dep.departure_secs eff)
unfolding judge
judge-margin g ev station route min eff detected next_dep delay {imp} h =
    let remaining =
      add32 (sub32 (wrap32 (sub64 next_dep.departure_secs eff)) ev.delay_seconds) delay in
    elim (Option-cases (classify remaining min)) [
      | inl e ↦ absurd (ground (arith, e, h))
      | inr (level, e) ↦
          let same : impact_of g ev station route min eff detected next_dep remaining level ≡ imp =
            ground (arith, e, h) in
          rw⁻¹ same (impact_of-margin g ev station route min eff detected next_dep remaining level)
    ]

module _ (f : Float64) (r : Redis) (c : Codec r.Value (DelayState f.F)) (g : TransitGraph)
    (clock : IsWallClock g.tz) (sorted : (s : Text) → IsSorted (stop_times_at g s))
    (departures : (s : Text) → All IsDeparture (stop_times_at g s)) (ev : DelayEvent) (now : ℤ)
    (detected : ℕ → ℤ) where
  check_route-Fits :
      (db : r.Db) (i : ℕ) (xfer : Transfer) (route : Text) {imp : TransferImpact}
      → IsShort xfer
      → (check_route f r c g ev now detected db i xfer route).0 ≡ some imp
      → Fits xfer imp
  unfolding check_route first_connection
  check_route-Fits db i xfer route {imp} short h = elim (Bool-cases (route == ev.route_id)) [
    | inl own ↦ absurd (ground (arith, own, h))
    | inr other ↦
        go (get_next_departures g xfer.to_stop_id route (add64 eff min) 3) refl (rw other at h)
  ]
    where
      min : ℤ
      min = min_transfer xfer

      eff : ℤ
      eff = (next_departures_after g xfer.to_stop_id route (arrival_tod g now ev) 1).1

      frame : IsFrameTime eff
      frame =
          IsFrame-IsFrameTime (arrival_tod g now ev) eff (arrival_tod-IsTimeOfDay g now ev clock)
            (next_departures_after-IsFrame g xfer.to_stop_id route (arrival_tod g now ev) 1).0

      go :
          (deps : List ScheduledStopTime)
          → get_next_departures g xfer.to_stop_id route (add64 eff min) 3 ≡ deps
          → (first_connection f r c g ev now detected db i xfer.to_stop_id route min eff deps).0
            ≡ some imp
          → Fits xfer imp
      go [] found h = absurd (ground (arith, h))
      go (next_dep ∷ rest) found h =
          let list =
            get_next_departures_lem g xfer.to_stop_id route (add64 eff min) 3
              (sorted xfer.to_stop_id) in
          let head =
            head-keep_if (λ st. leb_ℤ (add64 eff min) st.departure_secs && is_on_route g route st)
              IsDeparture 3 (stop_times_at g xfer.to_stop_id) {y = next_dep} {ys = rest}
              (departures xfer.to_stop_id) (sym list ∙ found) in
          let bound = min_transfer_bound xfer short in
          rw (judge-margin g ev xfer.to_stop_id route min eff (detected i) next_dep _ {imp = imp} h)
            (margin_lem next_dep.departure_secs eff min frame (bound.1, bound.2) head.1
              (ground (arith, head)))

  -- If the time zone answers with times of day, every stop's times are sorted by departure and at
  -- most a million seconds, and no transfer takes longer than that, then every impact is on a
  -- connection that the schedule leaves time for: the scheduled margin is at least the time of a
  -- transfer at the event's stop.
  pub evaluate_delay-Fits :
      (db : r.Db)
      → All IsShort (get_transfers_from g ev.stop_id)
      → All
          (λ imp.
            (xfer : Transfer) × (Memᴰ xfer (get_transfers_from g ev.stop_id))
            × (imp.station_id ≡ xfer.to_stop_id)
            × Fits xfer imp)
          (evaluate_delay f r c g ev now detected db).0
  unfolding evaluate_delay
  evaluate_delay-Fits db short = elim (Bool-cases (leb_ℤ ev.delay_seconds (pos 0))) [
    | inl on_time ↦ rw (on_time, evaluate_delay) tt
    | inr late ↦
        rw (late, evaluate_delay)
          (check_transfers-All f r c g ev now detected _ (get_transfers_from g ev.stop_id) db 0
            (λ db i xfer route imp leaves serves found.
              let near = All-member IsShort _ short leaves in
              (
                xfer,
                leaves,
                (check_route-IsImpactOn f r c g ev now detected db i xfer route {imp = imp} near
                    found).station,
                check_route-Fits db i xfer route {imp = imp} near found,
              )))
  ]
