-- ===== src/Processor/Enrich/Outcome.antt =====
-- What `enrichEvent` does to an event, on its hits and its misses.
use urban_goggles.Base.{
  ◌^◌, ◌≤◌, ◌<◌, ℤ, pos, pos_part, neg_part, ◌+ℤ◌, ◌-ℤ◌, part_zero, int_laws, sub64,
  wrap32-eq_of_InInt32, sub64_lem, true, false, some, ◌≡◌, ◌⊎◌, refl, arith,
}
use urban_goggles.Transit.{DelayEvent, EventType}
use urban_goggles.Graph.{
  TransitGraph, ScheduledStopTime, get_scheduled_stop_time, secs_since_midnight,
}
use urban_goggles.Graph.Clock.{IsWallClock, secs_since_midnight-IsTimeOfDay}
use urban_goggles.Processor.Enrich.{
  enrich_event, apply_delay, is_time_only, nearest_delay, sched_secs,
}
use urban_goggles.Processor.Enrich.Nearest.{Within, nearest_delay_lem}

-- A time in a schedule: from midnight to noon of the day after.
abbrev pub IsScheduleTime : ℤ → Type 0
IsScheduleTime a = (pos_part a ≤ 129600) × (neg_part a ≤ 0)

abbrev pub HasScheduleTimes : ScheduledStopTime → Type 0
HasScheduleTimes st = IsScheduleTime st.arrival_secs × IsScheduleTime st.departure_secs

sched_secs-IsScheduleTime :
    (t : EventType) (st : ScheduledStopTime)
    → HasScheduleTimes st
    → IsScheduleTime (sched_secs t st)
unfolding sched_secs
sched_secs-IsScheduleTime t st h = ground arith

-- The parts of an enriched event, `pred_tod` and `secs` being the two times of day.
pub record IsEnriched (pred_tod secs : ℤ) (ev ev' : DelayEvent) : Type 0 where
  pub others :
      ev'
      ≡ record ev { delay_seconds = ev'.delay_seconds; scheduled_arrival = ev'.scheduled_arrival }
  pub half_day : Within 43200 ev'.delay_seconds
  pub consistent : ev'.scheduled_arrival +ℤ ev'.delay_seconds ≡ ev.predicted_arrival
  pub same_time_of_day :
      (ev'.delay_seconds ≡ pred_tod -ℤ secs)
      ⊎ (ev'.delay_seconds ≡ pred_tod -ℤ secs -ℤ pos 86400)
      ⊎ (ev'.delay_seconds ≡ pred_tod -ℤ secs +ℤ pos 86400)

apply_delay-IsEnriched :
    (pred_tod secs : ℤ) (ev : DelayEvent)
    → (pos_part pred_tod < 86400) × (neg_part pred_tod ≤ 0)
    → IsScheduleTime secs
    → Within (2 ^ 62) ev.predicted_arrival
    → IsEnriched pred_tod secs ev (apply_delay ev (nearest_delay (sub64 pred_tod secs)))
unfolding apply_delay
apply_delay-IsEnriched pred_tod secs ev hp hs he =
    let raw = pred_tod -ℤ secs in
    let d = nearest_delay raw in
    let p = ev.predicted_arrival in
    let near = nearest_delay_lem raw (omega (int_laws, part_zero raw)) in
    let wrap_d = wrap32-eq_of_InInt32 d (omega arith) in
    let sub_d = sub64_lem p d (omega (int_laws, part_zero (p -ℤ d))) in
    rw (sub64_lem pred_tod secs (omega (int_laws, part_zero raw)), wrap_d, sub_d)
      (record {
        others = refl;
        half_day = near.0;
        consistent = omega int_laws;
        same_time_of_day = near.1;
      })

module _ (g : TransitGraph) (now : ℤ) (ev : DelayEvent) where
  -- An event that `enrichEvent` reports as not enriched is unchanged.
  enrich_event-miss : (enrich_event g now ev).1 ≡ false → (enrich_event g now ev).0 ≡ ev
  unfolding enrich_event
  enrich_event-miss h = ground arith

  -- With a time zone that answers with times of day, a schedule row between midnight and noon of
  -- the day after, and a predicted time within 2 ^ 62 seconds of zero: an event that is reported
  -- as enriched was a time-only arrival or departure, only its delay and scheduled time are
  -- changed, the delay is at most half a day and the two times of day apart up to one day, and the
  -- scheduled time and the delay add up to the predicted time.
  pub enrich_event-hit :
      (st : ScheduledStopTime)
      → IsWallClock g.tz
      → get_scheduled_stop_time g ev.trip_id ev.stop_id ≡ some st
      → HasScheduleTimes st
      → Within (2 ^ 62) ev.predicted_arrival
      → (enrich_event g now ev).1 ≡ true
      → (is_time_only ev ≡ true)
        × IsEnriched
            (secs_since_midnight g now ev.predicted_arrival)
            (sched_secs ev.event_type st)
            ev
            (enrich_event g now ev).0
  unfolding enrich_event
  enrich_event-hit st w row times small h = (
    ground arith,
    rw hit (
        apply_delay-IsEnriched pred_tod secs ev
          (secs_since_midnight-IsTimeOfDay g now ev.predicted_arrival w)
          (sched_secs-IsScheduleTime ev.event_type st times) small),
  )
    where
      pred_tod : ℤ
      pred_tod = secs_since_midnight g now ev.predicted_arrival

      secs : ℤ
      secs = sched_secs ev.event_type st

      hit : (enrich_event g now ev).0 ≡ apply_delay ev (nearest_delay (sub64 pred_tod secs))
      hit = ground arith
