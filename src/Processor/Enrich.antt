-- ===== src/Processor/Enrich.antt =====
-- `enrichEvent` of cmd/processor/enrich.go. The hit and miss counters are left out.
pub mod Nearest
pub mod Outcome
use urban_goggles.Base.{
  ℤ, pos, ltb_ℤ, int_eq, add64, sub64, abs64, wrap32, Bool, true, false, not, ◌||◌, Option, none,
  some, if◌then◌else◌,
}
use urban_goggles.Transit.{DelayEvent, EventType, departure_delay, is_delay_type}
use urban_goggles.Graph.{
  TransitGraph, ScheduledStopTime, get_scheduled_stop_time, secs_since_midnight,
}

-- The guards at the top: only a time-only arrival or departure is enriched.
unfoldable pub is_time_only : DelayEvent → Bool
is_time_only ev =
    if not (int_eq ev.delay_seconds (pos 0))
      || (int_eq ev.predicted_arrival (pos 0) || not (int_eq ev.scheduled_arrival (pos 0)))
    then false
    else is_delay_type ev.event_type

typed_secs : EventType → ScheduledStopTime → ℤ
typed_secs departure_delay st = st.departure_secs
typed_secs _ st = st.arrival_secs

-- `schedSecs`, 0 where the row has no time.
unfoldable pub sched_secs : EventType → ScheduledStopTime → ℤ
unfolding typed_secs
sched_secs event_type st =
    if int_eq (typed_secs event_type st) (pos 0)
    then (if int_eq st.arrival_secs (pos 0) then st.departure_secs else st.arrival_secs)
    else typed_secs event_type st

-- One round of the loop over the candidates.
closer : ℤ → ℤ → ℤ
closer best cand = if ltb_ℤ (abs64 cand) (abs64 best) then cand else best

-- The candidate among raw, raw - 86400 and raw + 86400 of the smallest magnitude.
unfoldable pub nearest_delay : ℤ → ℤ
unfolding closer
nearest_delay raw = closer (closer raw (sub64 raw (pos 86400))) (add64 raw (pos 86400))

apply_delay : DelayEvent → ℤ → DelayEvent
apply_delay ev best = record ev {
  delay_seconds = wrap32 best;
  scheduled_arrival = sub64 ev.predicted_arrival best;
}

enrich_from : ℤ → DelayEvent → ℤ → DelayEvent × Bool
unfolding apply_delay
enrich_from pred_tod ev secs =
    if int_eq secs (pos 0)
    then (ev, false)
    else (apply_delay ev (nearest_delay (sub64 pred_tod secs)), true)

-- The event afterwards, and whether it was enriched. `now` is the clock's reading.
unfoldable pub enrich_event : TransitGraph → ℤ → DelayEvent → DelayEvent × Bool
unfolding enrich_from
enrich_event g now ev =
    if is_time_only ev
    then elim (get_scheduled_stop_time g ev.trip_id ev.stop_id) [
      | none ↦ (ev, false)
      | some st ↦
          enrich_from (secs_since_midnight g now ev.predicted_arrival) ev
            (sched_secs ev.event_type st)
    ]
    else (ev, false)
