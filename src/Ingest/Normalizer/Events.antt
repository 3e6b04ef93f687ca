-- ===== src/Ingest/Normalizer/Events.antt =====
-- What `NormalizeTripUpdate` emits: which stops are reported, and what each event carries.
use urban_goggles.Base.{
  ℤ, pos, Text, Bool, true, false, ◌||◌, some, List, [], ◌∷◌, map, ◌≡◌, refl, ◌⊎◌, arith, All,
  All-append, keep_if, sub64, ◌<ℤ◌, if◌then◌else◌,
}
use urban_goggles.Transit.{DelayEvent, is_delay_type}
use urban_goggles.Ingest.Normalizer.{
  TripDescriptor, StopTimeUpdate, is_canceled, is_skipped, has_time, extract_delay, normalize_stop,
  normalize_stops, normalize_trip_update, route_of_trip, stamped,
}

-- An event that carries a delay agrees with the times beside it; any other has delay 0.
pub record IsEventOf (agency_id : Text) (observed_at : ℤ) (trip : TripDescriptor) (ev : DelayEvent)
    : Type 0 where
  pub agency : ev.agency_id ≡ agency_id
  pub trip_id : ev.trip_id ≡ trip.trip_id
  pub route : ev.route_id ≡ route_of_trip trip
  pub observed : ev.observed_at ≡ observed_at
  pub retraction : (is_delay_type ev.event_type ≡ true) ⊎ (ev.delay_seconds ≡ pos 0)
  pub schedule :
      (is_delay_type ev.event_type ≡ false)
      ⊎ (ev.scheduled_arrival ≡ pos 0)
      ⊎ ((pos 0 <ℤ ev.predicted_arrival)
          × (ev.scheduled_arrival ≡ sub64 ev.predicted_arrival ev.delay_seconds))

-- The stop time updates that lead to an event.
unfoldable pub is_reported : StopTimeUpdate → Bool
unfolding is_skipped
is_reported stu =
    is_skipped stu.schedule_relationship || (has_time stu.arrival || has_time stu.departure)

stop_ids-stops :
    (base : DelayEvent) (updates : List StopTimeUpdate)
    → map (λ ev. ev.stop_id) (normalize_stops base updates)
      ≡ map (λ s. s.stop_id) (keep_if is_reported updates)
unfolding normalize_stop normalize_stops extract_delay keep_if is_reported
stop_ids-stops base [] = refl
stop_ids-stops base (stu ∷ rest) = ground (arith, stop_ids-stops base rest)

module _ (agency_id : Text) (observed_at : ℤ) (trip : TripDescriptor) where
  stop-IsEventOf :
      (stu : StopTimeUpdate)
      → All
          (IsEventOf agency_id observed_at trip)
          (normalize_stop (stamped agency_id observed_at trip.trip_id (route_of_trip trip)) stu)
  unfolding normalize_stop extract_delay stamped
  stop-IsEventOf stu = ground arith

  stops-IsEventOf :
      (updates : List StopTimeUpdate)
      → All (IsEventOf agency_id observed_at trip) (
          normalize_stops (stamped agency_id observed_at trip.trip_id (route_of_trip trip)) updates)
  unfolding normalize_stops
  stops-IsEventOf [] = tt
  stops-IsEventOf (stu ∷ rest) =
      All-append _
        (normalize_stop (stamped agency_id observed_at trip.trip_id (route_of_trip trip)) stu) _
        (stop-IsEventOf stu) (stops-IsEventOf rest)

  -- Every event of a trip update carries the agency, trip, route and time of the update; a
  -- cancellation or skipped stop has delay 0; an arrival or departure with a scheduled time has it
  -- equal to the predicted time less the delay.
  pub normalize_trip_update-IsEventOf :
      (updates : List StopTimeUpdate)
      → All (IsEventOf agency_id observed_at trip) (
          normalize_trip_update agency_id observed_at
            (record { trip = some trip; stop_time_update = updates }))
  unfolding normalize_trip_update
  normalize_trip_update-IsEventOf updates = ground (arith, stops-IsEventOf updates)

  -- The events of a trip update are, in order, one for each stop that is skipped or has a usable
  -- time, or one without a stop if the trip is canceled.
  stop_ids-normalize_trip_update :
      (updates : List StopTimeUpdate)
      → map
          (λ ev. ev.stop_id)
          (normalize_trip_update agency_id observed_at
            (record { trip = some trip; stop_time_update = updates }))
        ≡ (if is_canceled trip.schedule_relationship
            then [] ∷ []
            else map (λ s. s.stop_id) (keep_if is_reported updates))
  unfolding normalize_trip_update
  stop_ids-normalize_trip_update updates = ground (
    arith,
    stop_ids-stops (stamped agency_id observed_at trip.trip_id (route_of_trip trip)) updates,
  )
