-- ===== src/Ingest/Normalizer.antt =====
-- internal/ingest/normalizer.go, over the fields of the generated GTFS-RT messages that it reads.
-- A proto2 optional that the code tests for presence is an `Option`; any other is its getter's value.
pub mod Route
pub mod Events
use urban_goggles.Base.{
  ℤ, pos, Text, is_empty, after_byte, before_byte, Bool, true, false, not, ◌&&◌, ◌||◌, Option, none,
  some, List, [], ◌∷◌, ◌++◌, ltb_ℤ, int_eq, sub64, if◌then◌else◌,
}
use urban_goggles.Transit.{
  EventType, DelayEvent, no_event, arrival_delay, departure_delay, trip_cancelled, skip_stop,
}

pub data TripRelationship : Type 0 where
  scheduled added unscheduled canceled replacement duplicated deleted : TripRelationship

pub data StopRelationship : Type 0 where
  scheduled skipped no_data unscheduled : StopRelationship

pub record TripDescriptor : Type 0 where
  pub trip_id : Text
  pub route_id : Text
  pub schedule_relationship : TripRelationship

pub record StopTimeEvent : Type 0 where
  pub delay : Option ℤ
  pub time : ℤ

pub record StopTimeUpdate : Type 0 where
  pub stop_id : Text
  pub arrival : Option StopTimeEvent
  pub departure : Option StopTimeEvent
  pub schedule_relationship : StopRelationship

pub record TripUpdate : Type 0 where
  pub trip : Option TripDescriptor
  pub stop_time_update : List StopTimeUpdate

-- `ParseRouteFromTripID`. Nothing after the underscore is the case `idx == len(tripID)-1`.
route_of_tail : Text → Option Text → Text
route_of_tail trip_id none = trip_id
route_of_tail trip_id (some []) = trip_id
route_of_tail trip_id (some (c ∷ s)) = before_byte b'.' (c ∷ s)

unfoldable pub parse_route_from_trip_id : Text → Text
unfolding route_of_tail
parse_route_from_trip_id trip_id = route_of_tail trip_id (after_byte b'_' trip_id)

-- The five results of `extractDelay`.
pub record Extracted : Type 0 where
  pub delay : ℤ
  pub predicted : ℤ
  pub scheduled : ℤ
  pub from_departure : Bool
  pub usable : Bool

abbrev nothing_extracted : Extracted
nothing_extracted = record {
  delay = pos 0;
  predicted = pos 0;
  scheduled = pos 0;
  from_departure = false;
  usable = false;
}

-- `usable` of `extractDelay`.
abbrev pub has_time : Option StopTimeEvent → Bool
has_time none = false
has_time (some ev) = elim ev.delay [ none ↦ not (int_eq ev.time (pos 0)) | some d ↦ true ]

read_delay : ℤ → Option ℤ → Bool → Extracted
read_delay time none from_departure = record {
  delay = pos 0;
  predicted = time;
  scheduled = pos 0;
  from_departure = from_departure;
  usable = true;
}
read_delay time (some delay) from_departure = record {
  delay = delay;
  predicted = time;
  scheduled = if ltb_ℤ (pos 0) time then sub64 time delay else pos 0;
  from_departure = from_departure;
  usable = true;
}

read_event : Option StopTimeEvent → Bool → Extracted
unfolding read_delay
read_event none from_departure = nothing_extracted
read_event (some ev) from_departure = read_delay ev.time ev.delay from_departure

unfoldable pub extract_delay : StopTimeUpdate → Extracted
unfolding read_event
extract_delay stu =
    if has_time stu.arrival
    then read_event stu.arrival false
    else if has_time stu.departure
    then read_event stu.departure true
    else nothing_extracted

unfoldable pub is_skipped : StopRelationship → Bool
is_skipped skipped = true
is_skipped _ = false

unfoldable pub is_canceled : TripRelationship → Bool
is_canceled canceled = true
is_canceled _ = false

-- The fields that every event of a trip update carries.
stamped : Text → ℤ → Text → Text → DelayEvent
stamped agency_id observed_at trip_id route_id = record no_event {
  agency_id = agency_id;
  trip_id = trip_id;
  route_id = route_id;
  observed_at = observed_at;
}

-- The body of the loop over the stop time updates: `base` is the stamped event.
normalize_stop : DelayEvent → StopTimeUpdate → List DelayEvent
unfolding is_skipped
normalize_stop base stu =
    let x = extract_delay stu in
    if is_skipped stu.schedule_relationship
    then record base {
      stop_id = stu.stop_id;
      scheduled_arrival = x.scheduled;
      predicted_arrival = x.predicted;
      event_type = skip_stop;
    }
      ∷ []
    else if x.usable
    then record base {
      stop_id = stu.stop_id;
      delay_seconds = x.delay;
      scheduled_arrival = x.scheduled;
      predicted_arrival = x.predicted;
      event_type = if x.from_departure then departure_delay else arrival_delay;
    }
      ∷ []
    else []

normalize_stops : DelayEvent → List StopTimeUpdate → List DelayEvent
unfolding normalize_stop
normalize_stops base [] = []
normalize_stops base (stu ∷ rest) = normalize_stop base stu ++ normalize_stops base rest

unfoldable pub route_of_trip : TripDescriptor → Text
route_of_trip trip =
    if is_empty trip.route_id then parse_route_from_trip_id trip.trip_id else trip.route_id

normalize_trip : Text → ℤ → TripDescriptor → List StopTimeUpdate → List DelayEvent
unfolding is_canceled stamped normalize_stops
normalize_trip agency_id observed_at trip updates =
    let base = stamped agency_id observed_at trip.trip_id (route_of_trip trip) in
    if is_canceled trip.schedule_relationship
    then record base { event_type = trip_cancelled } ∷ []
    else normalize_stops base updates

unfoldable pub normalize_trip_update : Text → ℤ → TripUpdate → List DelayEvent
unfolding normalize_trip
normalize_trip_update agency_id observed_at tu = elim tu.trip [
  | none ↦ []
  | some trip ↦ normalize_trip agency_id observed_at trip tu.stop_time_update
]
