-- ===== src/Transit.antt =====
-- The messages of proto/transit (delay_event.pb.go, propagation.pb.go): the events, impacts and
-- predictions that the components hand to one another. An absent field is its zero value.
use urban_goggles.Base.{ℕ, ℤ, pos, Text, Bool, true, false, List, []}

pub data EventType : Type 0 where
  arrival_delay departure_delay trip_cancelled skip_stop : EventType

pub record DelayEvent : Type 0 where
  pub agency_id : Text
  pub trip_id : Text
  pub route_id : Text
  pub stop_id : Text
  pub delay_seconds : ℤ
  pub observed_at : ℤ
  pub scheduled_arrival : ℤ
  pub predicted_arrival : ℤ
  pub event_type : EventType

-- The message with no field set.
abbrev pub no_event : DelayEvent
no_event = record {
  agency_id = [];
  trip_id = [];
  route_id = [];
  stop_id = [];
  delay_seconds = pos 0;
  observed_at = pos 0;
  scheduled_arrival = pos 0;
  predicted_arrival = pos 0;
  event_type = arrival_delay;
}

-- `a == b` on event types.
abbrev pub type_code : EventType → ℕ
type_code arrival_delay = 0
type_code departure_delay = 1
type_code trip_cancelled = 2
type_code skip_stop = 3

-- An arrival or a departure: the events that carry an observed delay.
abbrev pub is_delay_type : EventType → Bool
is_delay_type arrival_delay = true
is_delay_type departure_delay = true
is_delay_type trip_cancelled = false
is_delay_type skip_stop = false

pub data ImpactLevel : Type 0 where
  at_risk broken : ImpactLevel

pub record TransferImpact : Type 0 where
  pub from_trip_id : Text
  pub from_route_id : Text
  pub to_route_id : Text
  pub station_id : Text
  pub source_delay_seconds : ℤ
  pub original_transfer_margin_seconds : ℤ
  pub remaining_margin_seconds : ℤ
  pub level : ImpactLevel
  pub detected_at : ℤ
  pub next_viable_trip_id : Text
  pub additional_wait_seconds : ℤ
  pub sched_connection_departure_secs : ℤ
  pub earliest_catch_secs : ℤ

pub record DownstreamImpact (F : Type 0) : Type 0 where
  pub route_id : Text
  pub stop_id : Text
  pub predicted_additional_delay : ℤ
  pub confidence : F
  pub hops_from_source : ℤ
  pub impact_type : Text

pub record PropagationResult (F : Type 0) : Type 0 where
  pub source_trip_id : Text
  pub source_stop_id : Text
  pub source_delay_seconds : ℤ
  pub computed_at : ℤ
  pub impacts : List (DownstreamImpact F)
