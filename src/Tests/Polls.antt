-- ===== src/Tests/Polls.antt =====
-- One poll of a feed with a trip of three stops and a canceled trip: internal/ingest.
use urban_goggles.Base.{
  ℕ, pos, Text_eq, ℕ_eq, codes, nat_eq, Bool, true, not, Option, none, some, List, [], ◌∷◌, ◌≡◌,
  ◌↔◌, refl, ◌≤ℤ◌, ◌-ℤ◌, arith, All, lookup, insert, exists_in, after_byte, before_byte, text_eq,
  abs32, sub32, wrap32, abs64, sub64, wrap64,
}
use urban_goggles.Transit.{DelayEvent, no_event, arrival_delay}
use urban_goggles.Ingest.Normalizer.{
  TripDescriptor, StopTimeUpdate, TripUpdate, TripRelationship, StopRelationship,
  normalize_trip_update, extract_delay, parse_route_from_trip_id,
}
use urban_goggles.Ingest.Normalizer.Route.{parse_route-shape}
use urban_goggles.Ingest.Normalizer.Events.{IsEventOf, normalize_trip_update-IsEventOf}
use urban_goggles.Ingest.Differ.{
  Differ, DiffState, new_differ, diff, diff_key, is_changed, is_stale, time_sub, commit, prune,
}
use urban_goggles.Ingest.Differ.Selection.{IsMeaningful, is_changed_iff}
use urban_goggles.Ingest.Differ.Retention.{IsValid}
use urban_goggles.Ingest.Poller.Memory.{sent_by, Agrees, start-Agrees}
use urban_goggles.Ingest.Poller.{
  Feed, Poller, Readings, Turn, raw_events, poll_once, poll_all, publish_loop, new_poller, start,
}
use urban_goggles.Ingest.Poller.Commits.{unsent, HasDistinctKeys}
use urban_goggles.Ingest.Poller.Delivery.{poll_once-delivers}

abbrev trip : TripDescriptor
trip = record {
  trip_id = codes "021150_6..N03R";
  route_id = [];
  schedule_relationship = TripRelationship.scheduled;
}

abbrev updates : List StopTimeUpdate
updates =
    record {
      stop_id = codes "601";
      arrival = some (record { delay = some (pos 120); time = pos 5000 });
      departure = none;
      schedule_relationship = StopRelationship.scheduled;
    }
    ∷ record {
      stop_id = codes "602";
      arrival = none;
      departure = none;
      schedule_relationship = StopRelationship.skipped;
    }
    ∷ record {
      stop_id = codes "603";
      arrival = none;
      departure = none;
      schedule_relationship = StopRelationship.scheduled;
    }
    ∷ record {
      stop_id = codes "604";
      arrival = none;
      departure = some (record { delay = none; time = pos 6000 });
      schedule_relationship = StopRelationship.scheduled;
    }
    ∷ []

abbrev trip_update : TripUpdate
trip_update = record { trip = some trip; stop_time_update = updates }

abbrev gone : TripUpdate
gone = record {
  trip = some (record {
    trip_id = codes "021200_4..S01R";
    route_id = codes "4";
    schedule_relationship = TripRelationship.canceled;
  });
  stop_time_update = updates;
}

abbrev pub feed : Feed
feed = record { timestamp = pos 4990; entity = some trip_update ∷ none ∷ some gone ∷ [] }

route_of_trip_id : parse_route_from_trip_id (codes "021150_6..N03R") ≡ codes "6"
unfolding parse_route_from_trip_id after_byte before_byte
route_of_trip_id = refl

parse_route-shape_example :
    (parse_route_from_trip_id (codes "021150_6..N03R") ≡ codes "6")
    × (parse_route_from_trip_id (codes "021150_6") ≡ codes "6")
parse_route-shape_example =
    parse_route-shape (codes "021150") (codes "6") (codes ".N03R") (ground arith) (ground arith)
      (ground arith)

normalize_trip_update-IsEventOf_example :
    All
      (IsEventOf (codes "mta") (pos 4990) trip)
      (normalize_trip_update (codes "mta") (pos 4990) trip_update)
normalize_trip_update-IsEventOf_example =
    normalize_trip_update-IsEventOf (codes "mta") (pos 4990) trip updates

abbrev last_seen_early : DiffState
last_seen_early = record {
  delay = pos 110;
  predicted = pos 5000;
  ev_type = arrival_delay;
  last_seen = pos 100;
}

abbrev differ : Differ
differ = record new_differ {
  prev =
      (codes "021150_6..N03R|601", last_seen_early)
      ∷ (codes "old|601", record last_seen_early { last_seen = pos 0 })
      ∷ [];
}

abbrev delayed : DelayEvent
delayed = record no_event {
  trip_id = codes "021150_6..N03R";
  stop_id = codes "601";
  delay_seconds = pos 140;
  predicted_arrival = pos 5000;
}

differ-IsValid : IsValid differ
unfolding lookup new_differ text_eq
differ-IsValid = (refl, (refl, tt))

is_changed_iff_example :
    (is_changed differ (some last_seen_early) delayed ≡ true)
    ↔ IsMeaningful differ last_seen_early delayed
unfolding ◌-ℤ◌
is_changed_iff_example = is_changed_iff differ last_seen_early delayed (record {
  delay_up = omega arith;
  delay_down = omega arith;
  predicted_up = omega arith;
  predicted_down = omega arith;
})

abbrev poller : Poller
poller = record {
  name = codes "trains";
  url = codes "http://feed";
  interval = pos 15000000000;
  agency_id = codes "mta";
  differ = differ;
  published = 7;
}

abbrev readings : Readings
readings = record {
  unix_now = pos 4995;
  diff_at = pos 200;
  commit_at = λ i. pos 250;
  prune_at = pos 300;
}

-- Only the second publish fails.
abbrev sent : ℕ → Bool
sent i = nat_eq i 0

commits_live :
    (i : ℕ) → time_sub readings.prune_at (readings.commit_at i) ≤ℤ poller.differ.staleness
unfolding time_sub new_differ ◌-ℤ◌
commits_live i = omega arith

thresholds : (pos 0 ≤ℤ differ.threshold_seconds) × (pos 0 ≤ℤ differ.predicted_threshold)
unfolding new_differ
thresholds = (omega arith, omega arith)

live : time_sub (pos 300) (pos 200) ≤ℤ differ.staleness
unfolding new_differ time_sub ◌-ℤ◌
live = omega arith

distinct : HasDistinctKeys (raw_events poller readings feed)
unfolding HasDistinctKeys raw_events normalize_trip_update extract_delay exists_in text_eq diff_key
distinct = (refl, (refl, (refl, (refl, tt))))

poll_once-delivers_example :
    (diff
      (poll_once poller readings sent (some feed)).differ
      (pos 400)
      (raw_events poller readings feed)).0
    ≡ unsent sent 0 (diff poller.differ (pos 200) (raw_events poller readings feed)).0
poll_once-delivers_example =
    poll_once-delivers poller readings sent feed differ-IsValid thresholds.0 thresholds.1 distinct
      live commits_live (pos 400)

abbrev pub turn : ℕ → Option Feed → Turn
turn failing fetched = record {
  readings = readings;
  sent = λ i. not (nat_eq i failing);
  fetched = fetched;
}

abbrev new : Poller
new = new_poller (codes "trains") (codes "http://feed") (codes "mta") (pos 15000000000)

-- The first poll publishes but one event, the second fetch fails, the third poll publishes it.
abbrev ticks : List Turn
ticks = turn 5 none ∷ turn 5 (some feed) ∷ []

published_all : (start new (turn 1 (some feed)) ticks).published ≡ 4
unfolding start new_poller poll_all poll_once publish_loop diff commit prune raw_events new_differ
    lookup insert diff_key is_changed is_stale time_sub ◌-ℤ◌ normalize_trip_update extract_delay
    text_eq abs32 sub32 wrap32 abs64 sub64 wrap64
published_all = refl

start-Agrees_example :
    let p = start new (turn 1 (some feed)) ticks in
    Agrees (sent_by new (turn 1 (some feed) ∷ ticks) []) p.differ p.published
start-Agrees_example =
    start-Agrees (codes "trains") (codes "http://feed") (codes "mta") (pos 15000000000)
      (turn 1 (some feed)) ticks
