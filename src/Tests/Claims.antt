-- ===== src/Tests/Claims.antt =====
-- A claim of three messages, of which the last cannot be processed: cmd/processor/main.go.
use urban_goggles.Processor.Enrich.{enrich_event, is_time_only}
use urban_goggles.Processor.Retry.{with_retry}
use urban_goggles.Base.{
  ℕ, suc, pos, Text, Text_eq, text_eq, codes, ◌==◌, true, false, Option, none, some, List, [], ◌∷◌,
  ◌≡◌, refl, if◌then◌else◌,
}
use urban_goggles.Transit.{DelayEvent, no_event, trip_cancelled}
use urban_goggles.Graph.{TransitGraph}
use urban_goggles.Processor.Claim.{Components, Message, Claimed, consume_claim}
use urban_goggles.Processor.Claim.Marks.{IsMarked, consume_claim-IsMarked}

-- The server counts the events; those of one trip fail.
abbrev counting : Components ℕ (Unit {0})
counting = record {
  process = λ db ev. if ev.trip_id == codes "bad" then (some tt, db) else (none, suc db);
  match_event = λ t db ev. db;
  detect = λ t db ev. ([], db);
}

abbrev graph : TransitGraph
graph = record {
  stops = [];
  trip_route = [];
  trip_direction = [];
  stop_times_by_stop = [];
  stop_times_by_trip = [];
  transfers_by_stop = [];
  routes_at_stop = [];
  trip_suffix = [];
  tz = λ t. record { hour = 0; minute = 0; second = 0 };
}

-- The value of a message is its trip, and no event where it is empty.
abbrev unmarshal : Text → Option DelayEvent
unmarshal [] = none
unmarshal (c ∷ s) = some (record no_event { trip_id = c ∷ s; event_type = trip_cancelled })

abbrev message : Text → ℕ → Message
message value offset = record {
  value = value;
  offset = pos offset;
  handled_at = pos 0;
  catch_up = false;
}

abbrev messages : List Message
messages =
    message [] 5
    ∷ message (codes "good") 6
    ∷ message (codes "bad") 7
    ∷ message (codes "good") 8
    ∷ []

abbrev claimed : Claimed ℕ (Unit {0})
claimed = consume_claim counting unmarshal graph (λ offset i. false) (λ offset i. true) messages 0

marked_offsets : claimed.marked ≡ pos 5 ∷ pos 6 ∷ []
unfolding consume_claim with_retry text_eq enrich_event is_time_only
marked_offsets = refl

consume_claim-IsMarked_example :
    IsMarked counting unmarshal graph
      (λ offset i. false)
      (λ offset i. true)
      messages
      0
      claimed.marked
      claimed.error
consume_claim-IsMarked_example =
    consume_claim-IsMarked counting unmarshal graph (λ offset i. false) (λ offset i. true) messages
      0
