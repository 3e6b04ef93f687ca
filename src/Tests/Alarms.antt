-- ===== src/Tests/Alarms.antt =====
-- Two subscribers of the alert broker, one of them slow: internal/server/alerts.go.
use urban_goggles.Base.{
  pos, int_eq, Text, codes, Option, none, some, true, false, keep_if, exists_in, List, [], ◌∷◌,
  ◌++◌, ◌≡◌, refl, lookup, insert,
}
use urban_goggles.Transit.{TransferImpact, broken}
use urban_goggles.Alerts.{
  Action, subscribes, unsubscribes, sends, receives, new_alert_broker, run, receive, act, send,
  subscribe, offer, unsubscribe,
}
use urban_goggles.Alerts.Delivery.{received, waiting, handed}
use urban_goggles.Alerts.Sessions.{
  Attempt, joins, reads, delivers, fails, meanwhile, visit_action, run_kafka_consumer, reconnect,
  consume_once, consume_partitions, consume_events, consume_event,
}

abbrev impact : Text → TransferImpact
impact trip = record {
  from_trip_id = trip;
  from_route_id = codes "6";
  to_route_id = codes "7";
  station_id = codes "A";
  source_delay_seconds = pos 300;
  original_transfer_margin_seconds = pos 330;
  remaining_margin_seconds = pos 30;
  level = broken;
  detected_at = pos 0;
  next_viable_trip_id = [];
  additional_wait_seconds = pos 0;
  sched_connection_departure_secs = pos 0;
  earliest_catch_secs = pos 0;
}

-- The first subscriber has room for one impact and reads one of the two before it leaves; what waits
-- in its channel stays there. Two calls of `Publish` reach the subscribers in different orders.
abbrev day : List Action
day =
    subscribes 1
    ∷ subscribes 2
    ∷ sends 0 (impact (codes "T1"))
    ∷ sends 1 (impact (codes "T2"))
    ∷ sends 0 (impact (codes "T2"))
    ∷ sends 1 (impact (codes "T1"))
    ∷ receives 0
    ∷ sends 0 (impact (codes "T3"))
    ∷ unsubscribes 0
    ∷ sends 0 (impact (codes "T4"))
    ∷ []

dropped :
    (received 0 day new_alert_broker ++ waiting 0 (run day new_alert_broker)
      ≡ impact (codes "T1") ∷ impact (codes "T3") ∷ [])
    × (waiting 1 (run day new_alert_broker) ≡ impact (codes "T2") ∷ impact (codes "T1") ∷ [])
unfolding received handed receive lookup act send subscribe insert new_alert_broker offer waiting
    run unsubscribe
dropped = (refl, refl)

-- A message is the bytes of a trip's id here, and an empty one cannot be decoded.
abbrev unmarshal : Text → Option TransferImpact
unmarshal [] = none
unmarshal value = some (impact value)

-- No client at first; then one of two partitions can be consumed, until its channel is closed.
abbrev attempts : List Attempt
attempts =
    record {
      client = none;
      opens = λ p. false;
      events = [];
      cancelled = false;
      visits = joins 2 ∷ [];
      cancelled_waiting = false;
    }
    ∷ record {
      client = some (some (pos 0 ∷ pos 1 ∷ []));
      opens = λ p. int_eq p (pos 1);
      events =
          delivers (pos 0) (some (codes "T0"))
          ∷ delivers (pos 1) (some (codes "T1"))
          ∷ fails (pos 1)
          ∷ delivers (pos 1) (some [])
          ∷ meanwhile (reads 0)
          ∷ delivers (pos 1) (some (codes "T2"))
          ∷ delivers (pos 1) none
          ∷ delivers (pos 1) (some (codes "T3"))
          ∷ [];
      cancelled = true;
      visits = [];
      cancelled_waiting = true;
    }
    ∷ []

consumed : run_kafka_consumer unmarshal 0 attempts ≡ (
  pos 5000000000 ∷ [],
  subscribes 2 ∷ sends 0 (impact (codes "T1")) ∷ receives 0 ∷ sends 0 (impact (codes "T2")) ∷ [],
)
unfolding run_kafka_consumer reconnect consume_once consume_partitions consume_events consume_event
    visit_action keep_if exists_in
consumed = refl
