-- ===== src/Alerts/Sessions.antt =====
-- The consumer behind the alert broker: `RunKafkaConsumer` and `consumeOnce` of
-- internal/server/alerts.go. What Kafka answers is an argument: the partitions of the topic or an
-- error, which of them can be consumed, and what their channels deliver. The decoding of a message,
-- `proto.Unmarshal`, is a parameter.
--
-- The goroutines of the partitions publish side by side, so two subscribers may meet the messages of
-- different partitions in different orders. The model has the view of one subscriber `k`: the events
-- stand in the order in which the sends to its channel happen, and of a `Publish` it has that one
-- send, since the others leave the channel alone (`publish-send` in Alerts.Delivery).
pub mod Heard
use urban_goggles.Base.{
  ℕ, ℤ, int_eq, Text, Bool, true, false, not, ◌||◌, Option, none, some, List, [], ◌∷◌, ◌++◌, map,
  keep_if, exists_in, if◌then◌else◌,
}
use urban_goggles.Transit.{TransferImpact}
use urban_goggles.Alerts.{Action, subscribes, unsubscribes, sends, receives}
use urban_goggles.Alerts.Reconnect.{alert_retry_base, next_backoff}

-- What the subscribers do meanwhile.
pub data Visit : Type 0 where
  joins : ℕ → Visit
  leaves : ℕ → Visit
  reads : ℕ → Visit

unfoldable pub visit_action : Visit → Action
visit_action (joins n) = subscribes n
visit_action (leaves id) = unsubscribes id
visit_action (reads id) = receives id

-- A partition's message, `none` once its channel is closed; an error of a partition; a visit.
pub data Event : Type 0 where
  delivers : ℤ → Option Text → Event
  fails : ℤ → Event
  meanwhile : Visit → Event

-- `client` is the answer of `NewConsumer`, with that of `Partitions` in it. The events are those
-- until the context is done. A visit before a session has started counts to the wait before it.
pub record Attempt : Type 0 where
  pub client : Option (Option (List ℤ))
  pub opens : ℤ → Bool
  pub events : List Event
  pub cancelled : Bool
  pub visits : List Visit
  pub cancelled_waiting : Bool

pub data SessionError : Type 0 where
  no_client : SessionError
  no_topic : SessionError
  none_started : SessionError

-- The send to subscriber `k` of the `Publish` of a decoded message.
publish_decoded : ℕ → Option TransferImpact → List Action
publish_decoded k none = []
publish_decoded k (some impact) = sends k impact ∷ []

module _ (unmarshal : Text → Option TransferImpact) (k : ℕ) where
  -- One turn of a partition's goroutine, with the partitions whose goroutines run.
  unfoldable pub consume_event : Event → List ℤ → List Action × List ℤ
  unfolding publish_decoded visit_action
  consume_event (delivers p none) running = ([], keep_if (λ q. not (int_eq p q)) running)
  consume_event (delivers p (some value)) running =
      (if exists_in (int_eq p) running then publish_decoded k (unmarshal value) else [], running)
  consume_event (fails p) running = ([], running)
  consume_event (meanwhile v) running = (visit_action v ∷ [], running)

  unfoldable pub consume_events : List Event → List ℤ → List Action
  consume_events [] running = []
  consume_events (e ∷ rest) running =
      let (done, still) = consume_event e running in done ++ consume_events rest still

  unfoldable pub consume_partitions : List Event → List ℤ → Option SessionError × List Action
  consume_partitions events [] = (some none_started, [])
  consume_partitions events started = (none, consume_events events started)

  unfoldable pub consume_once : Attempt → Option SessionError × List Action
  consume_once a = elim a.client [
    | none ↦ (some no_client, [])
    | some none ↦ (some no_topic, [])
    | some (some partitions) ↦ consume_partitions a.events (keep_if a.opens partitions)
  ]

  -- What follows a session, with the rest of the loop. A session without an error ends when the
  -- context is done.
  after_session :
      ℤ → Attempt → Option SessionError × List Action → List ℤ × List Action → List ℤ × List Action
  after_session backoff a (none, done) later = ([], done)
  after_session backoff a (some e, done) later =
      if a.cancelled
      then ([], done)
      else if a.cancelled_waiting
      then (backoff ∷ [], done ++ map visit_action a.visits)
      else (backoff ∷ later.0, done ++ map visit_action a.visits ++ later.1)

  -- The waits that are begun and the actions on the broker.
  unfoldable pub reconnect : ℤ → List Attempt → List ℤ × List Action
  unfolding after_session
  reconnect backoff [] = ([], [])
  reconnect backoff (a ∷ rest) =
      after_session backoff a (consume_once a) (reconnect (next_backoff backoff) rest)

  unfoldable pub run_kafka_consumer : List Attempt → List ℤ × List Action
  run_kafka_consumer attempts = reconnect alert_retry_base attempts
