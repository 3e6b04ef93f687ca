-- ===== src/Alerts.antt =====
-- The alert broker of internal/server/alerts.go. A channel is its capacity and the impacts in its
-- buffer, kept by the subscription's id. It outlives its entry in the map `subs`, which is the field
-- `is_subscribed`: the reader keeps the channel. A send to a reader that waits is a send to the
-- buffer and a read, which holds for a channel of positive capacity; the only caller asks for 64.
-- Subscribing and its end take the write lock, so each is one step. `Publish` takes the read lock
-- only: the sends of several calls can come between each other, so a step is one send to one
-- channel.
pub mod Delivery
pub mod Reconnect
pub mod Sessions
use urban_goggles.Base.{
  ℕ, ◌+◌, ◌%◌, ◌^◌, ltb, ℤ, pos, ltb_ℤ, mul64, Text, Text_eq, ℕ_eq, ◌==◌, Bool, true, false, not,
  ◌&&◌, ◌||◌, Option, none, some, List, [], ◌∷◌, ◌++◌, length, exists_in, Map, lookup, insert,
  delete, if◌then◌else◌,
}
use urban_goggles.Transit.{TransferImpact}

pub record Channel : Type 0 where
  pub capacity : ℕ
  pub buffer : List TransferImpact
  pub is_subscribed : Bool

pub record AlertBroker : Type 0 where
  pub channels : Map ℕ Channel
  pub next_id : ℕ

unfoldable pub new_alert_broker : AlertBroker
new_alert_broker = record { channels = []; next_id = 0 }

-- The subscription's id stands for the channel and the function that ends it.
unfoldable pub subscribe : ℕ → AlertBroker → ℕ × AlertBroker
subscribe buf_size b = (
  b.next_id,
  record {
    channels =
        insert b.next_id (record { capacity = buf_size; buffer = []; is_subscribed = true })
          b.channels;
    next_id = (b.next_id + 1) % 2 ^ 64;
  },
)

unfoldable pub unsubscribe : ℕ → AlertBroker → AlertBroker
unsubscribe id b = elim (lookup id b.channels) [
  | none ↦ b
  | some ch ↦ record b { channels = insert id (record ch { is_subscribed = false }) b.channels }
]

-- The send that does not block, to a channel of the map.
unfoldable pub offer : TransferImpact → Channel → Channel
offer impact ch =
    if ch.is_subscribed && ltb (length ch.buffer) ch.capacity
    then record ch { buffer = ch.buffer ++ impact ∷ [] }
    else ch

-- The send of one `Publish` to one channel.
unfoldable pub send : ℕ → TransferImpact → AlertBroker → AlertBroker
send id impact b = elim (lookup id b.channels) [
  | none ↦ b
  | some ch ↦ record b { channels = insert id (offer impact ch) b.channels }
]

publish_each : TransferImpact → Map ℕ Channel → Map ℕ Channel
publish_each impact [] = []
publish_each impact ((id, ch) ∷ rest) = (id, offer impact ch) ∷ publish_each impact rest

-- A `Publish` whose sends have no other call's between them.
unfoldable pub publish : TransferImpact → AlertBroker → AlertBroker
unfolding publish_each
publish impact b = record b { channels = publish_each impact b.channels }

-- A subscriber's read from its channel, `none` where it would wait.
take_first : AlertBroker → ℕ → Option Channel → Option TransferImpact × AlertBroker
take_first b id none = (none, b)
take_first b id (some ch) = elim ch.buffer [
  | [] ↦ (none, b)
  | impact ∷ rest ↦
      (some impact, record b { channels = insert id (record ch { buffer = rest }) b.channels })
]

unfoldable pub receive : ℕ → AlertBroker → Option TransferImpact × AlertBroker
unfolding take_first
receive id b = take_first b id (lookup id b.channels)

-- What happens to the broker.
pub data Action : Type 0 where
  subscribes : ℕ → Action
  unsubscribes : ℕ → Action
  sends : ℕ → TransferImpact → Action
  receives : ℕ → Action

unfoldable pub act : Action → AlertBroker → AlertBroker
act (subscribes n) b = (subscribe n b).1
act (unsubscribes id) b = unsubscribe id b
act (sends id impact) b = send id impact b
act (receives id) b = (receive id b).1

unfoldable pub run : List Action → AlertBroker → AlertBroker
run [] b = b
run (a ∷ rest) b = run rest (act a b)
