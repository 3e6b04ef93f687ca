-- ===== src/Ingest/Config.antt =====
-- internal/ingest/config.go. The reading of a file and its parsing as YAML are parameters: the bytes
-- at a path, if it can be read, and the configuration in them, if they can be parsed.
use urban_goggles.Base.{
  ℤ, pos, int_eq, ◌*◌, Text, codes, is_empty, Option, none, some, List, [], ◌∷◌, ◌⊎◌, inl, inr,
  if◌then◌else◌,
}
use urban_goggles.External.Float.{Float64}
use urban_goggles.Propagation.Config.{Config, with_defaults}

-- An interval is in nanoseconds.
pub record FeedConfig : Type 0 where
  pub name : Text
  pub url : Text
  pub poll_interval : ℤ
  pub routes : List Text

-- `Config` of the package ingest.
pub record IngestConfig (F : Type 0) : Type 0 where
  pub agency_id : Text
  pub feeds : List FeedConfig
  pub polling_default_interval : ℤ
  pub kafka_brokers : List Text
  pub kafka_topic : Text
  pub propagation : Config F

pub data ConfigError : Type 0 where
  unread : ConfigError
  unparsed : ConfigError

-- The loop over the feeds, with the default interval.
unfoldable pub fill_feeds : ℤ → List FeedConfig → List FeedConfig
fill_feeds default [] = []
fill_feeds default (feed ∷ rest) =
    (if int_eq feed.poll_interval (pos 0) then record feed { poll_interval = default } else feed)
    ∷ fill_feeds default rest

unfoldable pub default_interval : ℤ → ℤ
default_interval n = if int_eq n (pos 0) then pos (15 * 1000000000) else n

unfoldable pub fill_config : (f : Float64) → IngestConfig f.F → IngestConfig f.F
unfolding default_interval
fill_config f c = record c {
  polling_default_interval = default_interval c.polling_default_interval;
  kafka_topic = if is_empty c.kafka_topic then codes "delay-events" else c.kafka_topic;
  feeds = fill_feeds (default_interval c.polling_default_interval) c.feeds;
  propagation = with_defaults f c.propagation;
}

unfoldable pub load_config :
    (f : Float64)
    → (Text → Option Text)
    → (Text → Option (IngestConfig f.F))
    → Text
    → ConfigError ⊎ IngestConfig f.F
load_config f read_file parse path = elim (read_file path) [
  | none ↦ inl unread
  | some bytes ↦ elim (parse bytes) [ none ↦ inl unparsed | some c ↦ inr (fill_config f c) ]
]
