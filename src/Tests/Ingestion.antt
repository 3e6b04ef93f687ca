-- ===== src/Tests/Ingestion.antt =====
-- An ingestor with two feeds, one without an interval of its own: cmd/ingestor/main.go.
use urban_goggles.Base.{
  ℕ, ◌%◌, ◌^◌, pos, Text, codes, Option, none, some, true, List, [], ◌∷◌, inr, ◌≡◌, refl,
}
use urban_goggles.Propagation.Config.{Config}
use urban_goggles.Ingest.Config.{
  IngestConfig, load_config, fill_config, fill_feeds, default_interval,
}
use urban_goggles.Ingest.Poller.{Turn, Poller}
use urban_goggles.Ingest.Ingestor.{
  start_ingestor, start_feeds, pollers_for, poll_feeds, total_published,
}
use urban_goggles.Ingest.Ingestor.Feeds.{AreFed, sent_count, start_ingestor-AreFed}
use urban_goggles.Tests.Decimals.{Decimal, decimals}
use urban_goggles.Tests.Polls.{feed, turn}

abbrev unset : Config Decimal
unset = record {
  base_dwell_secs = pos 0;
  dwell_elasticity = decimals.lit 0 0;
  load_increase_pct = decimals.lit 0 0;
  confidence_decay = decimals.lit 0 0;
  min_confidence = decimals.lit 0 0;
  min_delay_threshold = pos 0;
  max_depth = pos 0;
  max_impacts = pos 0;
  per_stop_min_count = pos 0;
}

abbrev config : IngestConfig Decimal
config = record {
  agency_id = codes "mta";
  feeds =
      record {
        name = codes "trains";
        url = codes "http://feed/1";
        poll_interval = pos 0;
        routes = [];
      }
      ∷ record {
        name = codes "more";
        url = codes "http://feed/2";
        poll_interval = pos 30000000000;
        routes = [];
      }
      ∷ [];
  polling_default_interval = pos 0;
  kafka_brokers = codes "localhost:9092" ∷ [];
  kafka_topic = [];
  propagation = unset;
}

-- The only file, and what its bytes are parsed to.
abbrev read_file : Text → Option Text
read_file [] = none
read_file path = some path

abbrev parse : Text → Option (IngestConfig Decimal)
parse [] = none
parse bytes = some config

abbrev path : Text
path = codes "config.yaml"

abbrev pollers : List Poller
pollers = pollers_for (fill_config decimals config) (fill_config decimals config).feeds

starts_two : start_ingestor (load_config decimals read_file parse path) true ≡ inr pollers
unfolding start_ingestor start_feeds load_config fill_config fill_feeds default_interval pollers_for
starts_two = refl

-- The second poller polls first; one publish of the first poller fails.
abbrev turns : List (ℕ × Turn)
turns = (1, turn 5 (some feed)) ∷ (0, turn 1 (some feed)) ∷ (1, turn 5 none) ∷ []

start_ingestor-AreFed_example :
    (c : IngestConfig Decimal) × (load_config decimals read_file parse path ≡ inr c)
    × AreFed c turns c.feeds (poll_feeds turns pollers)
    × (total_published (poll_feeds turns pollers) ≡ sent_count turns pollers % 2 ^ 64)
start_ingestor-AreFed_example =
    start_ingestor-AreFed decimals read_file parse path true turns starts_two
