-- ===== src/Ingest/Ingestor.antt =====
-- The command cmd/ingestor/main.go: a poller for each feed, which share the publisher and run side
-- by side, and the throughput that is reported. Which polls happen, in which order, and what they
-- are answered is an argument, as is whether the publisher connects. The process's signals, the
-- metrics server and the log are left out.
pub mod Feeds
use urban_goggles.Base.{
  ℕ, zero, suc, ◌+◌, ◌-◌, ◌%◌, ◌^◌, Bool, List, [], ◌∷◌, ◌⊎◌, inl, inr, if◌then◌else◌,
}
use urban_goggles.Ingest.Config.{FeedConfig, IngestConfig, ConfigError}
use urban_goggles.Ingest.Poller.{Poller, Turn, new_poller, poll_once}

pub data StartError : Type 0 where
  no_config : ConfigError → StartError
  no_feeds : StartError
  no_publisher : StartError

module _ {F : Type 0} where
  unfoldable pub pollers_for : IngestConfig F → List FeedConfig → List Poller
  pollers_for c [] = []
  pollers_for c (feed ∷ rest) =
      new_poller feed.name feed.url c.agency_id feed.poll_interval ∷ pollers_for c rest

  unfoldable pub start_feeds : IngestConfig F → Bool → List FeedConfig → StartError ⊎ List Poller
  start_feeds c connects [] = inl no_feeds
  start_feeds c connects (feed ∷ rest) =
      if connects then inr (pollers_for c (feed ∷ rest)) else inl no_publisher

  unfoldable pub start_ingestor : ConfigError ⊎ IngestConfig F → Bool → StartError ⊎ List Poller
  start_ingestor (inl e) connects = inl (no_config e)
  start_ingestor (inr c) connects = start_feeds c connects c.feeds

-- One poll, of the poller at an index.
unfoldable pub poll_at : ℕ → Turn → List Poller → List Poller
poll_at i t [] = []
poll_at zero t (p ∷ ps) = poll_once p t.readings t.sent t.fetched ∷ ps
poll_at (suc i) t (p ∷ ps) = p ∷ poll_at i t ps

unfoldable pub poll_feeds : List (ℕ × Turn) → List Poller → List Poller
poll_feeds [] ps = ps
poll_feeds ((i, t) ∷ rest) ps = poll_feeds rest (poll_at i t ps)

-- The uint64 sum of the counters.
unfoldable pub total_published : List Poller → ℕ
total_published [] = 0
total_published (p ∷ ps) = (p.published + total_published ps) % 2 ^ 64

-- A report's total and the events since the last one, which had the total `prev`.
unfoldable pub report_throughput : List Poller → ℕ → ℕ × ℕ
report_throughput ps prev = (total_published ps, (total_published ps + 2 ^ 64 - prev) % 2 ^ 64)
