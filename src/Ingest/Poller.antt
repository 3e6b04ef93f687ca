-- ===== src/Ingest/Poller.antt =====
-- A feed's poller: `pollOnce` and `Start` of internal/ingest/poller.go. What the HTTP client, the publisher and the
-- clock answer are arguments: the decoded feed or a failure, whether each publish succeeds, and the
-- clock's readings. Logging and metrics are left out.
pub mod Commits
pub mod Delivery
pub mod Memory
use urban_goggles.Base.{
  ℕ, ◌+◌, ◌%◌, ◌^◌, ℤ, pos, int_eq, wrap64, Text, Bool, Option, none, some, List, [], ◌∷◌, ◌++◌,
  if◌then◌else◌,
}
use urban_goggles.Transit.{DelayEvent}
use urban_goggles.Ingest.Normalizer.{TripUpdate, normalize_trip_update}
use urban_goggles.Ingest.Differ.{Differ, new_differ, diff, commit, prune}

-- The header's timestamp, a uint64, and, for each entity, its trip update.
pub record Feed : Type 0 where
  pub timestamp : ℤ
  pub entity : List (Option TripUpdate)

pub record Poller : Type 0 where
  pub name : Text
  pub url : Text
  pub interval : ℤ
  pub agency_id : Text
  pub differ : Differ
  pub published : ℕ

-- The readings of the clock in one poll; `commit_at i` is that of the commit after publish i.
pub record Readings : Type 0 where
  pub unix_now : ℤ
  pub diff_at : ℤ
  pub commit_at : ℕ → ℤ
  pub prune_at : ℤ

normalize_feed : Text → ℤ → List (Option TripUpdate) → List DelayEvent
normalize_feed agency_id observed_at [] = []
normalize_feed agency_id observed_at (none ∷ rest) = normalize_feed agency_id observed_at rest
normalize_feed agency_id observed_at (some tu ∷ rest) =
    normalize_trip_update agency_id observed_at tu ++ normalize_feed agency_id observed_at rest

pub observed_at_of : Feed → ℤ → ℤ
observed_at_of feed unix_now =
    if int_eq feed.timestamp (pos 0) then unix_now else wrap64 feed.timestamp

-- The events of a feed, before the differ.
unfoldable pub raw_events : Poller → Readings → Feed → List DelayEvent
unfolding normalize_feed observed_at_of
raw_events p at feed = normalize_feed p.agency_id (observed_at_of feed at.unix_now) feed.entity

-- The loop over the changed events: `sent i` tells whether the i-th publish succeeds.
unfoldable pub publish_loop : (ℕ → Bool) → (ℕ → ℤ) → ℕ → List DelayEvent → Differ × ℕ → Differ × ℕ
publish_loop sent commit_at i [] s = s
publish_loop sent commit_at i (ev ∷ rest) (d, n) =
    publish_loop sent commit_at (i + 1) rest
      (if sent i then (commit d (commit_at i) ev, (n + 1) % 2 ^ 64) else (d, n))

-- `none` is a failed fetch.
unfoldable pub poll_once : Poller → Readings → (ℕ → Bool) → Option Feed → Poller
poll_once p at sent none = p
poll_once p at sent (some feed) =
    let (changed, d) = diff p.differ at.diff_at (raw_events p at feed) in
    let (d', n) = publish_loop sent at.commit_at 0 changed (d, p.published) in
    record p { differ = (prune d' at.prune_at).1; published = n }

-- What the clock, the publisher and the feed answer in one poll.
pub record Turn : Type 0 where
  pub readings : Readings
  pub sent : ℕ → Bool
  pub fetched : Option Feed

unfoldable pub new_poller : Text → Text → Text → ℤ → Poller
new_poller name url agency_id interval = record {
  name = name;
  url = url;
  interval = interval;
  agency_id = agency_id;
  differ = new_differ;
  published = 0;
}

-- The ticks until the context is done.
unfoldable pub poll_all : Poller → List Turn → Poller
poll_all p [] = p
poll_all p (t ∷ rest) = poll_all (poll_once p t.readings t.sent t.fetched) rest

-- `Start`, with the first poll before the ticks.
unfoldable pub start : Poller → Turn → List Turn → Poller
start p first ticks = poll_all (poll_once p first.readings first.sent first.fetched) ticks
