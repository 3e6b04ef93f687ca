-- ===== src/Ingest/Ingestor/Feeds.antt =====
-- The pollers of cmd/ingestor/main.go beside each other: none disturbs another.
use urban_goggles.Base.{
  ℕ, zero, suc, ◌+◌, ◌%◌, ◌^◌, ℤ, pos, int_eq_iff, Text, Bool, Option, Option-cases, List, [], ◌∷◌,
  length, ◌⊎◌, inl, inr, ◌≡◌, ◌≢◌, refl, arith,
}
use urban_goggles.External.Float.{Float64}
use urban_goggles.Ingest.Config.{
  FeedConfig, IngestConfig, ConfigError, fill_feeds, default_interval, fill_config, load_config,
}
use urban_goggles.Ingest.Poller.{Poller, Turn, new_poller, poll_once, poll_all}
use urban_goggles.Ingest.Poller.Memory.{sent_by, Agrees, poll_all-Agrees, new_poller-Agrees}
use urban_goggles.Ingest.Ingestor.{
  pollers_for, start_feeds, start_ingestor, poll_at, poll_feeds, total_published,
}

-- The polls of the first poller, and those of the others, counted from the second.
unfoldable pub turns_of_first : List (ℕ × Turn) → List Turn
turns_of_first [] = []
turns_of_first ((zero, t) ∷ rest) = t ∷ turns_of_first rest
turns_of_first ((suc i, t) ∷ rest) = turns_of_first rest

unfoldable pub turns_of_rest : List (ℕ × Turn) → List (ℕ × Turn)
turns_of_rest [] = []
turns_of_rest ((zero, t) ∷ rest) = turns_of_rest rest
turns_of_rest ((suc i, t) ∷ rest) = (i, t) ∷ turns_of_rest rest

-- All published events.
unfoldable pub sent_count : List (ℕ × Turn) → List Poller → ℕ
sent_count turns [] = 0
sent_count turns (p ∷ ps) =
    length (sent_by p (turns_of_first turns) []) + sent_count (turns_of_rest turns) ps

poll_feeds_nil : (turns : List (ℕ × Turn)) → poll_feeds turns [] ≡ []
unfolding poll_feeds poll_at
poll_feeds_nil [] = refl
poll_feeds_nil ((i, t) ∷ rest) = poll_feeds_nil rest

poll_feeds_cons :
    (turns : List (ℕ × Turn)) (p : Poller) (ps : List Poller)
    → poll_feeds turns (p ∷ ps)
      ≡ poll_all p (turns_of_first turns) ∷ poll_feeds (turns_of_rest turns) ps
unfolding poll_feeds poll_at poll_all turns_of_first turns_of_rest
poll_feeds_cons [] p ps = refl
poll_feeds_cons ((zero, t) ∷ rest) p ps =
    poll_feeds_cons rest (poll_once p t.readings t.sent t.fetched) ps
poll_feeds_cons ((suc i, t) ∷ rest) p ps = poll_feeds_cons rest p (poll_at i t ps)

-- No feed is left without an interval.
abbrev HaveIntervals : List FeedConfig → Type 0
HaveIntervals [] = Unit
HaveIntervals (feed ∷ rest) = (feed.poll_interval ≢ pos 0) × HaveIntervals rest

fill_feeds-HaveIntervals :
    (default : ℤ) (feeds : List FeedConfig)
    → default ≢ pos 0
    → HaveIntervals (fill_feeds default feeds)
unfolding fill_feeds
fill_feeds-HaveIntervals default [] h = tt
fill_feeds-HaveIntervals default (feed ∷ rest) h = (
  ground (arith, int_eq_iff feed.poll_interval (pos 0), h),
  fill_feeds-HaveIntervals default rest h,
)

default_interval_lem : (n : ℤ) → default_interval n ≢ pos 0
unfolding default_interval
default_interval_lem n = ground (arith, int_eq_iff n (pos 0))

module _ {F : Type 0} where
  abbrev pub poller_for : IngestConfig F → FeedConfig → Poller
  poller_for c feed = new_poller feed.name feed.url c.agency_id feed.poll_interval

  -- The pollers at the end, each for its feed.
  unfoldable pub AreFed : IngestConfig F → List (ℕ × Turn) → List FeedConfig → List Poller → Type 0
  AreFed c turns [] [] = Unit
  AreFed c turns [] (p ∷ ps) = ⊥
  AreFed c turns (feed ∷ rest) [] = ⊥
  AreFed c turns (feed ∷ rest) (p ∷ ps) =
      (feed.poll_interval ≢ pos 0)
      × (p ≡ poll_all (poller_for c feed) (turns_of_first turns))
      × Agrees (sent_by (poller_for c feed) (turns_of_first turns) []) p.differ p.published
      × AreFed c (turns_of_rest turns) rest ps

  poll_feeds-AreFed :
      (c : IngestConfig F) (turns : List (ℕ × Turn)) (feeds : List FeedConfig)
      → HaveIntervals feeds
      → AreFed c turns feeds (poll_feeds turns (pollers_for c feeds))
  unfolding AreFed pollers_for
  poll_feeds-AreFed c turns [] h = rw (poll_feeds_nil turns) tt
  poll_feeds-AreFed c turns (feed ∷ rest) h =
      let mine = turns_of_first turns in
      let agrees =
        poll_all-Agrees (poller_for c feed) mine []
          (new_poller-Agrees feed.name feed.url c.agency_id feed.poll_interval) in
      rw (poll_feeds_cons turns (poller_for c feed) (pollers_for c rest))
        (h.0, refl, agrees, poll_feeds-AreFed c (turns_of_rest turns) rest h.1)

  total-poll_feeds :
      (c : IngestConfig F) (turns : List (ℕ × Turn)) (feeds : List FeedConfig)
      → total_published (poll_feeds turns (pollers_for c feeds))
        ≡ sent_count turns (pollers_for c feeds) % 2 ^ 64
  unfolding total_published sent_count pollers_for
  total-poll_feeds c turns [] = rw (poll_feeds_nil turns) refl
  total-poll_feeds c turns (feed ∷ rest) =
      let mine = turns_of_first turns in
      let agrees =
        poll_all-Agrees (poller_for c feed) mine []
          (new_poller-Agrees feed.name feed.url c.agency_id feed.poll_interval) in
      let others = total-poll_feeds c (turns_of_rest turns) rest in
      rw (poll_feeds_cons turns (poller_for c feed) (pollers_for c rest))
        (omega (arith, agrees.counts, others))

  start_feeds_lem :
      (c : IngestConfig F) (connects : Bool) (feeds : List FeedConfig) {ps : List Poller}
      → start_feeds c connects feeds ≡ inr ps
      → ps ≡ pollers_for c feeds
  unfolding start_feeds pollers_for
  start_feeds_lem c connects [] h = absurd (ground (arith, h))
  start_feeds_lem c connects (feed ∷ rest) h = ground (arith, h)

module _ (f : Float64) (read_file : Text → Option Text)
    (parse : Text → Option (IngestConfig f.F)) where
  load_config-HaveIntervals :
      (path : Text) {c : IngestConfig f.F}
      → load_config f read_file parse path ≡ inr c
      → HaveIntervals c.feeds
  unfolding load_config fill_config
  load_config-HaveIntervals path {c} h = elim (Option-cases (read_file path)) [
    | inl none_read ↦ absurd (ground (arith, none_read, h))
    | inr (bytes, are_read) ↦ elim (Option-cases (parse bytes)) [
      | inl none_parsed ↦ absurd (ground (arith, are_read, none_parsed, h))
      | inr (raw, is_parsed) ↦
          let filled : c ≡ fill_config f raw = ground (arith, are_read, is_parsed, h) in
          rw filled (
            fill_feeds-HaveIntervals (default_interval raw.polling_default_interval) raw.feeds
              (default_interval_lem raw.polling_default_interval))
    ]
  ]

  -- If the ingestor starts, its configuration is read and parsed, and after any polls of its
  -- pollers, in any order and whatever they are answered, there is one poller for each feed, in
  -- order; the feed's interval is not zero; the poller is as its own polls alone have left it, and
  -- agrees with the events that they published; and the total of all counters is the number of all
  -- published events, modulo 2 ^ 64.
  pub start_ingestor-AreFed :
      (path : Text) (connects : Bool) (turns : List (ℕ × Turn)) {ps : List Poller}
      → start_ingestor (load_config f read_file parse path) connects ≡ inr ps
      → (c : IngestConfig f.F) × (load_config f read_file parse path ≡ inr c)
        × AreFed c turns c.feeds (poll_feeds turns ps)
        × (total_published (poll_feeds turns ps) ≡ sent_count turns ps % 2 ^ 64)
  unfolding start_ingestor
  start_ingestor-AreFed path connects turns {ps} h = go (load_config f read_file parse path) refl h
    where
      go :
          (loaded : ConfigError ⊎ IngestConfig f.F)
          → load_config f read_file parse path ≡ loaded
          → start_ingestor loaded connects ≡ inr ps
          → (c : IngestConfig f.F) × (load_config f read_file parse path ≡ inr c)
            × AreFed c turns c.feeds (poll_feeds turns ps)
            × (total_published (poll_feeds turns ps) ≡ sent_count turns ps % 2 ^ 64)
      go (inl e) same s = absurd (ground (arith, s))
      go (inr c) same s =
          let all = start_feeds_lem c connects c.feeds {ps = ps} s in
          let intervals = load_config-HaveIntervals path {c = c} same in
          (
            c,
            same,
            rw all (poll_feeds-AreFed c turns c.feeds intervals),
            rw all (total-poll_feeds c turns c.feeds),
          )
