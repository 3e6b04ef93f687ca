-- ===== src/Ingest/Poller/Delivery.antt =====
-- Delivery of changes: an event stays a candidate until its publish succeeds, and no longer.
use urban_goggles.Base.{
  ℕ, ℤ, pos, ◌≤ℤ◌, Text, Text_eq, Bool, true, false, Option, none, some, List, [], ◌∷◌, ◌≡◌, refl,
  arith, lookup, keep_if-congr, exists_in, All, All-map, same_refl, ◌∙◌,
}
use urban_goggles.Transit.{DelayEvent}
use urban_goggles.Ingest.Differ.{
  Differ, DiffState, diff, diff_key, is_changed, is_stale, prune, time_sub,
}
use urban_goggles.Ingest.Differ.Selection.{diff-selects, lookup-diff}
use urban_goggles.Ingest.Differ.Retention.{IsValid, prune_lem, diff-IsValid}
use urban_goggles.Ingest.Poller.{Poller, Readings, Feed, raw_events, publish_loop, poll_once}
use urban_goggles.Ingest.Poller.Commits.{
  unsent, occurs, HasDistinctKeys, selects, evicts, selected-unsent, publish_loop-IsValid,
  publish_loop_settings, publish_loop-evicts,
}

-- `Diff` itself leaves the selection alone: it refreshes only the times.
Undisturbed-diff :
    (d : Differ) (now : ℤ) (raw evs : List DelayEvent)
    → All (λ ev. selects d d.prev ev ≡ selects d (diff d now raw).1.prev ev) evs
Undisturbed-diff d now raw [] = tt
Undisturbed-diff d now raw (ev ∷ evs) = (
  rw (lookup-diff d now raw (diff_key ev)) (unfold is_changed in ground arith),
  Undisturbed-diff d now raw evs,
)

occurs_self : (evs : List DelayEvent) → All (λ ev. occurs (diff_key ev) evs ≡ true) evs
unfolding occurs exists_in
occurs_self [] = tt
occurs_self (ev ∷ evs) = (
  ground (arith, same_refl (diff_key ev)),
  All-map _ _ evs (λ e h. ground (arith, h)) (occurs_self evs),
)

diff-evicts :
    (d : Differ) (now at : ℤ) (raw evs : List DelayEvent)
    → time_sub at now ≤ℤ d.staleness
    → All (λ ev. occurs (diff_key ev) raw ≡ true) evs
    → All (λ ev. evicts d.staleness at (lookup (diff_key ev) (diff d now raw).1.prev) ≡ false) evs
diff-evicts d now at raw [] h o = tt
diff-evicts d now at raw (ev ∷ evs) h o = (
  rw (lookup-diff d now raw (diff_key ev)) (unfold evicts is_stale occurs in ground (arith, o.0)),
  diff-evicts d now at raw evs h o.1,
)

diff_settings :
    (d : Differ) (now : ℤ) (evs : List DelayEvent)
    → let d' = (diff d now evs).1 in
      (d'.threshold_seconds ≡ d.threshold_seconds)
      × (d'.predicted_threshold ≡ d.predicted_threshold)
      × (d'.staleness ≡ d.staleness)
unfolding diff
diff_settings d now [] = (refl, refl, refl)
diff_settings d now (ev ∷ evs) = (refl, refl, refl)

prune-keeps :
    (d : Differ) (now : ℤ) (k : Text)
    → IsValid d
    → evicts d.staleness now (lookup k d.prev) ≡ false
    → lookup k (prune d now).1.prev ≡ lookup k d.prev
unfolding evicts
prune-keeps d now k v h = ground (arith, (prune_lem d now k v).0)

is_changed_settings :
    (d d' : Differ) (o : Option DiffState) (ev : DelayEvent)
    → d'.threshold_seconds ≡ d.threshold_seconds
    → d'.predicted_threshold ≡ d.predicted_threshold
    → is_changed d' o ev ≡ is_changed d o ev
unfolding is_changed
is_changed_settings d d' none ev h k = refl
is_changed_settings d d' (some st) ev h k = rw (h, k)

prune_settings :
    (d : Differ) (now : ℤ)
    → let d' = (prune d now).1 in
      (d'.threshold_seconds ≡ d.threshold_seconds)
      × (d'.predicted_threshold ≡ d.predicted_threshold)
unfolding prune
prune_settings d now = (refl, refl)

module _ (p : Poller) (at : Readings) (sent : ℕ → Bool) (feed : Feed) (valid : IsValid p.differ)
    (delay_threshold : pos 0 ≤ℤ p.differ.threshold_seconds)
    (predicted_threshold : pos 0 ≤ℤ p.differ.predicted_threshold)
    (distinct : HasDistinctKeys (raw_events p at feed))
    (diff_live : time_sub at.prune_at at.diff_at ≤ℤ p.differ.staleness)
    (commits_live : (i : ℕ) → time_sub at.prune_at (at.commit_at i) ≤ℤ p.differ.staleness) where
  abbrev raw : List DelayEvent
  raw = raw_events p at feed

  abbrev diffed : List DelayEvent × Differ
  diffed = diff p.differ at.diff_at raw

  abbrev sent_out : Differ
  sent_out = (publish_loop sent at.commit_at 0 diffed.0 (diffed.1, p.published)).0

  abbrev polled : Differ
  polled = (prune sent_out at.prune_at).1

  polled-lookup :
      (ev : DelayEvent)
      → occurs (diff_key ev) raw ≡ true
      → lookup (diff_key ev) polled.prev ≡ lookup (diff_key ev) sent_out.prev
  polled-lookup ev h =
      let kept = publish_loop_settings sent at.commit_at 0 diffed.0 diffed.1 p.published in
      prune-keeps sent_out at.prune_at (diff_key ev)
        (publish_loop-IsValid sent at.commit_at 0 diffed.0 diffed.1 p.published
          (diff-IsValid p.differ at.diff_at raw valid))
        (rw (kept.2, (diff_settings p.differ at.diff_at raw).2)
          (publish_loop-evicts sent at.commit_at p.differ.staleness at.prune_at (diff_key ev) 0
            diffed.0 diffed.1 p.published commits_live
            (diff-evicts p.differ at.diff_at at.prune_at raw (ev ∷ []) diff_live (h, tt)).0))

  polled-selects :
      (ev : DelayEvent)
      → occurs (diff_key ev) raw ≡ true
      → is_changed polled (lookup (diff_key ev) polled.prev) ev ≡ selects p.differ sent_out.prev ev
  polled-selects ev h =
      let kept = publish_loop_settings sent at.commit_at 0 diffed.0 diffed.1 p.published in
      let first = diff_settings p.differ at.diff_at raw in
      let last = prune_settings sent_out at.prune_at in
      rw (polled-lookup ev h) (
        is_changed_settings p.differ polled (lookup (diff_key ev) sent_out.prev) ev
          (last.0 ∙ kept.0 ∙ first.0) (last.1 ∙ kept.1 ∙ first.1))

  -- Where the thresholds are not negative, the events of a feed are of distinct trips and stops,
  -- and nothing that the poll itself records is stale by the time it prunes, another look at the
  -- same events right after the poll selects exactly the events whose publish failed, in order:
  -- what was sent is not sent again, and what was not is retried.
  pub poll_once-delivers :
      (later : ℤ)
      → (diff (poll_once p at sent (some feed)).differ later (raw_events p at feed)).0
        ≡ unsent sent 0 (diff p.differ at.diff_at (raw_events p at feed)).0
  unfolding poll_once
  poll_once-delivers later =
      diff-selects polled later raw
      ∙ keep_if-congr _ (selects p.differ sent_out.prev) raw
          (All-map _ _ raw polled-selects (occurs_self raw))
      ∙ selected-unsent sent at.commit_at p.differ diffed.1 p.differ.prev p.published raw diffed.0
          delay_threshold predicted_threshold distinct
          (Undisturbed-diff p.differ at.diff_at raw raw) (diff-selects p.differ at.diff_at raw)
