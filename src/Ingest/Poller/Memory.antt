-- ===== src/Ingest/Poller/Memory.antt =====
-- What the polls of internal/ingest/poller.go leave in the differ, told by the published events.
use mathlib.Core.Option
use urban_goggles.Base.{
  ℕ, ◌+◌, ◌%◌, ◌^◌, ℤ, Text, Text_eq, ◌==◌, Bool, Bool-cases, true, false, Option, none, some, List,
  [], ◌∷◌, length, lookup, find_first, exists_in, if◌then◌else◌, ◌≡◌, refl, ◌⊎◌, inl, inr, arith,
}
use urban_goggles.Transit.{DelayEvent, EventType}
use urban_goggles.Ingest.Differ.{
  Differ, DiffState, new_differ, diff, diff_key, commit, prune, is_stale,
}
use urban_goggles.Ingest.Differ.Selection.{lookup-diff, lookup-commit, seen_at}
use urban_goggles.Ingest.Differ.Retention.{
  IsValid, diff-IsValid, commit-IsValid, prune-IsValid, prune_lem,
}
use urban_goggles.Ingest.Poller.{
  Feed, Poller, Turn, publish_loop, raw_events, poll_once, new_poller, poll_all, start,
}

-- The published ones of a poll's events, before those of earlier polls, the latest first.
unfoldable pub add_sent : (ℕ → Bool) → ℕ → List DelayEvent → List DelayEvent → List DelayEvent
add_sent sent i [] earlier = earlier
add_sent sent i (ev ∷ rest) earlier =
    add_sent sent (i + 1) rest (if sent i then ev ∷ earlier else earlier)

sent_in : Poller → Turn → Option Feed → List DelayEvent → List DelayEvent
sent_in p t none earlier = earlier
sent_in p t (some feed) earlier =
    add_sent t.sent 0 (diff p.differ t.readings.diff_at (raw_events p t.readings feed)).0 earlier

unfoldable pub sent_by : Poller → List Turn → List DelayEvent → List DelayEvent
unfolding sent_in
sent_by p [] earlier = earlier
sent_by p (t ∷ rest) earlier =
    sent_by (poll_once p t.readings t.sent t.fetched) rest (sent_in p t t.fetched earlier)

-- The last published event of a trip and stop.
unfoldable pub last_sent : Text → List DelayEvent → Option DelayEvent
last_sent k = find_first (λ ev. diff_key ev == k)

abbrev pub observed : DiffState → ℤ × ℤ × EventType
observed st = (st.delay, st.predicted, st.ev_type)

abbrev pub reported : DelayEvent → ℤ × ℤ × EventType
reported ev = (ev.delay_seconds, ev.predicted_arrival, ev.event_type)

-- What the differ has for the key, if anything, is what was published for it last.
abbrev pub Recalls : Text → List DelayEvent → Option DiffState → Type 0
Recalls k log found =
    (found ≡ none) ⊎ (Option.map observed found ≡ Option.map reported (last_sent k log))

abbrev Remembers : List DelayEvent → Differ → Type 0
Remembers log d = (k : Text) → Recalls k log (lookup k d.prev)

commit-Remembers :
    (log : List DelayEvent) (d : Differ) (now : ℤ) (ev : DelayEvent)
    → Remembers log d
    → Remembers (ev ∷ log) (commit d now ev)
unfolding last_sent find_first
commit-Remembers log d now ev h k = elim (Bool-cases (diff_key ev == k)) [
  | inl own ↦ rw (lookup-commit d now ev k, own) (inr refl)
  | inr other ↦ rw (lookup-commit d now ev k, other) (h k)
]

diff-Remembers :
    (log : List DelayEvent) (d : Differ) (now : ℤ) (evs : List DelayEvent)
    → Remembers log d
    → Remembers log (diff d now evs).1
diff-Remembers log d now evs h k =
    rw (lookup-diff d now evs k)
      (refreshed (exists_in (λ ev. diff_key ev == k) evs) (lookup k d.prev) (h k))
  where
    refreshed :
        (b : Bool) (found : Option DiffState)
        → Recalls k log found
        → Recalls k log (Option.map (λ st. if b then seen_at now st else st) found)
    refreshed b none r = inl refl
    refreshed false (some st) r = r
    refreshed true (some st) r = elim r [ inl e ↦ absurd (ground (arith, e)) | inr e ↦ inr e ]

prune-Remembers :
    (log : List DelayEvent) (d : Differ) (now : ℤ)
    → IsValid d
    → Remembers log d
    → Remembers log (prune d now).1
prune-Remembers log d now v h k = rw ((prune_lem d now k v).0) (kept (lookup k d.prev) (h k))
  where
    kept :
        (found : Option DiffState)
        → Recalls k log found
        → Recalls k log (elim found [
          | none ↦ none
          | some st ↦ if is_stale d.staleness now st then none else some st
        ])
    kept none r = inl refl
    kept (some st) r = elim (Bool-cases (is_stale d.staleness now st)) [
      | inl stale ↦ rw stale (inl refl)
      | inr fresh ↦ rw fresh r
    ]

-- The differ and the counter agree with the published events.
pub record Agrees (log : List DelayEvent) (d : Differ) (n : ℕ) : Type 0 where
  pub valid : IsValid d
  pub remembers : (k : Text) → Recalls k log (lookup k d.prev)
  pub counts : n ≡ length log % 2 ^ 64

publish_loop-Agrees :
    (sent : ℕ → Bool) (commit_at : ℕ → ℤ) (i : ℕ) (evs log : List DelayEvent) (d : Differ) (n : ℕ)
    → Agrees log d n
    → let (d', n') = publish_loop sent commit_at i evs (d, n) in
      Agrees (add_sent sent i evs log) d' n'
unfolding publish_loop add_sent
publish_loop-Agrees sent commit_at i [] log d n a = a
publish_loop-Agrees sent commit_at i (ev ∷ rest) log d n a = elim (Bool-cases (sent i)) [
  | inl ok ↦
      rw (ok, publish_loop, add_sent)
        (publish_loop-Agrees sent commit_at (i + 1) rest (ev ∷ log) _ _ (record {
          valid = commit-IsValid d (commit_at i) ev a.valid;
          remembers = commit-Remembers log d (commit_at i) ev a.remembers;
          counts = omega (arith, a.counts);
        }))
  | inr failed ↦
      rw (failed, publish_loop, add_sent)
        (publish_loop-Agrees sent commit_at (i + 1) rest log d n a)
]

poll_once-Agrees :
    (p : Poller) (t : Turn) (fetched : Option Feed) (log : List DelayEvent)
    → Agrees log p.differ p.published
    → let p' = poll_once p t.readings t.sent fetched in
      Agrees (sent_in p t fetched log) p'.differ p'.published
unfolding poll_once sent_in
poll_once-Agrees p t none log a = a
poll_once-Agrees p t (some feed) log a =
    let at = t.readings in
    let raw = raw_events p at feed in
    let (changed, d) = diff p.differ at.diff_at raw in
    let done = publish_loop-Agrees t.sent at.commit_at 0 changed log d p.published (record {
      valid = diff-IsValid p.differ at.diff_at raw a.valid;
      remembers = diff-Remembers log p.differ at.diff_at raw a.remembers;
      counts = a.counts;
    }) in
    record {
      valid = prune-IsValid _ at.prune_at done.valid;
      remembers = prune-Remembers _ _ at.prune_at done.valid done.remembers;
      counts = done.counts;
    }

pub poll_all-Agrees :
    (p : Poller) (ts : List Turn) (log : List DelayEvent)
    → Agrees log p.differ p.published
    → let p' = poll_all p ts in Agrees (sent_by p ts log) p'.differ p'.published
unfolding poll_all sent_by
poll_all-Agrees p [] log a = a
poll_all-Agrees p (t ∷ ts) log a =
    poll_all-Agrees (poll_once p t.readings t.sent t.fetched) ts (sent_in p t t.fetched log)
      (poll_once-Agrees p t t.fetched log a)

pub new_poller-Agrees :
    (name url agency_id : Text) (interval : ℤ)
    → let new = new_poller name url agency_id interval in Agrees [] new.differ new.published
unfolding new_poller new_differ lookup
new_poller-Agrees name url agency_id interval = record {
  valid = tt;
  remembers = λ k. inl refl;
  counts = omega arith;
}

-- Over any polls of a new poller, whatever they fetch and whichever publishes fail: the differ's
-- keys are distinct, what it holds for a trip and stop, if anything, is the delay, the predicted
-- arrival and the type of the event that was published for it last, and the counter is the number
-- of published events, modulo 2 ^ 64.
pub start-Agrees :
    (name url agency_id : Text) (interval : ℤ) (first : Turn) (ticks : List Turn)
    → let new = new_poller name url agency_id interval in
      let p = start new first ticks in Agrees (sent_by new (first ∷ ticks) []) p.differ p.published
unfolding start poll_once poll_all
start-Agrees name url agency_id interval first ticks =
    poll_all-Agrees (new_poller name url agency_id interval) (first ∷ ticks) []
      (new_poller-Agrees name url agency_id interval)
