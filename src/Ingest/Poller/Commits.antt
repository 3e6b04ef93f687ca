-- ===== src/Ingest/Poller/Commits.antt =====
-- The loop of `pollOnce` over the changed events: what its commits do to the differ.
use urban_goggles.Base.{
  ℕ, ◌+◌, ◌%◌, ◌^◌, ℤ, pos, ◌≤ℤ◌, Text, Text_eq, text_eq_iff, ◌==◌, Bool, false, Option, none, some,
  List, [], ◌∷◌, ◌≡◌, refl, inl, inr, arith, Map, lookup, keep_if, exists_in, All, if◌then◌else◌,
  Bool-cases, same_refl,
}
use urban_goggles.Transit.{DelayEvent}
use urban_goggles.Ingest.Differ.{
  Differ, DiffState, diff_key, is_changed, commit, is_stale, time_sub,
}
use urban_goggles.Ingest.Differ.Selection.{lookup-commit, is_changed-state_of}
use urban_goggles.Ingest.Differ.Retention.{IsValid, commit-IsValid}
use urban_goggles.Ingest.Poller.{publish_loop}

-- The events whose publish fails.
pub unsent : (ℕ → Bool) → ℕ → List DelayEvent → List DelayEvent
unsent sent i [] = []
unsent sent i (ev ∷ rest) =
    let later = unsent sent (i + 1) rest in if sent i then later else ev ∷ later

unfoldable pub occurs : Text → List DelayEvent → Bool
occurs k = exists_in (λ ev. diff_key ev == k)

-- No two events are of the same trip and stop.
unfoldable pub HasDistinctKeys : List DelayEvent → Type 0
unfolding occurs
HasDistinctKeys [] = Unit
HasDistinctKeys (ev ∷ rest) = (occurs (diff_key ev) rest ≡ false) × HasDistinctKeys rest

abbrev pub selects : Differ → Map Text DiffState → DelayEvent → Bool
selects d m ev = is_changed d (lookup (diff_key ev) m) ev

-- Whether `Prune` would evict what a lookup found.
unfoldable pub evicts : ℤ → ℤ → Option DiffState → Bool
evicts staleness now none = false
evicts staleness now (some st) = is_stale staleness now st

module _ (sent : ℕ → Bool) (commit_at : ℕ → ℤ) where
  abbrev pub after : ℕ → List DelayEvent → Differ → ℕ → Map Text DiffState
  after i evs d n = (publish_loop sent commit_at i evs (d, n)).0.prev

  lookup-after :
      (i : ℕ) (evs : List DelayEvent) (d : Differ) (n : ℕ) (k : Text)
      → occurs k evs ≡ false
      → lookup k (after i evs d n) ≡ lookup k d.prev
  unfolding publish_loop occurs exists_in
  lookup-after i [] d n k h = refl
  lookup-after i (ev ∷ evs) d n k h = ground (
    arith,
    lookup-after (i + 1) evs (commit d (commit_at i) ev) ((n + 1) % 2 ^ 64) k,
    lookup-after (i + 1) evs d n k,
    lookup-commit d (commit_at i) ev k,
  )

  abbrev pub Undisturbed :
      Differ → Map Text DiffState → Map Text DiffState → List DelayEvent → Type 0
  Undisturbed d m m' = All (λ ev. selects d m ev ≡ selects d m' ev)

  -- A commit for one key leaves the selection of other keys alone.
  Undisturbed-commit :
      (d d1 : Differ) (m : Map Text DiffState) (now : ℤ) (ev : DelayEvent) (rest : List DelayEvent)
      → occurs (diff_key ev) rest ≡ false
      → Undisturbed d m d1.prev rest
      → Undisturbed d m (commit d1 now ev).prev rest
  unfolding occurs exists_in
  Undisturbed-commit d d1 m now ev [] h u = tt
  Undisturbed-commit d d1 m now ev (e ∷ rest) h u = (
    rw (lookup-commit d1 now ev (diff_key e)) (
        ground (
          arith,
          u.0,
          text_eq_iff (diff_key ev) (diff_key e),
          text_eq_iff (diff_key e) (diff_key ev),
        )),
    Undisturbed-commit d d1 m now ev rest (ground arith) u.1,
  )

  occurs-keep_if :
      (p : DelayEvent → Bool) (k : Text) (evs : List DelayEvent)
      → occurs k evs ≡ false
      → occurs k (keep_if p evs) ≡ false
  unfolding occurs exists_in keep_if
  occurs-keep_if p k [] h = refl
  occurs-keep_if p k (ev ∷ evs) h = ground (arith, occurs-keep_if p k evs)

  -- After the loop over the selected events, the events that failed are selected again.
  publish_loop-unsent :
      (d d1 : Differ) (m : Map Text DiffState) (i n : ℕ) (raw : List DelayEvent)
      → pos 0 ≤ℤ d.threshold_seconds
      → pos 0 ≤ℤ d.predicted_threshold
      → HasDistinctKeys raw
      → Undisturbed d m d1.prev raw
      → keep_if (selects d (after i (keep_if (selects d m) raw) d1 n)) raw
        ≡ unsent sent i (keep_if (selects d m) raw)
  unfolding HasDistinctKeys unsent keep_if publish_loop
  publish_loop-unsent d d1 m i n [] ht hp hk u = refl
  publish_loop-unsent d d1 m i n (ev ∷ rest) ht hp hk u = elim (Bool-cases (selects d m ev)) [
    | inl chosen ↦ elim (Bool-cases (sent i)) [
      | inl ok ↦ ground (
        arith,
        chosen,
        ok,
        u.0,
        publish_loop-unsent d (commit d1 (commit_at i) ev) m (i + 1) ((n + 1) % 2 ^ 64) rest ht hp
            hk.1 (Undisturbed-commit d d1 m (commit_at i) ev rest hk.0 u.1),
        lookup-after (i + 1) (keep_if (selects d m) rest) (commit d1 (commit_at i) ev)
            ((n + 1) % 2 ^ 64) (diff_key ev) (occurs-keep_if (selects d m) (diff_key ev) rest hk.0),
        lookup-commit d1 (commit_at i) ev (diff_key ev),
        same_refl (diff_key ev),
        is_changed-state_of d (commit_at i) ev ht hp,
      )
      | inr failed ↦ ground (
        arith,
        chosen,
        failed,
        u.0,
        publish_loop-unsent d d1 m (i + 1) n rest ht hp hk.1 u.1,
        lookup-after (i + 1) (keep_if (selects d m) rest) d1 n (diff_key ev)
            (occurs-keep_if (selects d m) (diff_key ev) rest hk.0),
      )
    ]
    | inr same ↦ ground (
      arith,
      same,
      u.0,
      publish_loop-unsent d d1 m i n rest ht hp hk.1 u.1,
      lookup-after i (keep_if (selects d m) rest) d1 n (diff_key ev)
          (occurs-keep_if (selects d m) (diff_key ev) rest hk.0),
    )
  ]

  pub selected-unsent :
      (d d1 : Differ) (m : Map Text DiffState) (n : ℕ) (raw chosen : List DelayEvent)
      → pos 0 ≤ℤ d.threshold_seconds
      → pos 0 ≤ℤ d.predicted_threshold
      → HasDistinctKeys raw
      → Undisturbed d m d1.prev raw
      → chosen ≡ keep_if (selects d m) raw
      → keep_if (selects d (after 0 chosen d1 n)) raw ≡ unsent sent 0 chosen
  selected-unsent d d1 m n raw chosen ht hp hk u e =
      rw e (publish_loop-unsent d d1 m 0 n raw ht hp hk u)

  pub publish_loop-IsValid :
      (i : ℕ) (evs : List DelayEvent) (d : Differ) (n : ℕ)
      → IsValid d
      → IsValid (publish_loop sent commit_at i evs (d, n)).0
  unfolding publish_loop
  publish_loop-IsValid i [] d n v = v
  publish_loop-IsValid i (ev ∷ evs) d n v = elim (Bool-cases (sent i)) [
    | inl ok ↦
        rw (ok, publish_loop)
          (publish_loop-IsValid (i + 1) evs _ _ (commit-IsValid d (commit_at i) ev v))
    | inr failed ↦ rw (failed, publish_loop) (publish_loop-IsValid (i + 1) evs d n v)
  ]

  pub publish_loop_settings :
      (i : ℕ) (evs : List DelayEvent) (d : Differ) (n : ℕ)
      → let d' = (publish_loop sent commit_at i evs (d, n)).0 in
        (d'.threshold_seconds ≡ d.threshold_seconds)
        × (d'.predicted_threshold ≡ d.predicted_threshold)
        × (d'.staleness ≡ d.staleness)
  unfolding publish_loop commit
  publish_loop_settings i [] d n = (refl, refl, refl)
  publish_loop_settings i (ev ∷ evs) d n = ground (
    arith,
    publish_loop_settings (i + 1) evs (commit d (commit_at i) ev) ((n + 1) % 2 ^ 64),
    publish_loop_settings (i + 1) evs d n,
  )

  pub publish_loop-evicts :
      (staleness now : ℤ) (k : Text) (i : ℕ) (evs : List DelayEvent) (d : Differ) (n : ℕ)
      → ((j : ℕ) → time_sub now (commit_at j) ≤ℤ staleness)
      → evicts staleness now (lookup k d.prev) ≡ false
      → evicts staleness now (lookup k (after i evs d n)) ≡ false
  unfolding publish_loop
  publish_loop-evicts staleness now k i [] d n h f = f
  publish_loop-evicts staleness now k i (ev ∷ evs) d n h f = ground (
    arith,
    publish_loop-evicts staleness now k (i + 1) evs d n h f,
    publish_loop-evicts staleness now k (i + 1) evs (commit d (commit_at i) ev) ((n + 1) % 2 ^ 64) h
        (rw (lookup-commit d (commit_at i) ev k)
          (unfold evicts is_stale in ground (arith, h i, f))),
  )
