-- ===== src/Ingest/Differ.antt =====
-- internal/ingest/differ.go. A time.Time is a number of nanoseconds; `now` is the clock's reading.
-- The mutex makes each operation atomic, so an operation is a function of the differ's state.
pub mod Selection
pub mod Retention
use urban_goggles.Base.{
  ℕ, ◌+◌, ◌*◌, ◌^◌, ◌-◌, ℤ, pos, negsuc, ◌-ℤ◌, ltb_ℤ, sub32, sub64, abs32, abs64, Text, Text_eq,
  ℕ_eq, ◌==◌, Bool, true, not, ◌||◌, Option, none, some, List, [], ◌∷◌, ◌++◌, Map, lookup, insert,
  if◌then◌else◌,
}
use urban_goggles.Transit.{EventType, DelayEvent, type_code}

pub record DiffState : Type 0 where
  pub delay : ℤ
  pub predicted : ℤ
  pub ev_type : EventType
  pub last_seen : ℤ

pub record Differ : Type 0 where
  pub threshold_seconds : ℤ
  pub predicted_threshold : ℤ
  pub staleness : ℤ
  pub prev : Map Text DiffState

abbrev pub default_delay_change_threshold_seconds : ℤ
default_delay_change_threshold_seconds = pos 15

abbrev pub default_predicted_change_threshold_seconds : ℤ
default_predicted_change_threshold_seconds = pos 15

-- 30 minutes in nanoseconds.
abbrev pub default_staleness_window : ℤ
default_staleness_window = pos (30 * 60 * 1000000000)

unfoldable pub new_differ : Differ
new_differ = record {
  threshold_seconds = default_delay_change_threshold_seconds;
  predicted_threshold = default_predicted_change_threshold_seconds;
  staleness = default_staleness_window;
  prev = [];
}

unfoldable pub diff_key : DelayEvent → Text
diff_key ev = ev.trip_id ++ (b'|' ∷ ev.stop_id)

-- The `switch`: its cases in order, `false` where none applies.
unfoldable pub is_changed : Differ → Option DiffState → DelayEvent → Bool
is_changed d none ev = true
is_changed d (some last) ev =
    not (type_code ev.event_type == type_code last.ev_type)
    || (ltb_ℤ d.threshold_seconds (abs32 (sub32 ev.delay_seconds last.delay))
        || ltb_ℤ d.predicted_threshold (abs64 (sub64 ev.predicted_arrival last.predicted)))

-- `if seen { last.lastSeen = now; d.prev[key] = last }`.
refresh : Text → ℤ → Map Text DiffState → Map Text DiffState
refresh key now prev = elim (lookup key prev) [
  | none ↦ prev
  | some last ↦ insert key (record last { last_seen = now }) prev
]

-- The loop of `Diff`: the selected events, and the map that it leaves.
diff_loop : Differ → ℤ → Map Text DiffState → List DelayEvent → List DelayEvent × Map Text DiffState
diff_loop d now prev [] = ([], prev)
diff_loop d now prev (ev ∷ rest) =
    let key = diff_key ev in
    let last = lookup key prev in
    let (out, prev') = diff_loop d now (refresh key now prev) rest in
    (if is_changed d last ev then ev ∷ out else out, prev')

unfoldable pub diff : Differ → ℤ → List DelayEvent → List DelayEvent × Differ
unfolding diff_loop refresh
diff d now [] = ([], d)
diff d now (ev ∷ rest) =
    let (out, prev) = diff_loop d now d.prev (ev ∷ rest) in (out, record d { prev = prev })

-- The observation that `Commit` records.
abbrev pub state_of : ℤ → DelayEvent → DiffState
state_of now ev = record {
  delay = ev.delay_seconds;
  predicted = ev.predicted_arrival;
  ev_type = ev.event_type;
  last_seen = now;
}

unfoldable pub commit : Differ → ℤ → DelayEvent → Differ
commit d now ev = record d { prev = insert (diff_key ev) (state_of now ev) d.prev }

-- `t.Sub(u)`: the difference of two times, held to the range of a time.Duration.
unfoldable pub time_sub : ℤ → ℤ → ℤ
time_sub t u =
    let diff = t -ℤ u in
    if ltb_ℤ (pos (2 ^ 63 - 1)) diff
    then pos (2 ^ 63 - 1)
    else if ltb_ℤ diff (negsuc (2 ^ 63 - 1))
    then negsuc (2 ^ 63 - 1)
    else diff

unfoldable pub is_stale : ℤ → ℤ → DiffState → Bool
is_stale staleness now st = ltb_ℤ staleness (time_sub now st.last_seen)

prune_loop : ℤ → ℤ → Map Text DiffState → ℕ × Map Text DiffState
prune_loop staleness now [] = (0, [])
prune_loop staleness now ((key, st) ∷ rest) =
    let (n, kept) = prune_loop staleness now rest in
    if is_stale staleness now st then (n + 1, kept) else (n, (key, st) ∷ kept)

unfoldable pub prune : Differ → ℤ → ℕ × Differ
unfolding prune_loop
prune d now = let (n, kept) = prune_loop d.staleness now d.prev in (n, record d { prev = kept })
