-- ===== src/Ingest/Differ/Retention.antt =====
-- What the differ remembers: `Prune` evicts the stale keys and no other, and no operation gives a
-- key two entries.
use urban_goggles.Base.{
  ◌+◌, ℤ, Text, Text_eq, text_eq_iff, Option, none, some, List, [], ◌∷◌, ◌≡◌, refl, arith, length,
  Option-cases, inl, inr, Map, lookup, insert-IsDistinct, IsDistinct, if◌then◌else◌,
}
use urban_goggles.Transit.{DelayEvent}
use urban_goggles.Ingest.Differ.{
  Differ, DiffState, diff, diff_loop, diff_key, refresh, commit, is_stale, prune_loop, prune,
}

-- A Go map never holds a key twice.
abbrev pub IsValid : Differ → Type 0
IsValid d = IsDistinct d.prev

unless_stale : ℤ → ℤ → Option DiffState → Option DiffState
unless_stale staleness now none = none
unless_stale staleness now (some st) = if is_stale staleness now st then none else some st

lookup-prune_loop :
    (staleness now : ℤ) (k : Text) (m : Map Text DiffState)
    → IsDistinct m
    → lookup k (prune_loop staleness now m).1 ≡ unless_stale staleness now (lookup k m)
unfolding prune_loop unless_stale lookup
lookup-prune_loop staleness now k [] h = refl
lookup-prune_loop staleness now k ((j, st) ∷ m) h =
    ground (arith, text_eq_iff j k, lookup-prune_loop staleness now k m h.1)

count-prune_loop :
    (staleness now : ℤ) (m : Map Text DiffState)
    → (prune_loop staleness now m).0 + length (prune_loop staleness now m).1 ≡ length m
unfolding prune_loop
count-prune_loop staleness now [] = omega arith
count-prune_loop staleness now ((j, st) ∷ m) = ground (arith, count-prune_loop staleness now m)

-- For a differ with distinct keys, `Prune` removes the keys not seen within the staleness window,
-- keeps all others as they were, and returns the number of keys that it removed.
pub prune_lem :
    (d : Differ) (now : ℤ) (k : Text)
    → IsValid d
    → (lookup k (prune d now).1.prev ≡ elim (lookup k d.prev) [
      | none ↦ none
      | some st ↦ if is_stale d.staleness now st then none else some st
    ])
      × ((prune d now).0 + length (prune d now).1.prev ≡ length d.prev)
unfolding prune unless_stale
prune_lem d now k h = (
  ground (arith, lookup-prune_loop d.staleness now k d.prev h),
  count-prune_loop d.staleness now d.prev,
)

prune_loop-IsDistinct :
    (staleness now : ℤ) (m : Map Text DiffState)
    → IsDistinct m
    → IsDistinct (prune_loop staleness now m).1
unfolding prune_loop unless_stale
prune_loop-IsDistinct staleness now [] h = tt
prune_loop-IsDistinct staleness now ((j, st) ∷ m) h =
    ground
      (arith, lookup-prune_loop staleness now j m h.1, prune_loop-IsDistinct staleness now m h.1)

refresh-IsDistinct :
    (key : Text) (now : ℤ) (m : Map Text DiffState) → IsDistinct m → IsDistinct (refresh key now m)
unfolding refresh
refresh-IsDistinct key now m h = elim (Option-cases (lookup key m)) [
  | inl e ↦ rw (e, refresh) h
  | inr (st, e) ↦ rw (e, refresh) (insert-IsDistinct key (record st { last_seen = now }) m h)
]

diff_loop-IsDistinct :
    (d : Differ) (now : ℤ) (m : Map Text DiffState) (evs : List DelayEvent)
    → IsDistinct m
    → IsDistinct (diff_loop d now m evs).1
unfolding diff_loop
diff_loop-IsDistinct d now m [] h = h
diff_loop-IsDistinct d now m (ev ∷ evs) h =
    diff_loop-IsDistinct d now (refresh (diff_key ev) now m) evs
      (refresh-IsDistinct (diff_key ev) now m h)

pub diff-IsValid :
    (d : Differ) (now : ℤ) (evs : List DelayEvent) → IsValid d → IsValid (diff d now evs).1
unfolding diff
diff-IsValid d now [] h = h
diff-IsValid d now (ev ∷ evs) h = diff_loop-IsDistinct d now d.prev (ev ∷ evs) h

pub commit-IsValid :
    (d : Differ) (now : ℤ) (ev : DelayEvent) → IsValid d → IsValid (commit d now ev)
unfolding commit
commit-IsValid d now ev h = insert-IsDistinct (diff_key ev) _ d.prev h

pub prune-IsValid : (d : Differ) (now : ℤ) → IsValid d → IsValid (prune d now).1
unfolding prune
prune-IsValid d now h = prune_loop-IsDistinct d.staleness now d.prev h
