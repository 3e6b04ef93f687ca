-- ===== src/Ingest/Differ/Selection.antt =====
-- Which events `Diff` selects, and what `Commit` makes of the next poll.
use mathlib.Core.Option
use urban_goggles.Base.{
  ℤ, pos, ◌≤ℤ◌, ◌<ℤ◌, ◌-ℤ◌, sub32_self, sub64_self, abs32, abs64, InInt32, InInt64, Text, Text_eq,
  ℕ_eq, ◌==◌, text_eq_iff, nat_eq_iff, Bool, true, false, Option, none, some, List, [], ◌∷◌, ◌≡◌,
  refl, ◌⊎◌, ◌↔◌, inl, inr, arith, Option-cases, abs32-sub32, abs64-sub64, dist, ◌≢◌, Map, lookup,
  lookup-insert, keep_if, exists_in, if◌then◌else◌,
}
use urban_goggles.Transit.{EventType, DelayEvent, type_code}
use urban_goggles.Ingest.Differ.{
  Differ, DiffState, diff, diff_loop, diff_key, is_changed, refresh, commit, state_of,
}

-- Only the time at which the key was last seen is new.
abbrev pub seen_at : ℤ → DiffState → DiffState
seen_at now st = record st { last_seen = now }

abbrev seen_if : Bool → ℤ → Option DiffState → Option DiffState
seen_if b now none = none
seen_if b now (some st) = some (if b then seen_at now st else st)

lookup-refresh :
    (key j : Text) (now : ℤ) (prev : Map Text DiffState)
    → lookup j (refresh key now prev) ≡ seen_if (key == j) now (lookup j prev)
unfolding refresh
lookup-refresh key j now prev = elim (Option-cases (lookup key prev)) [
  | inl e ↦ ground (arith, text_eq_iff key j)
  | inr (st, e) ↦ ground (arith, text_eq_iff key j, lookup-insert key j (seen_at now st) prev)
]

is_changed-refresh :
    (d : Differ) (key : Text) (now : ℤ) (prev : Map Text DiffState) (ev : DelayEvent)
    → is_changed d (lookup (diff_key ev) (refresh key now prev)) ev
      ≡ is_changed d (lookup (diff_key ev) prev) ev
unfolding is_changed
is_changed-refresh d key now prev ev = rw (lookup-refresh key (diff_key ev) now prev) (ground arith)

selects : Differ → Map Text DiffState → DelayEvent → Bool
selects d prev ev = is_changed d (lookup (diff_key ev) prev) ev

selects-refresh :
    (d : Differ) (key : Text) (now : ℤ) (prev : Map Text DiffState) (evs : List DelayEvent)
    → keep_if (selects d (refresh key now prev)) evs ≡ keep_if (selects d prev) evs
unfolding keep_if selects
selects-refresh d key now prev [] = refl
selects-refresh d key now prev (ev ∷ evs) =
    ground (arith, is_changed-refresh d key now prev ev, selects-refresh d key now prev evs)

diff_loop-selects :
    (d : Differ) (now : ℤ) (prev : Map Text DiffState) (evs : List DelayEvent)
    → (diff_loop d now prev evs).0 ≡ keep_if (selects d prev) evs
unfolding diff_loop keep_if selects
diff_loop-selects d now prev [] = refl
diff_loop-selects d now prev (ev ∷ evs) = ground (
  arith,
  diff_loop-selects d now (refresh (diff_key ev) now prev) evs,
  selects-refresh d (diff_key ev) now prev evs,
)

-- `Diff` returns, in order, the events that differ from what the differ held for their key when it
-- was called: refreshing keys on the way changes no decision.
pub diff-selects :
    (d : Differ) (now : ℤ) (evs : List DelayEvent)
    → (diff d now evs).0 ≡ keep_if (λ ev. is_changed d (lookup (diff_key ev) d.prev) ev) evs
unfolding diff selects keep_if
diff-selects d now [] = refl
diff-selects d now (ev ∷ evs) = diff_loop-selects d now d.prev (ev ∷ evs)

occurs : Text → List DelayEvent → Bool
occurs k = exists_in (λ ev. diff_key ev == k)

lookup-diff_loop :
    (d : Differ) (now : ℤ) (k : Text) (prev : Map Text DiffState) (evs : List DelayEvent)
    → lookup k (diff_loop d now prev evs).1 ≡ seen_if (occurs k evs) now (lookup k prev)
unfolding diff_loop occurs exists_in
lookup-diff_loop d now k prev [] = ground arith
lookup-diff_loop d now k prev (ev ∷ evs) = ground (
  arith,
  lookup-diff_loop d now k (refresh (diff_key ev) now prev) evs,
  lookup-refresh (diff_key ev) k now prev,
)

-- `Diff` leaves every remembered observation as it was but for the time at which the key was last
-- seen, which is now for the keys of its events, and it adds no key.
pub lookup-diff :
    (d : Differ) (now : ℤ) (evs : List DelayEvent) (k : Text)
    → lookup k (diff d now evs).1.prev
      ≡ Option.map
          (λ st. if exists_in (λ ev. diff_key ev == k) evs then seen_at now st else st)
          (lookup k d.prev)
unfolding diff occurs exists_in
lookup-diff d now [] k = ground arith
lookup-diff d now (ev ∷ evs) k = ground (arith, lookup-diff_loop d now k d.prev (ev ∷ evs))

pub lookup-commit :
    (d : Differ) (now : ℤ) (ev : DelayEvent) (k : Text)
    → lookup k (commit d now ev).prev
      ≡ (if diff_key ev == k then some (state_of now ev) else lookup k d.prev)
unfolding commit
lookup-commit d now ev k = lookup-insert (diff_key ev) k (state_of now ev) d.prev

pub is_changed-state_of :
    (d : Differ) (now : ℤ) (ev : DelayEvent)
    → pos 0 ≤ℤ d.threshold_seconds
    → pos 0 ≤ℤ d.predicted_threshold
    → is_changed d (some (state_of now ev)) ev ≡ false
unfolding is_changed abs32 abs64
is_changed-state_of d now ev h k = ground (
  arith,
  sub32_self ev.delay_seconds,
  sub64_self ev.predicted_arrival,
  nat_eq_iff (type_code ev.event_type) (type_code ev.event_type),
)

-- The values of an event can be compared with the last ones without leaving their types.
pub record IsComparable (ev : DelayEvent) (last : DiffState) : Type 0 where
  pub delay_up : InInt32 (ev.delay_seconds -ℤ last.delay)
  pub delay_down : InInt32 (last.delay -ℤ ev.delay_seconds)
  pub predicted_up : InInt64 (ev.predicted_arrival -ℤ last.predicted)
  pub predicted_down : InInt64 (last.predicted -ℤ ev.predicted_arrival)

-- What the comment of `Diff` calls a meaningful change.
abbrev pub IsMeaningful : Differ → DiffState → DelayEvent → Type 0
IsMeaningful d last ev =
    (ev.event_type ≢ last.ev_type)
    ⊎ (d.threshold_seconds <ℤ dist ev.delay_seconds last.delay)
    ⊎ (d.predicted_threshold <ℤ dist ev.predicted_arrival last.predicted)

type_code-injective : (s t : EventType) → type_code s ≡ type_code t → s ≡ t
type_code-injective s t h = ground arith

-- For values whose differences stay in the range of their types, an event counts as changed
-- exactly if its type is another, its delay is off by more than the threshold, or its predicted
-- time is off by more than its threshold.
pub is_changed_iff :
    (d : Differ) (last : DiffState) (ev : DelayEvent)
    → IsComparable ev last
    → (is_changed d (some last) ev ≡ true) ↔ IsMeaningful d last ev
unfolding is_changed
is_changed_iff d last ev c =
    rw
      (
        abs32-sub32 ev.delay_seconds last.delay c.delay_up c.delay_down,
        abs64-sub64 ev.predicted_arrival last.predicted c.predicted_up c.predicted_down,
      )
      (
        ground (arith, type_code-injective ev.event_type last.ev_type),
        ground (arith, type_code-injective ev.event_type last.ev_type),
      )
