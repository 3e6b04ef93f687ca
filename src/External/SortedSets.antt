-- ===== src/External/SortedSets.antt =====
-- Redis's sorted sets and pipelines, beside the operations of External.Redis on the same server. A
-- score is an integer: the program only uses whole seconds, which a float64 holds exactly below
-- 2 ^ 53.
use mathlib.Core.List.{Memᴰ}
use urban_goggles.Base.{
  ℕ, ℤ, ◌≤ℤ◌, leb_ℤ, Text, Text_eq, ◌==◌, ◌&&◌, Bool, true, false, Option, none, some, List, [],
  ◌∷◌, ◌≡◌, ◌⊎◌, ◌↔◌, All, if◌then◌else◌,
}
use urban_goggles.External.Redis.{Redis, Reply, ok}

-- A command of a pipeline.
pub data Command (V : Type 0) : Type 0 where
  -- The last argument of `set` and `expire` is the time to live, in nanoseconds.
  set : Text → V → ℤ → Command V
  expire : Text → ℤ → Command V
  del : Text → Command V
  zadd : Text → ℤ → Text → Command V
  zrem : Text → Text → Command V
  -- ZREMRANGEBYSCORE from -inf to a score.
  zrem_to : Text → ℤ → Command V

pub record SortedSets (r : Redis) : Type 0 where
  -- The members with scores between two bounds, `none` being -inf and +inf, and at most so many.
  pub zrange_by_score :
      r.Db → Text → Option ℤ → Option ℤ → Option ℕ → Reply r.Error (List Text) × r.Db
  -- ZREM of one member: whether it was there.
  pub zremove : r.Db → Text → Text → Reply r.Error Bool × r.Db
  -- SET with XX and KEEPTTL: whether the key was there; without it, redis.Nil.
  pub set_existing : r.Db → Text → r.Value → Reply r.Error Bool × r.Db
  -- The commands of a pipeline, sent together, and the first error.
  pub exec : r.Db → List (Command r.Value) → Option r.Error × r.Db
  -- The score of a member of a key.
  pub scored : r.Db → Text → Text → Option ℤ

-- What one command makes of the values and of the scores.
abbrev pub held_after : {V : Type 0} → Command V → (Text → Option V) → Text → Option V
held_after (set k v _) held j = if k == j then some v else held j
held_after (del k) held j = if k == j then none else held j
held_after _ held j = held j

abbrev pub above : ℤ → Option ℤ → Option ℤ
above cutoff none = none
above cutoff (some s) = if leb_ℤ s cutoff then none else some s

abbrev pub scored_after :
    {V : Type 0} → Command V → (Text → Text → Option ℤ) → Text → Text → Option ℤ
scored_after (set k _ _) scored j m = if k == j then none else scored j m
scored_after (expire _ _) scored j m = scored j m
scored_after (del k) scored j m = if k == j then none else scored j m
scored_after (zadd k s n) scored j m = if k == j && n == m then some s else scored j m
scored_after (zrem k n) scored j m = if k == j && n == m then none else scored j m
scored_after (zrem_to k cutoff) scored j m =
    if k == j then above cutoff (scored j m) else scored j m

abbrev pub all_held : {V : Type 0} → List (Command V) → (Text → Option V) → Text → Option V
all_held [] held = held
all_held (c ∷ cs) held = all_held cs (held_after c held)

abbrev pub all_scored :
    {V : Type 0} → List (Command V) → (Text → Text → Option ℤ) → Text → Text → Option ℤ
all_scored [] scored = scored
all_scored (c ∷ cs) scored = all_scored cs (scored_after c scored)

-- The key that a command names.
abbrev pub command_key : {V : Type 0} → Command V → Text
command_key (set k _ _) = k
command_key (expire k _) = k
command_key (del k) = k
command_key (zadd k _ _) = k
command_key (zrem k _) = k
command_key (zrem_to k _) = k

-- No member stands twice.
abbrev pub IsDistinctList : List Text → Type 0
IsDistinctList [] = Unit
IsDistinctList (m ∷ ms) = All (λ n. (m == n) ≡ false) ms × IsDistinctList ms

-- The score lies between two bounds.
abbrev pub IsBetween : Option ℤ → Option ℤ → ℤ → Type 0
IsBetween none none s = Unit
IsBetween (some low) none s = low ≤ℤ s
IsBetween none (some high) s = s ≤ℤ high
IsBetween (some low) (some high) s = (low ≤ℤ s) × (s ≤ℤ high)

-- The documented behaviour, where no other client writes between two calls.
pub record IsSortedSets {r : Redis} (z : SortedSets r) : Type 0 where
  pub range_reads :
      (db : r.Db) (k j : Text) (low high : Option ℤ) (limit : Option ℕ)
      → r.held (z.zrange_by_score db k low high limit).1 j ≡ r.held db j
  pub range_scores :
      (db : r.Db) (k j m : Text) (low high : Option ℤ) (limit : Option ℕ)
      → z.scored (z.zrange_by_score db k low high limit).1 j m ≡ z.scored db j m
  pub range_sound :
      (db : r.Db) (k m : Text) (low high : Option ℤ) (limit : Option ℕ) (ms : List Text)
      → (z.zrange_by_score db k low high limit).0 ≡ ok ms
      → Memᴰ m ms
      → (s : ℤ) × (z.scored db k m ≡ some s) × IsBetween low high s
  pub range_complete :
      (db : r.Db) (k m : Text) (low high : Option ℤ) (ms : List Text) (s : ℤ)
      → (z.zrange_by_score db k low high none).0 ≡ ok ms
      → z.scored db k m ≡ some s
      → IsBetween low high s
      → Memᴰ m ms
  pub range_distinct :
      (db : r.Db) (k : Text) (low high : Option ℤ) (limit : Option ℕ) (ms : List Text)
      → (z.zrange_by_score db k low high limit).0 ≡ ok ms
      → IsDistinctList ms
  -- The reply to ZREM tells whether the member was there, and then it is gone.
  pub remove_reply :
      (db : r.Db) (k m : Text) (b : Bool)
      → (z.zremove db k m).0 ≡ ok b
      → (b ≡ true) ↔ ((s : ℤ) × (z.scored db k m ≡ some s))
  pub remove_scores :
      (db : r.Db) (k m j n : Text) (b : Bool)
      → (z.zremove db k m).0 ≡ ok b
      → z.scored (z.zremove db k m).1 j n ≡ (if k == j && m == n then none else z.scored db j n)
  -- Whatever the reply, ZREM takes nothing else out and adds nothing.
  pub remove_shrinks :
      (db : r.Db) (k m j n : Text)
      → (z.scored (z.zremove db k m).1 j n ≡ z.scored db j n)
        ⊎ (z.scored (z.zremove db k m).1 j n ≡ none)
  pub remove_holds : (db : r.Db) (k m j : Text) → r.held (z.zremove db k m).1 j ≡ r.held db j
  pub set_existing_holds :
      (db : r.Db) (k j : Text) (v : r.Value) (b : Bool)
      → (z.set_existing db k v).0 ≡ ok b
      → r.held (z.set_existing db k v).1 j
        ≡ elim (r.held db j) [ none ↦ none | some old ↦ if k == j then some v else some old ]
  pub exec_holds :
      (db : r.Db) (cs : List (Command r.Value)) (j : Text)
      → (z.exec db cs).0 ≡ none
      → r.held (z.exec db cs).1 j ≡ all_held cs (r.held db) j
  pub exec_scores :
      (db : r.Db) (cs : List (Command r.Value)) (j m : Text)
      → (z.exec db cs).0 ≡ none
      → z.scored (z.exec db cs).1 j m ≡ all_scored cs (z.scored db) j m
  -- Whatever the error, a key that no command names is as before.
  pub exec_keeps :
      (db : r.Db) (cs : List (Command r.Value)) (j m : Text)
      → All (λ c. (command_key c == j) ≡ false) cs
      → (r.held (z.exec db cs).1 j ≡ r.held db j)
        × (z.scored (z.exec db cs).1 j m ≡ z.scored db j m)
  pub get_scores : (db : r.Db) (k j m : Text) → z.scored (r.get db k).1 j m ≡ z.scored db j m
