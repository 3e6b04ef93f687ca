-- ===== src/Propagation/Engine/Walks.antt =====
-- The end of the engine's walk, and what its result holds of each place.
use mathlib.Core.Path.{subst}
use mathlib.Core.Option.{some-injective}
use urban_goggles.Base.{
  ℕ, zero, suc, ◌≤◌, ℤ, pos_part, Text, Text_eq, ◌==◌, Bool, true, false, none, some, List, [], ◌∷◌,
  ◌≡◌, refl, ◌⊎◌, inl, inr, arith, length, All, All-map, Map, lookup, insert, lookup-insert,
  Bool-cases, Option-cases,
}
use urban_goggles.Transit.{TransferImpact, DownstreamImpact}
use urban_goggles.Graph.{read_or}
use urban_goggles.External.Heap.{IsHeap}
use urban_goggles.Propagation.Engine.{PropagationEngine, QueueItem, Walk, less, stop_key}
use urban_goggles.Propagation.Engine.Queue.{pop-size}
use urban_goggles.Propagation.Engine.Loop.{
  expand, visit, item_key, impact_of, next_unvisited, walk_loop,
}
use urban_goggles.Propagation.Engine.Predict.{run_walk, propagate}

-- What stands for a place in the walk's set of visited ones.
abbrev pub impact_key : {F : Type 0} → DownstreamImpact F → Text
impact_key imp = stop_key imp.route_id imp.stop_id

-- No two impacts have the same key.
abbrev pub IsOncePerPlace : {F : Type 0} → List (DownstreamImpact F) → Type 0
IsOncePerPlace [] = Unit
IsOncePerPlace (imp ∷ rest) =
    All (λ other. (impact_key imp == impact_key other) ≡ false) rest × IsOncePerPlace rest

empty_of_length {ℓ} : {A : Type ℓ} (xs : List A) → length xs ≡ 0 → xs ≡ []
empty_of_length [] h = refl
empty_of_length (x ∷ xs) h = absurd (omega (arith, h))

is_visited : Text → Map Text Bool → Bool
is_visited key visited = read_or false (lookup key visited)

is_visited-insert :
    (key other : Text) (visited : Map Text Bool)
    → is_visited other (insert key true visited) ≡ false
    → ((key == other) ≡ false) × (is_visited other visited ≡ false)
unfolding is_visited
is_visited-insert key other visited h = ground (arith, lookup-insert key other true visited, h)

module _ (e : PropagationEngine) (now : ℤ) (live : Map Text ℤ) (tod hour : ℤ) where
  next_unvisited-fresh :
      (fuel : ℕ) (visited : Map Text Bool) (q : e.heap.Queue) (item : QueueItem e.float.F)
      → (next_unvisited e now live tod hour fuel visited q).0 ≡ some item
      → is_visited (item_key e now live tod hour item) visited ≡ false
  unfolding next_unvisited is_visited
  next_unvisited-fresh zero visited q item = λ h. absurd (ground (arith, h))
  next_unvisited-fresh (suc fuel) visited q item = elim (Option-cases (e.heap.pop q)) [
    | inl empty ↦ rw (next_unvisited, empty) (λ h. absurd (ground (arith, h)))
    | inr ((first, q'), popped) ↦
        elim (Bool-cases (is_visited (item_key e now live tod hour first) visited)) [
          | inl seen ↦ rw (next_unvisited, popped, seen) (next_unvisited-fresh fuel visited q' item)
          | inr fresh ↦
              rw (next_unvisited, popped, fresh)
                (λ h.
                  subst (λ i. is_visited (item_key e now live tod hour i) visited ≡ false)
                    (some-injective first item h) fresh)
        ]
  ]

  visit-visited :
      (item : QueueItem e.float.F) (q : e.heap.Queue) (w : Walk e)
      → (visit e now live tod hour item q w).visited
        ≡ insert (item_key e now live tod hour item) true w.visited
  unfolding visit expand
  visit-visited item q w = ground arith

  module _ {less_than : QueueItem e.float.F → QueueItem e.float.F → Bool}
      (laws : IsHeap less_than e.heap) where
    next_unvisited-drains :
        (fuel : ℕ) (visited : Map Text Bool) (q : e.heap.Queue)
        → e.heap.size q ≤ fuel
        → (next_unvisited e now live tod hour fuel visited q).0 ≡ none
        → e.heap.items (next_unvisited e now live tod hour fuel visited q).1 ≡ []
    unfolding next_unvisited
    next_unvisited-drains zero visited q enough =
        λ h. empty_of_length _ (omega (arith, laws.size_items q))
    next_unvisited-drains (suc fuel) visited q enough = elim (Option-cases (e.heap.pop q)) [
      | inl empty ↦ rw (next_unvisited, empty) (λ h. laws.items_none q empty)
      | inr ((first, q'), popped) ↦
          elim (Bool-cases (read_or false (lookup (item_key e now live tod hour first) visited))) [
            | inl seen ↦
                rw (next_unvisited, popped, seen)
                  (next_unvisited-drains fuel visited q'
                    (omega (arith, pop-size laws q q' first popped)))
            | inr fresh ↦ rw (next_unvisited, popped, fresh) (λ h. absurd (ground (arith, h)))
          ]
    ]

    abbrev Ends : ℕ → List (DownstreamImpact e.float.F) × Walk e → Type 0
    Ends left result =
        (length result.0 ≡ left) ⊎ ((length result.0 ≤ left) × (e.heap.items result.1.pq ≡ []))

    more_Ends :
        (left : ℕ) (imp : DownstreamImpact e.float.F)
        (result : List (DownstreamImpact e.float.F) × Walk e)
        → Ends left result
        → Ends (suc left) (imp ∷ result.0, result.1)
    more_Ends left imp result (inl full) = inl (omega arith)
    more_Ends left imp result (inr (short, empty)) = inr (omega arith, empty)

    walk_loop-Ends : (left : ℕ) (w : Walk e) → Ends left (walk_loop e now live tod hour left w)
    unfolding walk_loop
    walk_loop-Ends zero w = inl refl
    walk_loop-Ends (suc left) w =
        let next = next_unvisited e now live tod hour (e.heap.size w.pq) w.visited w.pq in
        elim (Option-cases next.0) [
          | inl nothing ↦
              rw (walk_loop, nothing)
                (inr (
                  omega arith,
                  next_unvisited-drains (e.heap.size w.pq) w.visited w.pq (omega arith) nothing,
                ))
          | inr (item, got) ↦
              rw (walk_loop, got)
                (more_Ends left (impact_of e now live tod hour item)
                  (walk_loop e now live tod hour left (visit e now live tod hour item next.1 w))
                  (walk_loop-Ends left (visit e now live tod hour item next.1 w)))
        ]

  -- The impacts of a walk are at places that it had not visited, each at another.
  abbrev Fresh : Map Text Bool → List (DownstreamImpact e.float.F) → Type 0
  Fresh visited impacts =
      All (λ imp. is_visited (impact_key imp) visited ≡ false) impacts × IsOncePerPlace impacts

  more_Fresh :
      (visited : Map Text Bool) (imp : DownstreamImpact e.float.F)
      (impacts : List (DownstreamImpact e.float.F))
      → is_visited (impact_key imp) visited ≡ false
      → Fresh (insert (impact_key imp) true visited) impacts
      → Fresh visited (imp ∷ impacts)
  more_Fresh visited imp impacts new (fresh, once) = (
    (
      new,
      All-map _ _ impacts
          (λ other h. (is_visited-insert (impact_key imp) (impact_key other) visited h).1) fresh,
    ),
    (
      All-map _ _ impacts
          (λ other h. (is_visited-insert (impact_key imp) (impact_key other) visited h).0) fresh,
      once,
    ),
  )

  walk_loop-Fresh :
      (left : ℕ) (w : Walk e) → Fresh w.visited (walk_loop e now live tod hour left w).0
  unfolding walk_loop impact_of item_key
  walk_loop-Fresh zero w = (tt, tt)
  walk_loop-Fresh (suc left) w =
      let next = next_unvisited e now live tod hour (e.heap.size w.pq) w.visited w.pq in
      elim (Option-cases next.0) [
        | inl nothing ↦ rw (walk_loop, nothing) (tt, tt)
        | inr (item, got) ↦
            let w' = visit e now live tod hour item next.1 w in
            rw (walk_loop, got)
              (more_Fresh w.visited (impact_of e now live tod hour item)
                (walk_loop e now live tod hour left w').0
                (next_unvisited-fresh _ w.visited w.pq item got)
                (subst (λ v. Fresh v (walk_loop e now live tod hour left w').0)
                  (visit-visited item next.1 w) (walk_loop-Fresh left w')))
      ]

module _ (e : PropagationEngine) (now : ℤ) (impact : TransferImpact) (db : e.redis.Db) where
  -- A walk comes to its end: it has reported as many impacts as it may, or fewer and its queue is
  -- empty.
  pub run_walk-ends :
      (laws : IsHeap less e.heap)
      → (length (run_walk e now impact db).0 ≡ pos_part e.cfg.max_impacts)
        ⊎ ((length (run_walk e now impact db).0 ≤ pos_part e.cfg.max_impacts)
            × (e.heap.items (run_walk e now impact db).1.pq ≡ []))
  unfolding run_walk
  run_walk-ends laws = walk_loop-Ends e now _ _ _ laws _ _

  -- A result has at most one impact per route and station.
  pub propagate-IsOncePerPlace : IsOncePerPlace (propagate e now impact db).0.impacts
  unfolding propagate run_walk
  propagate-IsOncePerPlace = (walk_loop-Fresh e now _ _ _ _ _).1
