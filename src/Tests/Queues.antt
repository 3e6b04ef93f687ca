-- ===== src/Tests/Queues.antt =====
-- A list in place of container/heap: it satisfies what the interface asks of it.
use mathlib.Core.Path.{subst}
use mathlib.Core.Option.{some-injective}
use mathlib.Core.List.Permᴰ
use mathlib.Core.List.{Permᴰ}
use urban_goggles.Base.{
  ◌≤ℤ◌, Bool-cases, Option, none, some, List, [], ◌∷◌, ◌≡◌, refl, inl, inr, arith, All, All-map,
  All-at, length, if◌then◌else◌,
}
use urban_goggles.External.Heap.{Heap, IsHeap}
use urban_goggles.Propagation.Engine.{QueueItem, less}

module _ {F : Type 0} where
  -- Takes a largest item out of a list with a head.
  unfoldable pub pick : QueueItem F → List (QueueItem F) → QueueItem F × List (QueueItem F)
  pick x [] = (x, [])
  pick x (y ∷ ys) =
      let (best, others) = pick y ys in
      if less best x then (best, x ∷ others) else (x, best ∷ others)

  unfoldable pub pop_list : List (QueueItem F) → Option (QueueItem F × List (QueueItem F))
  pop_list [] = none
  pop_list (x ∷ xs) = some (pick x xs)

abbrev pub listed : (F : Type 0) → Heap (QueueItem F)
listed F = record {
  Queue = List (QueueItem F);
  empty = [];
  push = ◌∷◌;
  pop = pop_list;
  size = length;
  items = λ q. q;
}

module _ {F : Type 0} where
  pick-Perm :
      (x : QueueItem F) (xs : List (QueueItem F)) → Permᴰ (x ∷ xs) ((pick x xs).0 ∷ (pick x xs).1)
  unfolding pick
  pick-Perm x [] = Permᴰ.refl (x ∷ [])
  pick-Perm x (y ∷ ys) = elim (Bool-cases (less (pick y ys).0 x)) [
    | inl smaller ↦
        rw (pick, smaller) (Permᴰ.trans (Permᴰ.cons refl (pick-Perm y ys)) (Permᴰ.swap refl refl))
    | inr larger ↦ rw (pick, larger) (Permᴰ.cons refl (pick-Perm y ys))
  ]

  pick-least :
      (x : QueueItem F) (xs : List (QueueItem F))
      → All (λ y. y.delay ≤ℤ (pick x xs).0.delay) (pick x xs).1
  unfolding pick
  pick-least x [] = tt
  pick-least x (y ∷ ys) = elim (Bool-cases (less (pick y ys).0 x)) [
    | inl smaller ↦ rw (pick, smaller) (ground (arith, smaller), pick-least y ys)
    | inr larger ↦
        rw (pick, larger)
          (
            ground (arith, larger),
            All-map _ _ _ (λ z h. ground (arith, h, larger)) (pick-least y ys),
          )
  ]

  pop_list-some :
      (q q' : List (QueueItem F)) (x : QueueItem F)
      → pop_list q ≡ some (x, q')
      → Permᴰ q (x ∷ q') × All (λ y. y.delay ≤ℤ x.delay) q'
  unfolding pop_list
  pop_list-some [] q' x h = absurd (ground (arith, h))
  pop_list-some (y ∷ ys) q' x h =
      subst
        (λ (t : QueueItem F × List (QueueItem F)).
          Permᴰ (y ∷ ys) (t.0 ∷ t.1) × All (λ z. z.delay ≤ℤ t.0.delay) t.1)
        (some-injective (pick y ys) (x, q') h) (pick-Perm y ys, pick-least y ys)

  pop_list-none : (q : List (QueueItem F)) → pop_list q ≡ none → q ≡ []
  unfolding pop_list
  pop_list-none [] h = refl
  pop_list-none (y ∷ ys) h = absurd (ground (arith, h))

pub listed-IsHeap : (F : Type 0) → IsHeap less (listed F)
listed-IsHeap F = record {
  items-empty = refl;
  items-push = λ x q. Permᴰ.refl (x ∷ q);
  items_none = pop_list-none;
  items_some = λ q q' x h. (pop_list-some q q' x h).0;
  pop_least = λ q q' x y h at.
      let small = All-at _ y q' at (pop_list-some q q' x h).1 in ground (arith, small);
  size_items = λ q. refl;
}
