-- ===== src/External/Heap.antt =====
-- container/heap over a type of items and its `Less`, for a queue that only the package changes.
use mathlib.Core.List.{Memᴰ, Permᴰ}
use urban_goggles.Base.{ℕ, Bool, false, Option, none, some, List, [], ◌∷◌, ◌≡◌, length}

pub record Heap (Item : Type 0) : Type 1 where
  pub Queue : Type 0
  pub empty : Queue
  pub push : Item → Queue → Queue
  -- `none` stands for the pop of an empty queue, which the program never asks for.
  pub pop : Queue → Option (Item × Queue)
  pub size : Queue → ℕ
  pub items : Queue → List Item

-- The documented behaviour: a queue is its items up to order, and `Pop` takes out a minimum.
pub record IsHeap {Item : Type 0} (less : Item → Item → Bool) (h : Heap Item) : Type 0 where
  pub items-empty : h.items h.empty ≡ []
  pub items-push : (x : Item) (q : h.Queue) → Permᴰ (h.items (h.push x q)) (x ∷ h.items q)
  pub items_none : (q : h.Queue) → h.pop q ≡ none → h.items q ≡ []
  pub items_some :
      (q q' : h.Queue) (x : Item) → h.pop q ≡ some (x, q') → Permᴰ (h.items q) (x ∷ h.items q')
  pub pop_least :
      (q q' : h.Queue) (x y : Item)
      → h.pop q ≡ some (x, q')
      → Memᴰ y (h.items q')
      → less y x ≡ false
  pub size_items : (q : h.Queue) → h.size q ≡ length (h.items q)
