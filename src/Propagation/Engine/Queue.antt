-- ===== src/Propagation/Engine/Queue.antt =====
-- A property of all items of the engine's queue, through pushes, pops and the seeding of stops.
use mathlib.Core.List.Permᴰ
use mathlib.Core.List.{Permᴰ}
use mathlib.Core.Path.{subst}
use urban_goggles.Base.{suc, Bool, some, List, ◌≡◌, refl, sym, ◌∙◌, arith, length, All}
use urban_goggles.External.Heap.{Heap, IsHeap}

pub Perm-All {ℓ κ} :
    {A : Type ℓ} (P : A → Type κ) {xs ys : List A} → Permᴰ xs ys → All P xs → All P ys
Perm-All P Permᴰ.nil h = tt
Perm-All P (Permᴰ.cons same rest) h = (subst P same h.0, Perm-All P rest h.1)
Perm-All P (Permᴰ.swap same other) h = (subst P other h.1.0, (subst P same h.0, h.1.1))
Perm-All P (Permᴰ.trans first next) h = Perm-All P next (Perm-All P first h)

pub Perm-length {ℓ} : {A : Type ℓ} {xs ys : List A} → Permᴰ xs ys → length xs ≡ length ys
Perm-length Permᴰ.nil = refl
Perm-length (Permᴰ.cons same rest) = omega (arith, Perm-length rest)
Perm-length (Permᴰ.swap same other) = refl
Perm-length (Permᴰ.trans first next) = Perm-length first ∙ Perm-length next

module _ {κ} {Item : Type 0} {less : Item → Item → Bool} {h : Heap Item} (laws : IsHeap less h)
    (P : Item → Type κ) where
  pub push-All : (x : Item) (q : h.Queue) → P x → All P (h.items q) → All P (h.items (h.push x q))
  push-All x q p all = Perm-All P (Permᴰ.symm (laws.items-push x q)) (p, all)

  pub pop-All :
      (q q' : h.Queue) (x : Item)
      → h.pop q ≡ some (x, q')
      → All P (h.items q)
      → P x × All P (h.items q')
  pop-All q q' x popped all = Perm-All P (laws.items_some q q' x popped) all

  pub empty-All : All P (h.items h.empty)
  empty-All = subst (All P) (sym laws.items-empty) tt

-- A pop takes one item out.
pub pop-size :
    {Item : Type 0} {less : Item → Item → Bool} {h : Heap Item} (laws : IsHeap less h)
    (q q' : h.Queue) (x : Item)
    → h.pop q ≡ some (x, q')
    → h.size q ≡ suc (h.size q')
pop-size laws q q' x popped =
    omega
      (arith, laws.size_items q, laws.size_items q', Perm-length (laws.items_some q q' x popped))
