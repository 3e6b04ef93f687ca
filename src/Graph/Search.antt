-- ===== src/Graph/Search.antt =====
-- sort.Search of the standard library, as its source runs it, and what it finds.
use urban_goggles.Base.{
  ℕ, zero, suc, ◌+◌, ◌-◌, ◌/◌, ◌≤◌, ◌<◌, Bool, true, false, Option, none, some, List, [], ◌∷◌, ◌≡◌,
  inl, inr, arith, ltb, if◌then◌else◌, Bool-cases,
}
pub use urban_goggles.Base.{length}

module _ {ℓ} {A : Type ℓ} where
  abbrev pub get_elem? : List A → ℕ → Option A
  get_elem? [] i = none
  get_elem? (x ∷ xs) zero = some x
  get_elem? (x ∷ xs) (suc i) = get_elem? xs i

  abbrev pub drop : ℕ → List A → List A
  drop zero xs = xs
  drop (suc n) [] = []
  drop (suc n) (x ∷ xs) = drop n xs

-- `for i < j { h := (i+j)/2; if !f(h) { i = h + 1 } else { j = h } }`, on fuel.
search_loop : ℕ → (ℕ → Bool) → ℕ → ℕ → ℕ
search_loop zero f i j = i
search_loop (suc fuel) f i j =
    let h = (i + j) / 2 in
    let right = search_loop fuel f (h + 1) j in
    let left = search_loop fuel f i h in if ltb i j then (if f h then left else right) else i

-- Each round shortens the range, so its length is fuel enough.
unfoldable pub search : ℕ → (ℕ → Bool) → ℕ
unfolding search_loop
search n f = search_loop n f 0 n

-- All indices below the result fail the test, all from it on pass.
pub record Splits (f : ℕ → Bool) (n k : ℕ) : Type 0 where
  pub bound : k ≤ n
  pub below : (i : ℕ) → i < k → f i ≡ false
  pub above : (i : ℕ) → k ≤ i → i < n → f i ≡ true

search_loop-Splits :
    (fuel : ℕ) (f : ℕ → Bool) (i j n : ℕ)
    → ((a b : ℕ) → a ≤ b → f a ≡ true → f b ≡ true)
    → j - i ≤ fuel
    → i ≤ j
    → j ≤ n
    → ((a : ℕ) → a < i → f a ≡ false)
    → ((a : ℕ) → j ≤ a → a < n → f a ≡ true)
    → Splits f n (search_loop fuel f i j)
unfolding search_loop
search_loop-Splits zero f i j n mono hf hij hjn lo hi = record {
  bound = omega arith;
  below = lo;
  above = λ a h k. hi a (omega arith) k;
}
search_loop-Splits (suc fuel) f i j n mono hf hij hjn lo hi = elim (Bool-cases (ltb i j)) [
  | inr done ↦
      rw done (record { bound = omega arith; below = lo; above = λ a h k. hi a (ground arith) k })
  | inl more ↦ elim (Bool-cases (f ((i + j) / 2))) [
    | inl pass ↦
        rw (more, pass)
          (search_loop-Splits fuel f i ((i + j) / 2) n mono (ground arith) (ground arith)
            (ground arith) lo (λ a h k. mono ((i + j) / 2) a h pass))
    | inr fail ↦
        rw (more, fail)
          (search_loop-Splits fuel f ((i + j) / 2 + 1) j n mono (ground arith) (ground arith) hjn
            (λ a h. elim (Bool-cases (f a)) [
              | inr e ↦ e
              | inl e ↦ absurd (ground (arith, mono a ((i + j) / 2) (omega arith) e))
            ])
            hi)
  ]
]

-- For a test that stays true once it is true, the result of the search splits the indices below n
-- into those that fail and those that pass.
pub search-Splits :
    (n : ℕ) (f : ℕ → Bool) → ((a b : ℕ) → a ≤ b → f a ≡ true → f b ≡ true) → Splits f n (search n f)
unfolding search
search-Splits n f mono =
    search_loop-Splits n f 0 n n mono (omega arith) (omega arith) (omega arith)
      (λ a h. absurd (omega arith)) (λ a h k. absurd (omega arith))
