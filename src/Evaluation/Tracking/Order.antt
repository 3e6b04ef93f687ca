-- ===== src/Evaluation/Tracking/Order.antt =====
-- The primary impact of a prediction, and the order in which its impacts are tracked.
use mathlib.Core.Path.{subst}
use mathlib.Core.Option.{some-injective}
use mathlib.Core.List.Permᴰ
use mathlib.Core.List.{Permᴰ}
use urban_goggles.Base.{
  ℕ, zero, suc, ◌+◌, ◌≤◌, ◌<◌, nat_eq, ltb_ℤ, ℤ, ◌≤ℤ◌, true, ◌&&◌, Bool-cases, Option, none, some,
  List, [], ◌∷◌, ◌≡◌, ap, refl, arith, inl, inr, All, length, ◌⊎◌,
}
use urban_goggles.Graph.Search.{get_elem?}
use urban_goggles.Transit.{TransferImpact, DownstreamImpact}
use urban_goggles.Evaluation.Tracking.{
  is_candidate, next_best, find_primary, is_other, other_indices, track_order,
}

-- The indices from `i` on, `n` of them.
abbrev pub indices : ℕ → ℕ → List ℕ
indices i zero = []
indices i (suc n) = i ∷ indices (suc i) n

other_indices-none : (i n : ℕ) → other_indices none i n ≡ indices i n
unfolding other_indices is_other
other_indices-none i zero = refl
other_indices-none i (suc n) = ground (arith, other_indices-none (suc i) n)

other_indices-past :
    (primary i n : ℕ) → primary < i → other_indices (some primary) i n ≡ indices i n
unfolding other_indices is_other
other_indices-past primary i zero h = refl
other_indices-past primary i (suc n) h = ground (arith, other_indices-past primary (suc i) n, h)

other_indices-Perm :
    (primary i n : ℕ)
    → i ≤ primary
    → primary < i + n
    → Permᴰ (primary ∷ other_indices (some primary) i n) (indices i n)
unfolding other_indices is_other
other_indices-Perm primary i zero low high = absurd (omega arith)
other_indices-Perm primary i (suc n) low high = elim (Bool-cases (nat_eq i primary)) [
  | inl here ↦
      rw
        (other_indices, is_other, here, other_indices-past primary (suc i) n (ground (arith, here)))
        (Permᴰ.cons (ground (arith, here)) (Permᴰ.refl (indices (suc i) n)))
  | inr other ↦
      rw (other_indices, is_other, other)
        (Permᴰ.trans (Permᴰ.swap refl refl) (
          Permᴰ.cons refl
            (other_indices-Perm primary (suc i) n (ground (arith, other)) (omega arith))))
]

-- The order of tracking has every index of the impacts once, the primary's first.
track_order-Perm :
    (primary n : ℕ)
    → primary < n
    → Permᴰ (track_order (some primary) n) (indices 0 n)
      × (get_elem? (track_order (some primary) n) 0 ≡ some primary)
unfolding track_order
track_order-Perm primary n h = (other_indices-Perm primary 0 n (omega arith) (omega arith), refl)

IsAtMost : ℤ → Option (ℕ × ℤ) → Type 0
IsAtMost delay none = Unit
IsAtMost delay (some (_, other)) = delay ≤ℤ other

module _ {F : Type 0} (src : TransferImpact) where
  -- No candidate has a smaller delay.
  abbrev pub IsLeast : ℤ → List (DownstreamImpact F) → Type 0
  IsLeast delay = All λ imp. is_candidate src imp ≡ true → delay ≤ℤ imp.predicted_additional_delay

  -- A candidate at an index has the delay.
  abbrev pub IsCandidateAt : List (DownstreamImpact F) → ℕ → ℤ → Type 0
  IsCandidateAt impacts k delay =
      (imp : DownstreamImpact F) × (get_elem? impacts k ≡ some imp)
      × (is_candidate src imp ≡ true)
      × (imp.predicted_additional_delay ≡ delay)

  IsLeast-next_best :
      (imp : DownstreamImpact F) (i : ℕ) (best : Option (ℕ × ℤ)) (delay : ℤ)
      → IsAtMost delay (next_best src imp i best)
      → IsAtMost delay best
        × (is_candidate src imp ≡ true → delay ≤ℤ imp.predicted_additional_delay)
  unfolding next_best IsAtMost
  IsLeast-next_best imp i none delay = elim (Bool-cases (is_candidate src imp)) [
    | inl is ↦ rw (next_best, is) (λ h. (tt, λ c. h))
    | inr other ↦ rw (next_best, other) (λ h. (tt, λ c. absurd (ground (arith, c))))
  ]
  IsLeast-next_best imp i (some (primary, old)) delay = elim (Bool-cases (is_candidate src imp)) [
    | inl is ↦ elim (Bool-cases (ltb_ℤ imp.predicted_additional_delay old)) [
      | inl less ↦ rw (next_best, is, less) (λ h. (ground (arith, h, less), λ c. h))
      | inr more ↦ rw (next_best, is, more) (λ h. (h, λ c. ground (arith, h, more)))
    ]
    | inr other ↦ rw (next_best, other) (λ h. (h, λ c. absurd (ground (arith, c))))
  ]

  IsLeast-find_primary :
      (impacts : List (DownstreamImpact F)) (i : ℕ) (best : Option (ℕ × ℤ)) (index : ℕ) (delay : ℤ)
      → find_primary src impacts i best ≡ some (index, delay)
      → IsAtMost delay best × IsLeast delay impacts
  unfolding find_primary IsAtMost
  IsLeast-find_primary [] i best index delay found = rw found (omega arith, tt)
  IsLeast-find_primary (imp ∷ rest) i best index delay found =
      let later = IsLeast-find_primary rest (suc i) (next_best src imp i best) index delay found in
      let here = IsLeast-next_best imp i best delay later.0 in (here.0, (here.1, later.1))

  next_best-new :
      (imp : DownstreamImpact F) (i : ℕ) (best : Option (ℕ × ℤ)) (pick : ℕ × ℤ)
      → next_best src imp i best ≡ some pick
      → (best ≡ some pick)
        ⊎ ((is_candidate src imp ≡ true) × ((i, imp.predicted_additional_delay) ≡ pick))
  unfolding next_best
  next_best-new imp i none pick = elim (Bool-cases (is_candidate src imp)) [
    | inl is ↦ rw (next_best, is) (λ h. inr (refl, some-injective _ _ h))
    | inr other ↦ rw (next_best, other) (λ h. absurd (ground (arith, h)))
  ]
  next_best-new imp i (some old) pick =
      elim (Bool-cases (is_candidate src imp && ltb_ℤ imp.predicted_additional_delay old.1)) [
        | inl is ↦ rw (next_best, is) (λ h. inr (ground (arith, is), some-injective _ _ h))
        | inr other ↦ rw (next_best, other) (λ h. inl h)
      ]

  find_primary-new :
      (impacts : List (DownstreamImpact F)) (i : ℕ) (best : Option (ℕ × ℤ)) (index : ℕ) (delay : ℤ)
      → find_primary src impacts i best ≡ some (index, delay)
      → (best ≡ some (index, delay)) ⊎ ((k : ℕ) × (index ≡ i + k) × IsCandidateAt impacts k delay)
  unfolding find_primary
  find_primary-new [] i best index delay found = inl found
  find_primary-new (imp ∷ rest) i best index delay found =
      elim (find_primary-new rest (suc i) (next_best src imp i best) index delay found) [
        | inr (k, at_k, (other, there, is, same)) ↦
            inr (suc k, omega (arith, at_k), (other, there, is, same))
        | inl now ↦ elim (next_best-new imp i best (index, delay) now) [
          | inl old ↦ inl old
          | inr (is, same) ↦
              inr (0, omega (arith, ap (λ x. x.0) same), (imp, refl, is, ap (λ x. x.1) same))
        ]
      ]

  -- The primary impact is one hop away on the receiving route, with the reported delay, and no
  -- other such impact has a smaller one.
  find_primary-IsLeast :
      (impacts : List (DownstreamImpact F)) (index : ℕ) (delay : ℤ)
      → find_primary src impacts 0 none ≡ some (index, delay)
      → IsCandidateAt impacts index delay × IsLeast delay impacts
  find_primary-IsLeast impacts index delay found = (
    elim (find_primary-new impacts 0 none index delay found) [
      | inl no_best ↦ absurd (ground (arith, no_best))
      | inr (k, at_k, there) ↦
          subst (λ i. IsCandidateAt impacts i delay) (omega (arith, at_k)) there
    ],
    (IsLeast-find_primary impacts 0 none index delay found).1,
  )

  get_elem?-lt :
      (impacts : List (DownstreamImpact F)) (k : ℕ) (imp : DownstreamImpact F)
      → get_elem? impacts k ≡ some imp
      → k < length impacts
  get_elem?-lt [] k imp h = absurd (ground (arith, h))
  get_elem?-lt (x ∷ xs) zero imp h = omega arith
  get_elem?-lt (x ∷ xs) (suc k) imp h = omega (arith, get_elem?-lt xs k imp h)

  -- If there is a primary impact, it is one hop away on the receiving route, with the reported delay,
  -- no other such impact has a smaller one, and the order of tracking has every index of the impacts
  -- once, the primary's first.
  pub find_primary-track_order :
      (impacts : List (DownstreamImpact F)) (index : ℕ) (delay : ℤ)
      → find_primary src impacts 0 none ≡ some (index, delay)
      → IsCandidateAt impacts index delay
        × IsLeast delay impacts
        × Permᴰ (track_order (some index) (length impacts)) (indices 0 (length impacts))
        × (get_elem? (track_order (some index) (length impacts)) 0 ≡ some index)
  find_primary-track_order impacts index delay found =
      let ((imp, there, is, same), least) = find_primary-IsLeast impacts index delay found in
      let (all, first) =
        track_order-Perm index (length impacts) (get_elem?-lt impacts index imp there) in
      ((imp, there, is, same), least, all, first)
