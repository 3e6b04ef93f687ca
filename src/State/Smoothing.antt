-- ===== src/State/Smoothing.antt =====
-- The smoothing of `ProcessEvent` in internal/state/manager.go: a state never goes back in time, its
-- delay stays between what was stored and what came in, and its confidence stays bounded.
use urban_goggles.Base.{
  ℕ, ◌^◌, ◌≤◌, ℤ, pos, ltb_ℤ→le, ltb_ℤ, ◌≤ℤ◌, ◌+ℤ◌, ◌*ℤ◌, ◌*◌, +ℤ_parts, *ℤ_parts, InInt32, sub32,
  abs32, ◌≡◌, refl, false, ◌&&◌, some, inl, inr, arith, Bool-cases,
}
use urban_goggles.External.Float.{Float64, IsFloat64}
use urban_goggles.Graph.{TransitGraph}
use urban_goggles.Transit.{DelayEvent}
use urban_goggles.State.{
  DelayState, smooth, final_delay, next_confidence, reconcile, confidence_max, smoothing_threshold,
  smoothing_max_updates,
}
use urban_goggles.State.Store.{observed}

-- Both lie between the two bounds.
abbrev pub Bounds : ℤ → ℤ → ℤ → Type 0
Bounds low high x = (low ≤ℤ x) × (x ≤ℤ high)

module _ (f : Float64) (laws : IsFloat64 f) where
  smooth-Bounds :
      (a b low high : ℤ)
      → InInt32 a
      → InInt32 b
      → Bounds low high a
      → Bounds low high b
      → Bounds low high (smooth f a b)
  unfolding smooth
  smooth-Bounds a b low high ia ib (la, ah) (lb, bh) =
      let x =
        f.round_int32 (f.add (f.mul (f.lit 7 1) (f.of_int a)) (f.mul (f.lit 3 1) (f.of_int b))) in
      let under = laws.weighted_low 7 3 a b refl ia ib in
      let over = laws.weighted_high 7 3 a b refl ia ib in
      let sevens = *ℤ_parts 7 a in
      let threes = *ℤ_parts 3 b in
      let tens = *ℤ_parts 10 x in
      let sum = +ℤ_parts (pos 7 *ℤ a) (pos 3 *ℤ b) in
      let sum_low = +ℤ_parts (pos 10 *ℤ x) (pos 6) in
      let sum_high = +ℤ_parts (pos 7 *ℤ a +ℤ pos 3 *ℤ b) (pos 6) in (omega arith, omega arith)

  final_delay-Bounds :
      (existing : DelayState f.F) (incoming low high : ℤ)
      → InInt32 incoming
      → InInt32 existing.delay_seconds
      → Bounds low high incoming
      → Bounds low high existing.delay_seconds
      → Bounds low high (final_delay f existing incoming)
  unfolding final_delay
  final_delay-Bounds existing incoming low high ia ib ha hb =
      elim (Bool-cases (
        ltb_ℤ smoothing_threshold (abs32 (sub32 incoming existing.delay_seconds))
        && ltb_ℤ existing.update_count smoothing_max_updates)) [
          | inl smoothed ↦
              rw smoothed (smooth-Bounds incoming existing.delay_seconds low high ia ib ha hb)
          | inr plain ↦ rw plain ha
        ]

  lit-Bounded : (m i n j : ℕ) → n * 10 ^ i ≤ m * 10 ^ j → f.ltf (f.lit m i) (f.lit n j) ≡ false
  lit-Bounded m i n j h = elim (Bool-cases (f.ltf (f.lit m i) (f.lit n j))) [
    | inl less ↦ absurd (omega (arith, laws.ltf-lit m i n j less))
    | inr e ↦ e
  ]

  next_confidence-Bounded :
      (existing : DelayState f.F) (incoming : ℤ)
      → f.ltf (confidence_max f) (next_confidence f existing incoming) ≡ false
  unfolding next_confidence
  next_confidence-Bounded existing incoming =
      ground (arith, lit-Bounded 1 0 1 0, lit-Bounded 1 0 5 1)

  -- For an event and a stored state with delays in the range of int32, the state after the event
  -- is no older than the stored one, its delay lies within any bounds that both the stored and the
  -- incoming delay lie within, and its confidence does not exceed the maximum if the stored one
  -- did not.
  pub observed-IsSound :
      (g : TransitGraph) (existing : DelayState f.F) (ev : DelayEvent) (low high : ℤ)
      → InInt32 ev.delay_seconds
      → InInt32 existing.delay_seconds
      → Bounds low high ev.delay_seconds
      → Bounds low high existing.delay_seconds
      → f.ltf (confidence_max f) existing.confidence ≡ false
      → let next = observed f g ev (some existing) in
        (existing.observed_at ≤ℤ next.observed_at)
        × Bounds low high next.delay_seconds
        × (f.ltf (confidence_max f) next.confidence ≡ false)
  unfolding observed reconcile
  observed-IsSound g existing ev low high ia ib ha hb bounded =
      elim (Bool-cases (ltb_ℤ ev.observed_at existing.observed_at)) [
        | inl stale ↦ rw stale (omega arith, hb, bounded)
        | inr newer ↦ rw newer (
          ltb_ℤ→le ev.observed_at existing.observed_at newer,
          final_delay-Bounds existing ev.delay_seconds low high ia ib ha hb,
          next_confidence-Bounded existing ev.delay_seconds,
        )
      ]
