-- ===== src/Processor/Retry/Attempts.antt =====
-- When `withRetry` returns nil, and when it gives up.
use urban_goggles.Base.{
  ℕ, zero, suc, ◌+◌, ◌<◌, ℤ, pos, mul64, Bool, true, false, ◌||◌, nat_eq, Option, none, some, ◌≡◌,
  ◌≢◌, ◌⊎◌, refl, arith, inl, inr, length, Bool-cases, Option-cases,
}
use urban_goggles.Processor.Retry.{retry_loop, with_retry}

module _ {ℓ} {E : Type ℓ} (call : ℕ → Option E) (stop : ℕ → Bool) where
  -- Attempts i, i + 1, … fail and are followed by a wait that runs out, k times.
  abbrev pub KeepsFailing : ℕ → ℕ → Type ℓ
  KeepsFailing i zero = Unit
  KeepsFailing i (suc k) = (call i ≢ none) × (stop i ≡ false) × KeepsFailing (i + 1) k

  retry_loop-recovers :
      (k left i : ℕ) (delay : ℤ) (err : Option E)
      → k < left
      → KeepsFailing i k
      → call (i + k) ≡ none
      → ((retry_loop call stop left i delay err).0 ≡ none)
        × (length (retry_loop call stop left i delay err).1 ≡ k)
  unfolding retry_loop
  retry_loop-recovers k zero i delay err h f s = absurd (omega arith)
  retry_loop-recovers zero (suc left) i delay err h f s =
      let now : i + 0 ≡ i = omega arith in
      let s' : call i ≡ none = rw now at s in rw (s', retry_loop) (refl, refl)
  retry_loop-recovers (suc k) (suc left) i delay err h f s = elim (Option-cases (call i)) [
    | inl e ↦ absurd (f.0 e)
    | inr (e, p) ↦
        let shift : i + suc k ≡ i + 1 + k = omega arith in
        let s' : call (i + 1 + k) ≡ none = rw shift at s in
        let later =
          retry_loop-recovers k left (i + 1) (mul64 delay (pos 2)) (some e) (omega arith) f.2 s' in
        rw (p, retry_loop) (ground (arith, later, f.1))
  ]

  -- If the first k attempts fail, with the context not done in the wait after each, and attempt k
  -- succeeds, `withRetry` with more than k attempts returns nil after k waits.
  pub with_retry-recovers :
      (attempts k : ℕ) (base : ℤ)
      → k < attempts
      → KeepsFailing 0 k
      → call k ≡ none
      → ((with_retry call stop attempts base).0 ≡ none)
        × (length (with_retry call stop attempts base).1 ≡ k)
  unfolding with_retry
  with_retry-recovers attempts k base h f s =
      let start : 0 + k ≡ k = omega arith in
      let s' : call (0 + k) ≡ none = rw start s in retry_loop-recovers k attempts 0 base none h f s'

  -- The error `e` is that of an attempt, after which no attempt was left or the context was done.
  pub record GivesUp (attempts i : ℕ) (waited : ℕ) (e : E) : Type ℓ where
    pub failures : KeepsFailing i waited
    pub last : call (i + waited) ≡ some e
    pub in_time : waited < attempts
    pub reason : (waited + 1 ≡ attempts) ⊎ (stop (i + waited) ≡ true)

  retry_loop-GivesUp :
      (left i : ℕ) (delay : ℤ) (err : Option E) (e : E)
      → 0 < left
      → (retry_loop call stop left i delay err).0 ≡ some e
      → GivesUp left i (length (retry_loop call stop left i delay err).1) e
  unfolding retry_loop
  retry_loop-GivesUp zero i delay err e h r = absurd (omega arith)
  retry_loop-GivesUp (suc left) i delay err e h r = elim (Option-cases (call i)) [
    | inl p ↦ absurd (ground (arith, p))
    | inr (e', p) ↦ elim (Bool-cases (nat_eq left 0 || stop i)) [
      | inl ends ↦
          let now : i + 0 ≡ i = omega arith in
          rw (p, retry_loop, ends)
            (record {
              failures = tt;
              last = rw now (ground (arith, p));
              in_time = omega arith;
              reason = rw now (ground arith);
            })
      | inr goes_on ↦
          let next = retry_loop call stop left (i + 1) (mul64 delay (pos 2)) (some e') in
          let r' : next.0 ≡ some e = ground (arith, p) in
          let later =
            retry_loop-GivesUp left (i + 1) (mul64 delay (pos 2)) (some e') e (ground arith) r' in
          let shift : i + suc (length next.1) ≡ i + 1 + length next.1 = omega arith in
          rw (p, retry_loop, goes_on)
            (record {
              failures = (ground (arith, p), ground arith, later.failures);
              last = rw shift later.last;
              in_time = let t = later.in_time in omega arith;
              reason = rw shift (ground (arith, later.reason));
            })
    ]
  ]

  -- If `withRetry` with at least one attempt returns an error, it is the error of its last
  -- attempt, all attempts before failed and were waited after, and either no attempt was left or
  -- the context was done in the wait.
  pub with_retry-GivesUp :
      (attempts : ℕ) (base : ℤ) (e : E)
      → 0 < attempts
      → (with_retry call stop attempts base).0 ≡ some e
      → GivesUp attempts 0 (length (with_retry call stop attempts base).1) e
  unfolding with_retry
  with_retry-GivesUp attempts base e h r = retry_loop-GivesUp attempts 0 base none e h r
