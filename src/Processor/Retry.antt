-- ===== src/Processor/Retry.antt =====
-- `withRetry` of cmd/processor/main.go. `call i` is the error of attempt i, `none` if it succeeds;
-- `stop i` says that the context is done in the wait after attempt i.
pub mod Attempts
use urban_goggles.Base.{
  ℕ, zero, suc, ◌+◌, ℤ, pos, mul64, Bool, true, false, ◌||◌, nat_eq, Option, none, some, List, [],
  ◌∷◌, if◌then◌else◌,
}

module _ {ℓ} {E : Type ℓ} (call : ℕ → Option E) (stop : ℕ → Bool) where
  -- The error that is returned, `none` for nil, and the delays waited in order. The first argument
  -- is the number of attempts left, `i` the attempt at hand.
  retry_loop : ℕ → ℕ → ℤ → Option E → Option E × List ℤ
  retry_loop zero i delay err = (err, [])
  retry_loop (suc left) i delay err = elim (call i) [
    | none ↦ (none, [])
    | some e ↦
        let (result, waits) = retry_loop left (i + 1) (mul64 delay (pos 2)) (some e) in
        if nat_eq left 0 || stop i then (some e, []) else (result, delay ∷ waits)
  ]

  unfoldable pub with_retry : ℕ → ℤ → Option E × List ℤ
  unfolding retry_loop
  with_retry attempts base = retry_loop attempts 0 base none
