-- ===== src/Alerts/Reconnect.antt =====
-- The waits between the sessions of `RunKafkaConsumer`, internal/server/alerts.go.
use urban_goggles.Base.{
  ℕ, zero, suc, ◌*◌, ◌^◌, ◌≤◌, ltb, ℤ, pos, ltb_ℤ, mul64, ◌≡◌, refl, arith, if◌then◌else◌, ◌*ℤ◌,
  wrap64-eq_of_InInt64,
}
use native.Mathlib.Numerals.{unary_clauses}

-- 5 and 60 seconds in nanoseconds.
abbrev pub alert_retry_base : ℤ
alert_retry_base = pos (5 * 1000000000)

abbrev pub alert_retry_max : ℤ
alert_retry_max = pos (60 * 1000000000)

-- `backoff *= 2`, held to the maximum.
unfoldable pub next_backoff : ℤ → ℤ
next_backoff backoff =
    let doubled = mul64 backoff (pos 2) in
    if ltb_ℤ alert_retry_max doubled then alert_retry_max else doubled

-- The wait after session number n, if none before it ended the loop.
unfoldable pub backoff_after : ℕ → ℤ
backoff_after zero = alert_retry_base
backoff_after (suc n) = next_backoff (backoff_after n)

abbrev pub capped : ℕ → ℕ
capped n = if ltb 60000000000 n then 60000000000 else n

double_lem : (n : ℕ) → pos n *ℤ pos 2 ≡ pos (2 * n)
unfolding ◌*ℤ◌
double_lem n = ground arith

next_backoff_lem : (n : ℕ) → n ≤ 60000000000 → next_backoff (pos n) ≡ pos (capped (2 * n))
unfolding next_backoff mul64
next_backoff_lem n h =
    rw (double_lem n, wrap64-eq_of_InInt64 (pos (2 * n)) (omega arith, omega arith)) (ground arith)

-- The wait after session n is 5 seconds times 2 ^ n, and at most 60 seconds.
pub backoff_after_lem : (n : ℕ) → backoff_after n ≡ pos (capped (5000000000 * 2 ^ n))
unfolding backoff_after
backoff_after_lem zero = refl
backoff_after_lem (suc n) =
    rw (backoff_after_lem n, next_backoff_lem (capped (5000000000 * 2 ^ n)) (ground arith))
      (simp unary_clauses (ground arith))
