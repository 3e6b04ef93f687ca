-- ===== src/External/Float.antt =====
-- Go's float64 as an interface: the operations that the program calls, and what IEEE 754 says of
-- them where a proof relies on it.
use urban_goggles.Base.{ℕ, ◌*◌, ◌^◌, ◌+◌, ◌<◌, ℤ, pos, ◌+ℤ◌, ◌*ℤ◌, ◌≤ℤ◌, InInt32, Bool, true, ◌≡◌}

pub record Float64 : Type 1 where
  pub F : Type 0
  pub of_int : ℤ → F
  -- `lit n k` is the constant n / 10 ^ k.
  pub lit : ℕ → ℕ → F
  pub add : F → F → F
  pub mul : F → F → F
  pub sub : F → F → F
  pub div : F → F → F
  -- math.Pow.
  pub pow : F → F → F
  pub ltf : F → F → Bool
  -- `x == y`.
  pub eqf : F → F → Bool
  -- int32(math.Round(x)).
  pub round_int32 : F → ℤ
  -- int32(x), which drops the fraction.
  pub trunc_int32 : F → ℤ
  -- float64(float32(x)).
  pub to_float32 : F → F

pub record IsFloat64 (f : Float64) : Type 0 where
  -- Constants are ordered as the decimals that they are written as.
  pub ltf-lit : (m i n j : ℕ) → f.ltf (f.lit m i) (f.lit n j) ≡ true → m * 10 ^ j < n * 10 ^ i
  -- The error of a combination of two int32 with weights m / 10 and n / 10 that add up to 1,
  -- rounded to an integer: less than 0.6, in tenths.
  pub weighted_low :
      (m n : ℕ) (a b : ℤ)
      → m + n ≡ 10
      → InInt32 a
      → InInt32 b
      → pos m *ℤ a +ℤ pos n *ℤ b
        ≤ℤ pos 10
            *ℤ f.round_int32
                (f.add (f.mul (f.lit m 1) (f.of_int a)) (f.mul (f.lit n 1) (f.of_int b)))
          +ℤ pos 6
  pub weighted_high :
      (m n : ℕ) (a b : ℤ)
      → m + n ≡ 10
      → InInt32 a
      → InInt32 b
      → pos 10
          *ℤ f.round_int32 (f.add (f.mul (f.lit m 1) (f.of_int a)) (f.mul (f.lit n 1) (f.of_int b)))
        ≤ℤ pos m *ℤ a +ℤ pos n *ℤ b +ℤ pos 6
