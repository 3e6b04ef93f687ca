-- ===== src/Tests/Decimals.antt =====
-- Decimal fractions in place of float64: they satisfy what the interface asks of it.
use urban_goggles.Base.{
  zero, quot, int_eq, pos_part, ℕ, ◌+◌, ◌*◌, ◌/◌, ◌^◌, ◌<◌, ℤ, pos, negsuc, ◌+ℤ◌, ◌-ℤ◌, ◌*ℤ◌, ◌≤ℤ◌,
  +ℤ_parts, -ℤ_parts, *ℤ_parts, ltb_ℤ, true, ◌≡◌, arith, suc,
}
use urban_goggles.External.Float.{Float64, IsFloat64}

-- `(n, k)` is n / 10 ^ k.
abbrev pub Decimal : Type 0
Decimal = ℤ × ℕ

abbrev round_half_away : Decimal → ℤ
round_half_away (pos n, k) = pos ((2 * n + 10 ^ k) / (2 * 10 ^ k))
round_half_away (negsuc n, k) = pos 0 -ℤ pos ((2 * suc n + 10 ^ k) / (2 * 10 ^ k))

abbrev pub power : Decimal → ℕ → Decimal
power x zero = (pos 1, 0)
power x (suc n) = let rest = power x n in (x.0 *ℤ rest.0, x.1 + rest.1)

-- Quotients by a positive fraction, to six more places; powers for whole exponents.
abbrev pub decimals : Float64
decimals = record {
  F = Decimal;
  of_int = λ a. (a, 0);
  lit = λ n k. (pos n, k);
  add = λ x y. (pos (10 ^ y.1) *ℤ x.0 +ℤ pos (10 ^ x.1) *ℤ y.0, x.1 + y.1);
  mul = λ x y. (x.0 *ℤ y.0, x.1 + y.1);
  sub = λ x y. (pos (10 ^ y.1) *ℤ x.0 -ℤ pos (10 ^ x.1) *ℤ y.0, x.1 + y.1);
  div = λ x y. (quot (pos (10 ^ (6 + y.1)) *ℤ x.0) (pos_part y.0), 6 + x.1);
  pow = λ x y. power x (pos_part y.0);
  eqf = λ x y. int_eq (pos (10 ^ y.1) *ℤ x.0) (pos (10 ^ x.1) *ℤ y.0);
  trunc_int32 = λ x. quot x.0 (10 ^ x.1);
  to_float32 = λ x. x;
  ltf = λ x y. ltb_ℤ (pos (10 ^ y.1) *ℤ x.0) (pos (10 ^ x.1) *ℤ y.0);
  round_int32 = round_half_away;
}

-- The parts of a product by 100 and a sum with 50.
round_low : (n : ℤ) → n ≤ℤ pos 100 *ℤ round_half_away (n, 2) +ℤ pos 50
round_low (pos n) =
    let q = round_half_away (pos n, 2) in
    omega (arith, *ℤ_parts 100 q, +ℤ_parts (pos 100 *ℤ q) (pos 50))
round_low (negsuc n) =
    let r = pos ((2 * suc n + 100) / 200) in
    let q = pos 0 -ℤ r in
    omega (arith, -ℤ_parts (pos 0) r, *ℤ_parts 100 q, +ℤ_parts (pos 100 *ℤ q) (pos 50))

round_high : (n : ℤ) → pos 100 *ℤ round_half_away (n, 2) ≤ℤ n +ℤ pos 50
round_high (pos n) =
    let q = round_half_away (pos n, 2) in omega (arith, *ℤ_parts 100 q, +ℤ_parts (pos n) (pos 50))
round_high (negsuc n) =
    let r = pos ((2 * suc n + 100) / 200) in
    let q = pos 0 -ℤ r in
    omega (arith, -ℤ_parts (pos 0) r, *ℤ_parts 100 q, +ℤ_parts (negsuc n) (pos 50))

-- Both bounds for ten times a sum.
rounded_low :
    (x y : ℤ) → x +ℤ y ≤ℤ pos 10 *ℤ round_half_away (pos 10 *ℤ x +ℤ pos 10 *ℤ y, 2) +ℤ pos 6
rounded_low x y =
    let n = pos 10 *ℤ x +ℤ pos 10 *ℤ y in
    let q = round_half_away (n, 2) in
    omega (
      arith,
      round_low n,
      *ℤ_parts 10 x,
      *ℤ_parts 10 y,
      *ℤ_parts 10 q,
      *ℤ_parts 100 q,
      +ℤ_parts x y,
      +ℤ_parts (pos 10 *ℤ x) (pos 10 *ℤ y),
      +ℤ_parts (pos 100 *ℤ q) (pos 50),
      +ℤ_parts (pos 10 *ℤ q) (pos 6),
    )

rounded_high :
    (x y : ℤ) → pos 10 *ℤ round_half_away (pos 10 *ℤ x +ℤ pos 10 *ℤ y, 2) ≤ℤ x +ℤ y +ℤ pos 6
rounded_high x y =
    let n = pos 10 *ℤ x +ℤ pos 10 *ℤ y in
    let q = round_half_away (n, 2) in
    omega (
      arith,
      round_high n,
      *ℤ_parts 10 x,
      *ℤ_parts 10 y,
      *ℤ_parts 10 q,
      *ℤ_parts 100 q,
      +ℤ_parts x y,
      +ℤ_parts (pos 10 *ℤ x) (pos 10 *ℤ y),
      +ℤ_parts n (pos 50),
      +ℤ_parts (x +ℤ y) (pos 6),
    )

lits_lem :
    (m i n j : ℕ)
    → ltb_ℤ (pos (10 ^ j) *ℤ pos m) (pos (10 ^ i) *ℤ pos n) ≡ true
    → m * 10 ^ j < n * 10 ^ i
lits_lem m i n j h = ground (arith, *ℤ_parts (10 ^ j) (pos m), *ℤ_parts (10 ^ i) (pos n))

pub decimals-IsFloat64 : IsFloat64 decimals
decimals-IsFloat64 = record {
  ltf-lit = lits_lem;
  weighted_low = λ m n a b h ia ib. rounded_low (pos m *ℤ a) (pos n *ℤ b);
  weighted_high = λ m n a b h ia ib. rounded_high (pos m *ℤ a) (pos n *ℤ b);
}
