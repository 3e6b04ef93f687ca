-- ===== src/Base/Words.antt =====
-- Go's int32 and int64 (and `int`, 64 bits wide here): integers, with the wrap-around of each
-- operation written out.
use Prim.Native.Nat.{ℕ, ◌+◌, ◌-◌, ◌%◌, ◌^◌, ◌≤◌, ◌<◌}
use mathlib.Core.Path.{◌≡◌}
use native.Mathlib.Omega.{arith}
use urban_goggles.Base.Tests.{ltb, if◌then◌else◌}
use urban_goggles.Base.Int.{
  ℤ, pos, negsuc, pos_part, neg_part, ◌+ℤ◌, ◌-ℤ◌, ◌*ℤ◌, ltb_ℤ, int_laws, -ℤ_parts,
}

-- The value that the low bits of an integer stand for in two's complement: `half` is the first
-- value that is out of range.
wrap : ℕ → ℤ → ℤ
wrap half (pos n) =
    let m = n % (half + half) in if ltb m half then pos m else negsuc (half + half - 1 - m)
wrap half (negsuc n) =
    let m = n % (half + half) in if ltb m half then negsuc m else pos (half + half - 1 - m)

unfoldable pub wrap32 : ℤ → ℤ
unfolding wrap
wrap32 = wrap (2 ^ 31)

unfoldable pub wrap64 : ℤ → ℤ
unfolding wrap
wrap64 = wrap (2 ^ 63)

abbrev pub InInt32 : ℤ → Type 0
InInt32 a = (pos_part a < 2 ^ 31) × (neg_part a ≤ 2 ^ 31)

abbrev pub InInt64 : ℤ → Type 0
InInt64 a = (pos_part a < 2 ^ 63) × (neg_part a ≤ 2 ^ 63)

pub wrap32-eq_of_InInt32 : (a : ℤ) → InInt32 a → wrap32 a ≡ a
unfolding wrap32
wrap32-eq_of_InInt32 (pos n) h = ground arith
wrap32-eq_of_InInt32 (negsuc n) h = ground arith

pub wrap64-eq_of_InInt64 : (a : ℤ) → InInt64 a → wrap64 a ≡ a
unfolding wrap64
wrap64-eq_of_InInt64 (pos n) h = ground arith
wrap64-eq_of_InInt64 (negsuc n) h = ground arith

pub wrap32-InInt32 : (a : ℤ) → InInt32 (wrap32 a)
unfolding wrap32
wrap32-InInt32 (pos n) = ground arith
wrap32-InInt32 (negsuc n) = ground arith

pub wrap64-InInt64 : (a : ℤ) → InInt64 (wrap64 a)
unfolding wrap64
wrap64-InInt64 (pos n) = ground arith
wrap64-InInt64 (negsuc n) = ground arith

unfoldable pub add32 : ℤ → ℤ → ℤ
add32 a b = wrap32 (a +ℤ b)

unfoldable pub sub32 : ℤ → ℤ → ℤ
sub32 a b = wrap32 (a -ℤ b)

unfoldable pub add64 : ℤ → ℤ → ℤ
add64 a b = wrap64 (a +ℤ b)

unfoldable pub sub64 : ℤ → ℤ → ℤ
sub64 a b = wrap64 (a -ℤ b)

unfoldable pub mul64 : ℤ → ℤ → ℤ
mul64 a b = wrap64 (a *ℤ b)

-- `abs32` and `abs64` of the source: the negation wraps at the least value.
unfoldable pub abs32 : ℤ → ℤ
abs32 x = if ltb_ℤ x (pos 0) then sub32 (pos 0) x else x

unfoldable pub abs64 : ℤ → ℤ
abs64 x = if ltb_ℤ x (pos 0) then sub64 (pos 0) x else x

pub sub32_self : (a : ℤ) → sub32 a a ≡ pos 0
unfolding sub32 wrap32 ◌-ℤ◌
sub32_self a = ground arith

pub sub64_self : (a : ℤ) → sub64 a a ≡ pos 0
unfolding sub64 wrap64 ◌-ℤ◌
sub64_self a = ground arith

pub sub64_lem : (a b : ℤ) → InInt64 (a -ℤ b) → sub64 a b ≡ a -ℤ b
unfolding sub64
sub64_lem a b h = wrap64-eq_of_InInt64 (a -ℤ b) h

pub add64_lem : (a b : ℤ) → InInt64 (a +ℤ b) → add64 a b ≡ a +ℤ b
unfolding add64
add64_lem a b h = wrap64-eq_of_InInt64 (a +ℤ b) h

pub sub32_lem : (a b : ℤ) → InInt32 (a -ℤ b) → sub32 a b ≡ a -ℤ b
unfolding sub32
sub32_lem a b h = wrap32-eq_of_InInt32 (a -ℤ b) h

pub add32_lem : (a b : ℤ) → InInt32 (a +ℤ b) → add32 a b ≡ a +ℤ b
unfolding add32
add32_lem a b h = wrap32-eq_of_InInt32 (a +ℤ b) h

-- How far apart two integers lie.
abbrev pub dist : ℤ → ℤ → ℤ
dist a b = if ltb_ℤ a b then b -ℤ a else a -ℤ b

zero-sub-sub : (a b : ℤ) → pos 0 -ℤ (a -ℤ b) ≡ b -ℤ a
zero-sub-sub a b = omega int_laws

-- Where neither difference leaves the type, the source's distance is the true one.
pub abs32-sub32 : (a b : ℤ) → InInt32 (a -ℤ b) → InInt32 (b -ℤ a) → abs32 (sub32 a b) ≡ dist a b
unfolding abs32
abs32-sub32 a b h k = rw (sub32_lem a b h) (
    ground
      (arith, zero-sub-sub a b, -ℤ_parts a b, sub32_lem (pos 0) (a -ℤ b) (rw (zero-sub-sub a b) k)))

pub abs64-sub64 : (a b : ℤ) → InInt64 (a -ℤ b) → InInt64 (b -ℤ a) → abs64 (sub64 a b) ≡ dist a b
unfolding abs64
abs64-sub64 a b h k = rw (sub64_lem a b h) (
    ground
      (arith, zero-sub-sub a b, -ℤ_parts a b, sub64_lem (pos 0) (a -ℤ b) (rw (zero-sub-sub a b) k)))
