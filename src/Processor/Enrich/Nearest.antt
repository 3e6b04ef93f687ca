-- ===== src/Processor/Enrich/Nearest.antt =====
-- The delay that `enrichEvent` picks across midnight.
use urban_goggles.Base.{
  ℕ, ◌+◌, ◌≤◌, ℤ, pos, pos_part, neg_part, ◌+ℤ◌, ◌-ℤ◌, +ℤ_parts, -ℤ_parts, eq_of_parts, part_zero,
  int_laws, add64, sub64, abs64, add64_lem, sub64_lem, ◌≡◌, ◌⊎◌, arith,
}
use urban_goggles.Processor.Enrich.{nearest_delay}

-- The integer lies within `n` of zero.
abbrev pub Within : ℕ → ℤ → Type 0
Within n a = (pos_part a ≤ n) × (neg_part a ≤ n)

abs64_size : (a : ℤ) → Within 1000000 a → abs64 a ≡ pos (pos_part a + neg_part a)
unfolding abs64
abs64_size a h =
    ground
      (arith, -ℤ_parts (pos 0) a, sub64_lem (pos 0) a, eq_of_parts (pos 0 -ℤ a) (pos (neg_part a)))

day_before : (a : ℤ) → Within 129600 a → sub64 a (pos 86400) ≡ a -ℤ pos 86400
day_before a h = sub64_lem a (pos 86400) (omega (int_laws, part_zero (a -ℤ pos 86400)))

day_after : (a : ℤ) → Within 129600 a → add64 a (pos 86400) ≡ a +ℤ pos 86400
day_after a h = add64_lem a (pos 86400) (omega (int_laws, part_zero (a +ℤ pos 86400)))

-- For a difference of at most one and a half days, the delay that is picked is the difference or
-- it less or plus one day, and at most half a day in either direction.
pub nearest_delay_lem :
    (raw : ℤ)
    → Within 129600 raw
    → Within 43200 (nearest_delay raw)
      × ((nearest_delay raw ≡ raw)
          ⊎ (nearest_delay raw ≡ raw -ℤ pos 86400)
          ⊎ (nearest_delay raw ≡ raw +ℤ pos 86400))
unfolding nearest_delay
nearest_delay_lem raw h =
    rw (day_before raw h, day_after raw h)
      (ground (
        arith,
        abs64_size raw,
        abs64_size (raw -ℤ pos 86400),
        abs64_size (raw +ℤ pos 86400),
        -ℤ_parts raw (pos 86400),
        +ℤ_parts raw (pos 86400),
        part_zero raw,
        part_zero (raw -ℤ pos 86400),
        part_zero (raw +ℤ pos 86400),
      ))
