-- ===== src/Processor/Lag/Sum.antt =====
-- The summed lag: no partition hides behind the others.
use urban_goggles.Base.{
  ℕ, ◌+◌, ◌^◌, ◌<◌, ◌≤◌, ℤ, pos, pos_part, neg_part, ◌≤ℤ◌, ◌<ℤ◌, ◌+ℤ◌, part_zero, int_laws, add64,
  add64_lem, Text, Text_eq, Bool, true, some, [], ◌∷◌, ◌≡◌, refl, arith, lookup, insert, delete,
}
use urban_goggles.Processor.Lag.{
  PartitionLags, ClaimEvent, takes, ends, claim_step, message_lag, sum_from, sum_lags,
  catch_up_enter_lag, monitor_tick,
}

-- Every partition's lag is at least 0.
abbrev pub IsNonNegative : PartitionLags → Type 0
IsNonNegative [] = Unit
IsNonNegative ((_, v) ∷ rest) = (pos 0 ≤ℤ v) × IsNonNegative rest

abbrev pub exact_sum : PartitionLags → ℕ
exact_sum [] = 0
exact_sum ((_, v) ∷ rest) = pos_part v + exact_sum rest

sum_from-exact :
    (total : ℤ) (lags : PartitionLags)
    → IsNonNegative lags
    → neg_part total ≡ 0
    → pos_part total + exact_sum lags < 2 ^ 63
    → sum_from total lags ≡ pos (pos_part total + exact_sum lags)
unfolding sum_from
sum_from-exact total [] h z b = omega int_laws
sum_from-exact total ((k, v) ∷ rest) h z b =
    let sum : add64 total v ≡ total +ℤ v =
      add64_lem total v (omega (int_laws, part_zero v, part_zero (total +ℤ v))) in
    rw
      (
        sum,
        sum_from-exact (total +ℤ v) rest h.1 (omega (int_laws, part_zero v, part_zero (total +ℤ v)))
            (omega (int_laws, part_zero v, part_zero (total +ℤ v))),
      )
      (omega (int_laws, part_zero v, part_zero (total +ℤ v)))

lookup-le-exact_sum :
    (k : Text) (lags : PartitionLags) {v : ℤ} → lookup k lags ≡ some v → pos_part v ≤ exact_sum lags
unfolding lookup
lookup-le-exact_sum k [] h = cc
lookup-le-exact_sum k ((j, w) ∷ rest) {v} h = ground (arith, lookup-le-exact_sum k rest {v = v})

-- If every partition's lag is at least 0 and they add up to less than 2 ^ 63, one partition's lag
-- above the entry threshold puts the processor in catch-up mode, whatever the others' lags and the
-- mode before.
monitor_tick-behind :
    (k : Text) (lags : PartitionLags) (v : ℤ) (catch_up : Bool)
    → IsNonNegative lags
    → exact_sum lags < 2 ^ 63
    → lookup k lags ≡ some v
    → catch_up_enter_lag <ℤ v
    → monitor_tick (sum_lags lags) catch_up ≡ true
unfolding monitor_tick sum_lags
monitor_tick-behind k lags v catch_up h b e far =
    ground (arith, sum_from-exact (pos 0) lags h refl (omega arith), lookup-le-exact_sum k lags e)

insert-IsNonNegative :
    (k : Text) (v : ℤ) (lags : PartitionLags)
    → pos 0 ≤ℤ v
    → IsNonNegative lags
    → IsNonNegative (insert k v lags)
unfolding insert
insert-IsNonNegative k v [] hv h = (hv, tt)
insert-IsNonNegative k v ((j, w) ∷ rest) hv h = ground (arith, insert-IsNonNegative k v rest hv h.1)

delete-IsNonNegative :
    (k : Text) (lags : PartitionLags) → IsNonNegative lags → IsNonNegative (delete k lags)
unfolding delete
delete-IsNonNegative k [] h = tt
delete-IsNonNegative k ((j, w) ∷ rest) h = ground (arith, delete-IsNonNegative k rest h.1)

-- Taking up a message and ending a claim both keep every partition's lag at 0 or more.
claim_step-IsNonNegative :
    (lags : PartitionLags) (e : ClaimEvent) → IsNonNegative lags → IsNonNegative (claim_step lags e)
unfolding claim_step message_lag
claim_step-IsNonNegative lags (takes k hw offset) h =
    insert-IsNonNegative k (message_lag hw offset) lags (ground arith) h
claim_step-IsNonNegative lags (ends k) h = delete-IsNonNegative k lags h
