-- ===== src/Propagation/History/Stats/Keys.antt =====
-- The pairs of routes in the keys that the store writes.
use urban_goggles.Base.{
  pos, ◌^◌, ◌<◌, atoi-decimal, ℕ, suc, Text, codes, decimal, after_byte-append, before_byte-append,
  Lacks, some, ◌∷◌, ◌++◌, ◌≡◌, refl, ap, ◌∙◌, arith,
}
use urban_goggles.Propagation.History.{history_key}
use urban_goggles.Propagation.History.Stats.{split_n, pair_in}

split_n-append :
    (b n : ℕ) (s t : Text)
    → Lacks b s
    → split_n b (suc (suc n)) (s ++ b ∷ t) ≡ s ∷ split_n b (suc n) t
unfolding split_n
split_n-append b n s t h = rw (split_n, after_byte-append b s t h, before_byte-append b s t h) refl

-- If the ids of two routes and of a station have no colon, `GetTransferStats` takes from the key of
-- an observation the pair of routes that it was recorded for.
pub pair_in-history_key :
    (from_route to_route station_id : Text) (hour : ℕ)
    → Lacks b':' from_route
    → Lacks b':' to_route
    → Lacks b':' station_id
    → hour < 2 ^ 63
    → pair_in (split_n b':' 5 (history_key from_route to_route station_id (pos hour)))
      ≡ some (from_route, to_route)
unfolding history_key split_n pair_in
pair_in-history_key from_route to_route station_id hour hf ht hs lt =
    let tail = station_id ++ b':' ∷ decimal (pos hour) in
    ap pair_in (
      split_n-append b':' 3 (codes "history") (from_route ++ b':' ∷ (to_route ++ b':' ∷ tail))
        (ground arith)
      ∙ ap (λ xs. codes "history" ∷ xs)
          (split_n-append b':' 2 from_route (to_route ++ b':' ∷ tail) hf
            ∙ ap (λ xs. from_route ∷ xs)
                (split_n-append b':' 1 to_route tail ht
                  ∙ ap (λ xs. to_route ∷ xs)
                      (split_n-append b':' 0 station_id (decimal (pos hour)) hs))))
    ∙ rw (atoi-decimal hour lt) refl
