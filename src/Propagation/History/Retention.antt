-- ===== src/Propagation/History/Retention.antt =====
-- What a recorded observation leaves in its sorted set.
use urban_goggles.Base.{
  ℤ, sub64, Text, Text_eq, ◌==◌, Bool-cases, Option, none, some, ◌≡◌, refl, arith, [], ◌∷◌, inl,
  inr, if◌then◌else◌,
}
use urban_goggles.External.Redis.{Redis, Codec}
use urban_goggles.External.SortedSets.{SortedSets, IsSortedSets, zadd, zrem_to, above}
use urban_goggles.Propagation.History.{
  Observation, history_key, history_retention_secs, record_observation, exec_failure,
}

pub exec_done : {E : Type 0} (e : Option E) → exec_failure e ≡ none → e ≡ none
exec_done none h = refl
exec_done (some e) h = absurd (ground (arith, h))

module _ (r : Redis) (z : SortedSets r) (laws : IsSortedSets z) where
  -- A pipeline that adds a member to a key and trims the key.
  pub added_scores :
      (db : r.Db) (key member j m : Text) (score cutoff : ℤ)
      → (z.exec db (zadd key score member ∷ zrem_to key cutoff ∷ [])).0 ≡ none
      → z.scored (z.exec db (zadd key score member ∷ zrem_to key cutoff ∷ [])).1 j m ≡ (
          if key == j
          then above cutoff (if member == m then some score else z.scored db j m)
          else z.scored db j m)
  added_scores db key member j m score cutoff done =
      rw (laws.exec_scores db _ j m done)
        (elim (Bool-cases (key == j)) [ inl same ↦ rw same refl | inr other ↦ rw other refl ])

  module _ (c : Codec Text Observation) where
    -- If an observation encodes to a member and is recorded without an error, the set of its pair,
    -- station and hour then holds that member with the time of recording and the members it held
    -- before, but none with a score of 30 days ago or less, and no other set has changed.
    record_observation-retains :
        (db : r.Db) (from_route to_route station_id : Text)
        (hour source_delay downstream_impact now nano : ℤ) (payload j m : Text)
        → c.marshal (record {
          source_delay = source_delay;
          downstream_impact = downstream_impact;
          at = nano;
        })
          ≡ some payload
        → (record_observation r z c db from_route to_route station_id hour source_delay
            downstream_impact now nano).0
          ≡ none
        → z.scored
            (record_observation r z c db from_route to_route station_id hour source_delay
              downstream_impact now nano).1
            j
            m
          ≡ (if history_key from_route to_route station_id hour == j
              then above
                  (sub64 now history_retention_secs)
                  (if payload == m then some now else z.scored db j m)
              else z.scored db j m)
    unfolding record_observation
    record_observation-retains db from_route to_route station_id hour source_delay downstream_impact
          now nano payload j m encoded =
        rw (record_observation, encoded)
          (λ done. added_scores db _ payload j m now _ (exec_done _ done))
