-- ===== src/Evaluation/Sweep/Recorded.antt =====
-- Where the outcome of a prediction is recorded.
use urban_goggles.Base.{
  ℤ, Text, Text_eq, ◌==◌, is_empty, Bool, false, [], ◌∷◌, ◌≡◌, refl, Bool-cases, Option-cases, inl,
  inr, if◌then◌else◌,
}
use urban_goggles.External.Redis.{Redis, Codec}
use urban_goggles.External.SortedSets.{SortedSets, IsSortedSets, zadd, zrem_to}
use urban_goggles.External.Float.{Float64}
use urban_goggles.Graph.{TransitGraph}
use urban_goggles.State.{DelayState}
use urban_goggles.Propagation.History.{Observation, history_key, record_observation}
use urban_goggles.Propagation.StopImpact.{StopOutcome, stop_impact_key, record_stop_outcome}
use urban_goggles.Evaluation.{PendingPrediction}
use urban_goggles.Evaluation.Sweep.{record_outcome}

-- The set that an outcome belongs to: that of the transfer pair for a primary prediction, at the
-- transfer's station where it is known, and that of the stop for another.
abbrev pub outcome_key : {F : Type 0} → PendingPrediction F → Text
outcome_key p =
    if p.is_primary
    then history_key p.from_route p.route_id
        (if is_empty p.source_station then p.station_id else p.source_station) p.hour
    else stop_impact_key p.route_id p.station_id p.hour

module _ (r : Redis) (z : SortedSets r) (laws : IsSortedSets z) where
  -- What one key holds, as a value and as a set, is as before.
  abbrev pub SameAt : r.Db → r.Db → Text → Type 0
  SameAt db db' j = (r.held db' j ≡ r.held db j) × ((m : Text) → z.scored db' j m ≡ z.scored db j m)

  trimmed-SameAt :
      (db : r.Db) (key member j : Text) (score cutoff : ℤ)
      → (key == j) ≡ false
      → SameAt db (z.exec db (zadd key score member ∷ zrem_to key cutoff ∷ [])).1 j
  trimmed-SameAt db key member j score cutoff apart =
      let keeps = λ (m : Text).
        laws.exec_keeps db (zadd key score member ∷ zrem_to key cutoff ∷ []) j m
          (apart, (apart, tt)) in
      ((keeps []).0, λ m. (keeps m).1)

  record_observation-SameAt :
      (c : Codec Text Observation) (db : r.Db) (from_route to_route station_id : Text)
      (hour source_delay downstream_impact now nano : ℤ) (j : Text)
      → (history_key from_route to_route station_id hour == j) ≡ false
      → SameAt db
          (record_observation r z c db from_route to_route station_id hour source_delay
            downstream_impact now nano).1
          j
  unfolding record_observation
  record_observation-SameAt c db from_route to_route station_id hour source_delay downstream_impact
        now nano j apart =
      elim (Option-cases (
        c.marshal (record {
          source_delay = source_delay;
          downstream_impact = downstream_impact;
          at = nano;
        }))) [
          | inl refused ↦ rw (record_observation, refused) (refl, λ m. refl)
          | inr (payload, encoded) ↦
              rw (record_observation, encoded) (trimmed-SameAt db _ payload j now _ apart)
        ]

  record_stop_outcome-SameAt :
      (c : Codec Text StopOutcome) (db : r.Db) (route_id station_id : Text)
      (hour observed_delay now nano : ℤ) (j : Text)
      → (stop_impact_key route_id station_id hour == j) ≡ false
      → SameAt db
          (record_stop_outcome r z c db route_id station_id hour observed_delay now nano).1
          j
  unfolding record_stop_outcome
  record_stop_outcome-SameAt c db route_id station_id hour observed_delay now nano j apart =
      elim (Option-cases (c.marshal (record { observed = observed_delay; at = nano }))) [
        | inl refused ↦ rw (record_stop_outcome, refused) (refl, λ m. refl)
        | inr (payload, encoded) ↦
            rw (record_stop_outcome, encoded) (trimmed-SameAt db _ payload j now _ apart)
      ]

  module _ (f : Float64) (cs : Codec r.Value (DelayState f.F)) (g : TransitGraph)
      (c : Codec r.Value (PendingPrediction f.F)) (co : Codec Text Observation)
      (cp : Codec Text StopOutcome) (has_stop_history : Bool) where
    -- Recording the outcome of a prediction changes no other key than the set that it belongs to,
    -- whatever fails: a primary's outcome never counts for its stop, nor another's for a transfer.
    pub record_outcome-SameAt :
        (db : r.Db) (p : PendingPrediction f.F) (now nano : ℤ) (j : Text)
        → (outcome_key p == j) ≡ false
        → SameAt db (record_outcome f r cs g z c co cp has_stop_history db p now nano) j
    unfolding record_outcome
    record_outcome-SameAt db p now nano j = elim (Bool-cases p.is_primary) [
      | inl primary ↦
          rw (record_outcome, primary)
            (λ apart.
              record_observation-SameAt co db p.from_route p.route_id _ p.hour p.source_delay_secs
                p.observed_max now nano j apart)
      | inr other ↦ elim (Bool-cases has_stop_history) [
        | inl has ↦
            rw (record_outcome, other, has)
              (λ apart.
                record_stop_outcome-SameAt cp db p.route_id p.station_id p.hour p.observed_max now
                  nano j apart)
        | inr lacks ↦ rw (record_outcome, other, lacks) (λ apart. (refl, λ m. refl))
      ]
    ]
