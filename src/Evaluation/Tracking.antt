-- ===== src/Evaluation/Tracking.antt =====
-- `TrackPrediction` of internal/evaluation/evaluator.go: the impacts of a prediction that are kept
-- until their outcome is known. An impact is named by its index in the result.
pub mod Order
pub mod Tracked
use urban_goggles.Base.{
  ℕ, zero, suc, ◌+◌, ◌^◌, ◌%◌, nat_eq, ltb, leb, ℤ, pos, negsuc, ltb_ℤ, int_eq, add64, Text,
  Text_eq, decimal, is_empty, ◌==◌, Bool, true, false, not, ◌&&◌, ◌||◌, Option, none, some, List,
  [], ◌∷◌, ◌++◌, Map, lookup, insert, exists_in, if◌then◌else◌, length,
}
use urban_goggles.Graph.Search.{get_elem?}
use urban_goggles.External.Redis.{Redis, Reply, ok, err, Codec}
use urban_goggles.External.SortedSets.{SortedSets}
use urban_goggles.External.Float.{Float64}
use urban_goggles.Transit.{TransferImpact, DownstreamImpact, PropagationResult}
use urban_goggles.Graph.{TransitGraph, read_or, parent_station_id}
use urban_goggles.State.{DelayState}
use urban_goggles.State.Listing.{get_route_delays}
use urban_goggles.Propagation.Engine.{stop_key}
use urban_goggles.Evaluation.{PendingPrediction, PendingError, prediction_window_secs}
use urban_goggles.Evaluation.Pending.{add_pending}
use urban_goggles.Evaluation.Matching.{first_error}

abbrev pub max_tracked : ℕ
max_tracked = 20

abbrev pub max_baseline_routes : ℕ
max_baseline_routes = 3

module _ {F : Type 0} where
  -- One hop away and on the receiving route.
  unfoldable pub is_candidate : TransferImpact → DownstreamImpact F → Bool
  is_candidate src imp = int_eq imp.hops_from_source (pos 1) && imp.route_id == src.to_route_id

  -- One round of the loop for `primaryIdx` and `primaryDelay`, `none` standing for the index -1.
  unfoldable pub next_best :
      TransferImpact → DownstreamImpact F → ℕ → Option (ℕ × ℤ) → Option (ℕ × ℤ)
  unfolding is_candidate
  next_best src imp i none =
      if is_candidate src imp then some (i, imp.predicted_additional_delay) else none
  next_best src imp i (some (primary, delay)) =
      if is_candidate src imp && ltb_ℤ imp.predicted_additional_delay delay
      then some (i, imp.predicted_additional_delay)
      else some (primary, delay)

  -- The loop from index `i` on.
  unfoldable pub find_primary :
      TransferImpact → List (DownstreamImpact F) → ℕ → Option (ℕ × ℤ) → Option (ℕ × ℤ)
  unfolding next_best
  find_primary src [] i best = best
  find_primary src (imp ∷ rest) i best = find_primary src rest (suc i) (next_best src imp i best)

-- `i != primaryIdx`.
unfoldable pub is_other : Option ℕ → ℕ → Bool
is_other none i = true
is_other (some primary) i = not (nat_eq i primary)

unfoldable pub other_indices : Option ℕ → ℕ → ℕ → List ℕ
unfolding is_other
other_indices primary i zero = []
other_indices primary i (suc n) =
    let rest = other_indices primary (suc i) n in if is_other primary i then i ∷ rest else rest

-- The order of the tracking, of `n` impacts.
unfoldable pub track_order : Option ℕ → ℕ → List ℕ
unfolding other_indices
track_order none n = other_indices none 0 n
track_order (some i) n = i ∷ other_indices (some i) 0 n

module _ (f : Float64) (r : Redis) (z : SortedSets r) (cs : Codec r.Value (DelayState f.F))
    (c : Codec r.Value (PendingPrediction f.F)) (g : TransitGraph) (agency_id : Text) where
  add_baseline : Text → List (DelayState f.F) → Map Text ℤ → Map Text ℤ
  add_baseline route [] out = out
  add_baseline route (ds ∷ rest) out =
      let key = stop_key route (parent_station_id g ds.stop_id) in
      add_baseline route rest (
        if ltb_ℤ (read_or (pos 0) (lookup key out)) ds.delay_seconds
        then insert key ds.delay_seconds out
        else out)

  baseline_loop : List (DownstreamImpact f.F) → List Text → Map Text ℤ → r.Db → Map Text ℤ × r.Db
  unfolding add_baseline
  baseline_loop [] seen out db = (out, db)
  baseline_loop (imp ∷ rest) seen out db = elim (exists_in (λ route. route == imp.route_id) seen) [
    | true ↦ baseline_loop rest seen out db
    | false ↦ elim (leb max_baseline_routes (length seen)) [
      | true ↦ (out, db)
      | false ↦
          let (reply, db') = get_route_delays f r cs db agency_id imp.route_id in
          elim reply [
            | err _ ↦ baseline_loop rest (imp.route_id ∷ seen) out db'
            | ok delays ↦
                baseline_loop rest (imp.route_id ∷ seen) (add_baseline imp.route_id delays out) db'
          ]
    ]
  ]

  unfoldable pub baseline_delays : r.Db → List (DownstreamImpact f.F) → Map Text ℤ × r.Db
  unfolding baseline_loop
  baseline_delays db impacts = baseline_loop impacts [] [] db

  -- The moment of the prediction, the receiving route's direction, the baselines and the primary.
  module _ (src : TransferImpact) (created_at : ℤ) (baselines : Map Text ℤ)
      (primary : Option ℕ) where
    to_direction : ℤ
    to_direction =
        if is_empty src.next_viable_trip_id
        then negsuc 0
        else read_or (negsuc 0) (lookup src.next_viable_trip_id g.trip_direction)

    -- `nano` is the clock's reading, `seq` the value of the counter `pendingSeq`.
    unfoldable pub prediction_of : ℕ → DownstreamImpact f.F → ℤ → ℕ → PendingPrediction f.F
    unfolding to_direction
    prediction_of i imp nano seq = record {
      id =
          src.from_route_id
          ++ (b':'
              ∷ (imp.route_id
                  ++ (b':'
                      ∷ (imp.stop_id ++ (b':' ∷ (decimal nano ++ (b':' ∷ decimal (pos seq))))))));
      agency_id = agency_id;
      from_route = src.from_route_id;
      route_id = imp.route_id;
      station_id = imp.stop_id;
      source_station = parent_station_id g src.station_id;
      direction = if imp.route_id == src.to_route_id then to_direction else negsuc 0;
      source_delay_secs = src.source_delay_seconds;
      predicted_secs = imp.predicted_additional_delay;
      baseline_secs = read_or (pos 0) (lookup (stop_key imp.route_id imp.stop_id) baselines);
      sched_conn_dep_secs = src.sched_connection_departure_secs;
      earliest_catch_secs = src.earliest_catch_secs;
      confidence = imp.confidence;
      hops = imp.hops_from_source;
      hour = pos (g.tz created_at).hour;
      is_primary = not (is_other primary i);
      created_at = created_at;
      expires_at = add64 created_at prediction_window_secs;
      observed_max = pos 0;
      matched = false;
    }

    -- Below the least confidence and not the primary.
    is_skipped : ℕ → DownstreamImpact f.F → Bool
    is_skipped i imp = f.ltf imp.confidence (f.lit 3 1) && is_other primary i

    -- The loop over the order: what was stored, newest first, the first error, and what remains of
    -- the state. `until` stands for time.Until, `nano i` for the reading at impact i.
    track_loop :
        (ℤ → ℤ)
        → (ℕ → ℤ)
        → List (DownstreamImpact f.F)
        → List ℕ
        → ℕ
        → r.Db
        → List (PendingPrediction f.F)
        → Option (PendingError r.Error)
        → List (PendingPrediction f.F) × Option (PendingError r.Error) × ℕ × r.Db
    unfolding prediction_of is_skipped
    track_loop until nano impacts [] seq db stored first = (stored, first, seq, db)
    track_loop until nano impacts (i ∷ order) seq db stored first = elim (get_elem? impacts i) [
      | none ↦ (stored, first, seq, db)
      | some imp ↦ elim (leb max_tracked (length stored)) [
        | true ↦ (stored, first, seq, db)
        | false ↦ elim (is_skipped i imp) [
          | true ↦ track_loop until nano impacts order seq db stored first
          | false ↦
              let seq' = (seq + 1) % 2 ^ 64 in
              let p = prediction_of i imp (nano i) seq' in
              let (e, db') = add_pending r z c until db p in
              elim e [
                | some failure ↦
                    track_loop until nano impacts order seq' db' stored
                      (first_error first (some failure))
                | none ↦ track_loop until nano impacts order seq' db' (p ∷ stored) first
              ]
        ]
      ]
    ]

  primary_of : Option (ℕ × ℤ) → Option ℕ
  primary_of none = none
  primary_of (some (i, _)) = some i

  -- `now` is the clock's reading, `seq` the counter before. The predictions that were stored, newest
  -- first, stand for what `tracked` counts.
  unfoldable pub track_prediction :
      (ℤ → ℤ)
      → (ℕ → ℤ)
      → ℤ
      → r.Db
      → ℕ
      → TransferImpact
      → PropagationResult f.F
      → List (PendingPrediction f.F) × Option (PendingError r.Error) × ℕ × r.Db
  unfolding track_loop primary_of track_order find_primary
  track_prediction until nano now db seq src res =
      let created_at = if int_eq res.computed_at (pos 0) then now else res.computed_at in
      let primary = primary_of (find_primary src res.impacts 0 none) in
      let (baselines, db1) = baseline_delays db res.impacts in
      track_loop src created_at baselines primary until nano res.impacts
        (track_order primary (length res.impacts)) seq db1 [] none
