-- ===== src/Evaluation/Sweep.antt =====
-- The sweep of internal/evaluation/evaluator.go: `realizedWait`, `sweepOnce` and `ConfidenceBucket`.
-- The two stores of outcomes are those of internal/propagation.
pub mod Waits
pub mod Recorded
use urban_goggles.Base.{
  ℕ, ◌+◌, ℤ, pos, neg_part, ltb_ℤ, leb_ℤ, int_eq, wrap32, sub32, add64, abs32, Text, Text_eq, codes,
  is_empty, Bool, true, false, not, ◌&&◌, ◌||◌, Option, none, some, List, [], ◌∷◌, lookup,
  if◌then◌else◌,
}
use urban_goggles.External.Redis.{Redis, Reply, ok, err, Codec}
use urban_goggles.External.SortedSets.{SortedSets}
use urban_goggles.External.Float.{Float64}
use urban_goggles.Graph.{
  TransitGraph, ScheduledStopTime, get_next_departures, get_scheduled_stop_time,
}
use urban_goggles.State.{DelayState, Failure, get_delay}
use urban_goggles.Propagation.History.{Observation, record_observation}
use urban_goggles.Propagation.StopImpact.{StopOutcome, record_stop_outcome}
use urban_goggles.Evaluation.{PendingPrediction, prediction_window_secs}
use urban_goggles.Evaluation.Pending.{pop_expired}

abbrev pub verify_min_seconds : ℤ
verify_min_seconds = pos 15

abbrev pub sweep_batch_size : ℕ
sweep_batch_size = 100

unfoldable pub confidence_bucket : (f : Float64) → f.F → Text
confidence_bucket f c =
    if f.ltf c (f.lit 4 1)
    then codes "0.2-0.4"
    else if f.ltf c (f.lit 6 1)
    then codes "0.4-0.6"
    else if f.ltf c (f.lit 8 1)
    then codes "0.6-0.8"
    else codes "0.8-1.0"

module _ {F : Type 0} where
  -- The scheduled connection's frame is there to measure a wait in.
  unfoldable pub has_frame : PendingPrediction F → Bool
  has_frame p = p.is_primary && ltb_ℤ (pos 0) p.sched_conn_dep_secs

  -- `continue` for a train in the other direction.
  unfoldable pub wrong_direction : TransitGraph → PendingPrediction F → ScheduledStopTime → Bool
  wrong_direction g p st = leb_ℤ (pos 0) p.direction && elim (lookup st.trip_id g.trip_direction) [
    | none ↦ false
    | some d ↦ not (int_eq d p.direction)
  ]

  unfoldable pub wait_of : PendingPrediction F → ℤ → ℤ
  wait_of p realized =
      let wait = sub32 (wrap32 realized) p.sched_conn_dep_secs in
      if ltb_ℤ wait (pos 0) then pos 0 else wait

  -- The outcome of a prediction after the wait was looked up.
  unfoldable pub with_wait : PendingPrediction F → Option ℤ → PendingPrediction F
  with_wait p none = p
  with_wait p (some wait) = record p { observed_max = wait; matched = true }

unfoldable pub is_verified : (f : Float64) → PendingPrediction f.F → Bool
is_verified f p =
    let half = f.mul (f.lit 5 1) (f.of_int p.predicted_secs) in
    leb_ℤ verify_min_seconds p.observed_max
    && (f.ltf half (f.of_int p.observed_max) || f.eqf half (f.of_int p.observed_max))

-- The value that goes into the metrics of errors.
unfoldable pub abs_error : (f : Float64) → PendingPrediction f.F → f.F
abs_error f p =
    let d = sub32 p.predicted_secs p.observed_max in
    f.of_int (if ltb_ℤ d (pos 0) then pos (neg_part d) else d)

module _ (f : Float64) (r : Redis) (cs : Codec r.Value (DelayState f.F)) (g : TransitGraph) where
  delay_or_zero : Reply (Failure r.Error) (Option (DelayState f.F)) → ℤ
  delay_or_zero (ok (some ds)) = ds.delay_seconds
  delay_or_zero _ = pos 0

  -- The observed delay of a candidate at the transfer's station.
  unfoldable pub candidate_delay : r.Db → PendingPrediction f.F → ScheduledStopTime → ℤ × r.Db
  unfolding delay_or_zero
  candidate_delay db p st = elim (get_scheduled_stop_time g st.trip_id p.source_station) [
    | none ↦ (pos 0, db)
    | some row ↦
        let (reply, db') = get_delay f r cs g db p.agency_id st.trip_id row.stop_id in
        (delay_or_zero reply, db')
  ]

  unfoldable pub wait_loop : PendingPrediction f.F → List ScheduledStopTime → r.Db → Option ℤ × r.Db
  unfolding candidate_delay wrong_direction wait_of
  wait_loop p [] db = (none, db)
  wait_loop p (st ∷ rest) db =
      elim (ltb_ℤ (add64 p.earliest_catch_secs prediction_window_secs) st.departure_secs) [
        | true ↦ (none, db)
        | false ↦ elim (wrong_direction g p st) [
          | true ↦ wait_loop p rest db
          | false ↦
              let (delay, db') = candidate_delay db p st in
              let realized = add64 st.departure_secs delay in
              elim (leb_ℤ p.earliest_catch_secs realized) [
                | true ↦ (some (wait_of p realized), db')
                | false ↦ wait_loop p rest db'
              ]
        ]
      ]

  -- `none` is the result `ok == false`.
  unfoldable pub realized_wait : r.Db → PendingPrediction f.F → Option ℤ × r.Db
  unfolding wait_loop
  realized_wait db p =
      wait_loop p (get_next_departures g p.source_station p.route_id p.sched_conn_dep_secs 10) db

  unfoldable pub resolve_outcome : r.Db → PendingPrediction f.F → PendingPrediction f.F × r.Db
  unfolding realized_wait has_frame with_wait
  resolve_outcome db p = elim (has_frame p) [
    | false ↦ (p, db)
    | true ↦ let (wait, db') = realized_wait db p in (with_wait p wait, db')
  ]

  module _ (z : SortedSets r) (c : Codec r.Value (PendingPrediction f.F))
      (co : Codec Text Observation) (cp : Codec Text StopOutcome) (has_stop_history : Bool) where
    -- One round of `sweepOnce` after the outcome: to the store of transfer pairs for a primary, to
    -- that of stops for another. `now` and `nano` are the clock's readings; an error is only logged.
    unfoldable pub record_outcome : r.Db → PendingPrediction f.F → ℤ → ℤ → r.Db
    record_outcome db p now nano = elim p.is_primary [
      | true ↦
          (record_observation r z co db p.from_route p.route_id
            (if is_empty p.source_station then p.station_id else p.source_station) p.hour
            p.source_delay_secs p.observed_max now nano).1
      | false ↦ elim has_stop_history [
        | false ↦ db
        | true ↦
            (record_stop_outcome r z cp db p.route_id p.station_id p.hour p.observed_max now nano).1
      ]
    ]

    -- The finalized predictions, in order; `nano i` is the reading of the clock for the i-th.
    finalize_all :
        List (PendingPrediction f.F) → ℕ → r.Db → ℤ → (ℕ → ℤ) → List (PendingPrediction f.F) × r.Db
    unfolding resolve_outcome record_outcome
    finalize_all [] i db now nano = ([], db)
    finalize_all (p ∷ rest) i db now nano =
        let (p', db1) = resolve_outcome db p in
        let (out, db2) = finalize_all rest (i + 1) (record_outcome db1 p' now (nano i)) now nano in
        (p' ∷ out, db2)

    -- What was finalized, for the metrics, or the error.
    unfoldable pub sweep_once :
        r.Db → ℤ → (ℕ → ℤ) → Reply r.Error (List (PendingPrediction f.F)) × r.Db
    unfolding finalize_all
    sweep_once db now nano =
        let (reply, db1) = pop_expired r z c db now sweep_batch_size in
        elim reply [
          | err e ↦ (err e, db1)
          | ok expired ↦ let (out, db2) = finalize_all expired 0 db1 now nano in (ok out, db2)
        ]
