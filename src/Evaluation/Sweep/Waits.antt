-- ===== src/Evaluation/Sweep/Waits.antt =====
-- The wait that passengers of a primary prediction had.
use mathlib.Core.Option.{some-injective}
use urban_goggles.Base.{
  ℤ, pos, ◌≤ℤ◌, ◌<ℤ◌, ltb_ℤ, leb_ℤ, add64, Text, true, false, none, some, List, [], ◌∷◌, ◌++◌, ◌≡◌,
  ◌⊎◌, refl, sym, ap, ◌∙◌, arith, All, Bool-cases, Option-cases, inl, inr,
}
use urban_goggles.External.Redis.{Redis, IsRedis, Reply-cases, err, Codec}
use urban_goggles.External.Float.{Float64}
use urban_goggles.Graph.{
  TransitGraph, ScheduledStopTime, get_next_departures, get_scheduled_stop_time,
}
use urban_goggles.State.{DelayState, delay_key, get_delay}
use urban_goggles.State.Store.{view, get_delay_answered, get_delay_refused}
use urban_goggles.Evaluation.{PendingPrediction, prediction_window_secs}
use urban_goggles.Evaluation.Sweep.{
  candidate_delay, delay_or_zero, wrong_direction, wait_of, wait_loop, realized_wait,
}

module _ (f : Float64) (r : Redis) (cs : Codec r.Value (DelayState f.F)) (g : TransitGraph)
    (p : PendingPrediction f.F) (db : r.Db) where
  -- The server after some reads holds what it did.
  abbrev Same : r.Db → Type 0
  Same db' = (j : Text) → r.held db' j ≡ r.held db j

  -- What the server held at the start makes of a train's delay: 0 for a train without a row at the
  -- station or without a readable state.
  unfoldable pub held_delay : ScheduledStopTime → ℤ
  unfolding delay_or_zero
  held_delay st = elim (get_scheduled_stop_time g st.trip_id p.source_station) [
    | none ↦ pos 0
    | some row ↦
        delay_or_zero f r cs g (view f r cs g db (delay_key p.agency_id st.trip_id row.stop_id))
  ]

  -- The read of the train's state was refused, at a server that holds the same.
  abbrev pub IsRefused : ScheduledStopTime → Type 0
  IsRefused st =
      (row : ScheduledStopTime) × (db' : r.Db) × (e : r.Error) × (get_scheduled_stop_time g
          st.trip_id p.source_station
        ≡ some row)
      × ((j : Text) → r.held db' j ≡ r.held db j)
      × ((r.get db' (delay_key p.agency_id st.trip_id row.stop_id)).0 ≡ err e)

  -- The delay that counts for a train.
  abbrev pub IsDelay : ScheduledStopTime → ℤ → Type 0
  IsDelay st delay = (delay ≡ held_delay st) ⊎ (IsRefused st × (delay ≡ pos 0))

  -- A train that the passenger could not take: in the other direction, or gone too early.
  abbrev pub IsPassed : ScheduledStopTime → Type 0
  IsPassed st =
      (wrong_direction g p st ≡ true)
      ⊎ ((delay : ℤ) × IsDelay st delay × (add64 st.departure_secs delay <ℤ p.earliest_catch_secs))

  -- The wait is that for the first train of a list that the passenger could take: all before it are
  -- passed; it left within half an hour of the earliest time that the passenger could catch one, in
  -- the prediction's direction as far as it is known, and by its departure and its delay not before
  -- that time. The wait is counted to that moment.
  abbrev pub IsBoarded : List ScheduledStopTime → ℤ → Type 0
  IsBoarded deps wait =
      (before : List ScheduledStopTime) × (st : ScheduledStopTime) × (after : List
        ScheduledStopTime)
      × (delay : ℤ) × (deps ≡ before ++ st ∷ after)
      × All IsPassed before
      × (st.departure_secs ≤ℤ add64 p.earliest_catch_secs prediction_window_secs)
      × (wrong_direction g p st ≡ false)
      × IsDelay st delay
      × (p.earliest_catch_secs ≤ℤ add64 st.departure_secs delay)
      × (wait ≡ wait_of p (add64 st.departure_secs delay))
      × (pos 0 ≤ℤ wait)

  wait_of-positive : (realized : ℤ) → pos 0 ≤ℤ wait_of p realized
  unfolding wait_of
  wait_of-positive realized = ground arith

  IsBoarded-tail :
      (st : ScheduledStopTime) (rest : List ScheduledStopTime) (wait : ℤ)
      → IsPassed st
      → IsBoarded rest wait
      → IsBoarded (st ∷ rest) wait
  IsBoarded-tail st rest wait passed
        (before, b, after, delay, split, all, soon, along, is, caught, same, positive) =
      (
        st ∷ before,
        b,
        after,
        delay,
        ap (λ xs. st ∷ xs) split,
        (passed, all),
        soon,
        along,
        is,
        caught,
        same,
        positive,
      )

  module _ (laws : IsRedis r) where
    candidate_delay-IsDelay :
        (st : ScheduledStopTime) (db' : r.Db)
        → Same db'
        → let read = candidate_delay f r cs g db' p st in IsDelay st read.0 × Same read.1
    unfolding candidate_delay held_delay get_delay
    candidate_delay-IsDelay st db' same =
        elim (Option-cases (get_scheduled_stop_time g st.trip_id p.source_station)) [
          | inl missing ↦ rw (candidate_delay, held_delay, missing) (inl refl, same)
          | inr (row, there) ↦
              let key = delay_key p.agency_id st.trip_id row.stop_id in
              let kept : Same (r.get db' key).1 = λ j. laws.held-get db' key j ∙ same j in
              elim (Reply-cases (r.get db' key).0) [
                | inl (found, replied) ↦
                    let value = laws.get_reply db' key found replied ∙ same key in
                    let answer =
                      get_delay_answered f r cs g db db' p.agency_id st.trip_id row.stop_id found
                        replied value in
                    rw (candidate_delay, held_delay, there)
                      (inl (ap (delay_or_zero f r cs g) answer), kept)
                | inr (e, replied) ↦
                    let refusal =
                      get_delay_refused f r cs g db' p.agency_id st.trip_id row.stop_id e replied in
                    let zero = ap (delay_or_zero f r cs g) refusal in
                    rw (candidate_delay, there)
                      (inr ((row, db', e, refl, same, replied), zero), kept)
              ]
        ]

    wait_loop-IsBoarded :
        (deps : List ScheduledStopTime) (db' : r.Db) (wait : ℤ)
        → Same db'
        → (wait_loop f r cs g p deps db').0 ≡ some wait
        → IsBoarded deps wait
    unfolding wait_loop
    wait_loop-IsBoarded [] db' wait same = λ h. absurd (ground (arith, h))
    wait_loop-IsBoarded (st ∷ rest) db' wait same =
        elim (Bool-cases
          (ltb_ℤ (add64 p.earliest_catch_secs prediction_window_secs) st.departure_secs)) [
            | inl late ↦ rw (wait_loop, late) (λ h. absurd (ground (arith, h)))
            | inr soon ↦ elim (Bool-cases (wrong_direction g p st)) [
              | inl away ↦
                  rw (wait_loop, soon, away)
                    (λ h.
                      IsBoarded-tail st rest wait (inl away)
                        (wait_loop-IsBoarded rest db' wait same h))
              | inr along ↦
                  let read = candidate_delay f r cs g db' p st in
                  let (is_delay, kept) = candidate_delay-IsDelay st db' same in
                  elim (Bool-cases (leb_ℤ p.earliest_catch_secs (add64 st.departure_secs read.0))) [
                    | inl caught ↦
                        rw (wait_loop, soon, along, caught)
                          (λ h.
                            let counted = sym (some-injective _ wait h) in
                            (
                              [],
                              st,
                              rest,
                              read.0,
                              refl,
                              tt,
                              ground (arith, soon),
                              along,
                              is_delay,
                              ground (arith, caught),
                              counted,
                              rw counted (wait_of-positive _),
                            ))
                    | inr missed ↦
                        rw (wait_loop, soon, along, missed)
                          (λ h.
                            IsBoarded-tail st rest wait
                              (inr (read.0, is_delay, ground (arith, missed)))
                              (wait_loop-IsBoarded rest read.1 wait kept h))
                  ]
            ]
          ]

    -- A realized wait is that for the first train that the passenger could take, as `IsBoarded`
    -- says, among the ten departures of the route from the scheduled connection on, with the delays
    -- that the server holds at the start, a read that is refused counting as no delay; and it is not
    -- negative.
    pub realized_wait-IsBoarded :
        (wait : ℤ)
        → (realized_wait f r cs g db p).0 ≡ some wait
        → IsBoarded
            (get_next_departures g p.source_station p.route_id p.sched_conn_dep_secs 10)
            wait
    unfolding realized_wait
    realized_wait-IsBoarded wait = wait_loop-IsBoarded _ db wait (λ j. refl)
