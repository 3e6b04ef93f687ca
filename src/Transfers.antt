-- ===== src/Transfers.antt =====
-- internal/transfer/detector.go: which connections a delay breaks or puts at risk. A Go map is met
-- in the order of the list. Publishing and logging follow and change nothing here; they are left out.
pub mod Margins
pub mod Impacts
pub mod Reports
pub mod Reads
use urban_goggles.Base.{
  ℕ, ◌+◌, ℤ, pos, leb_ℤ, ltb_ℤ, int_eq, wrap32, add32, sub32, add64, sub64, Text, Text_eq, ◌==◌,
  Bool, Option, none, some, List, [], ◌∷◌, ◌++◌, length, if◌then◌else◌,
}
use urban_goggles.External.Redis.{Redis, Reply, ok, err, Codec}
use urban_goggles.External.Float.{Float64}
use urban_goggles.Transit.{DelayEvent, ImpactLevel, TransferImpact, broken, at_risk}
use urban_goggles.Graph.{
  TransitGraph, Transfer, ScheduledStopTime, secs_since_midnight, get_routes_at_stop,
  get_transfers_from, get_next_departures, next_departures_after, get_scheduled_stop_time,
}
use urban_goggles.State.{DelayState, Failure, get_delay}

abbrev pub at_risk_buffer : ℤ
at_risk_buffer = pos 60

-- `minXferTime`, 2 minutes where the schedule gives none.
unfoldable pub min_transfer : Transfer → ℤ
min_transfer xfer = if leb_ℤ xfer.min_transfer_time (pos 0) then pos 120 else xfer.min_transfer_time

unfoldable pub tod_from_unix : TransitGraph → ℤ → ℤ → ℤ
tod_from_unix g now ts = if int_eq ts (pos 0) then pos 0 else secs_since_midnight g now ts

-- `scheduledArrSecs`.
unfoldable pub arrival_tod : TransitGraph → ℤ → DelayEvent → ℤ
arrival_tod g now ev =
    let tod = tod_from_unix g now ev.scheduled_arrival in
    if int_eq tod (pos 0) then tod_from_unix g now ev.observed_at else tod

-- The level of a remaining margin, `none` where the transfer is fine.
unfoldable pub classify : ℤ → ℤ → Option ImpactLevel
classify remaining min =
    if ltb_ℤ remaining (wrap32 min)
    then some broken
    else if ltb_ℤ remaining (wrap32 (add64 min at_risk_buffer))
    then some at_risk
    else none

-- The trip that can still be caught and the wait for it: `nextViableTripID` and `additionalWait`.
unfoldable pub next_viable : ScheduledStopTime → List ScheduledStopTime → Text × ℤ
next_viable next_dep [] = ([], pos 0)
next_viable next_dep (dep ∷ _) =
    let wait = wrap32 (sub64 dep.departure_secs next_dep.departure_secs) in
    (dep.trip_id, if ltb_ℤ wait (pos 0) then pos 0 else wait)

-- The impact on a connection: `min` is the time that the transfer takes, `eff` the time of day in
-- the frame of the connecting service, `detected` the clock's reading.
module _ (g : TransitGraph) (ev : DelayEvent) (station route : Text) (min eff detected : ℤ) where
  -- The fields that every impact has.
  pub reported : ScheduledStopTime → ℤ → ImpactLevel → TransferImpact
  reported next_dep remaining level = record {
    from_trip_id = ev.trip_id;
    from_route_id = ev.route_id;
    to_route_id = route;
    station_id = station;
    source_delay_seconds = ev.delay_seconds;
    original_transfer_margin_seconds = wrap32 (sub64 next_dep.departure_secs eff);
    remaining_margin_seconds = remaining;
    level = level;
    detected_at = detected;
    next_viable_trip_id = [];
    additional_wait_seconds = pos 0;
    sched_connection_departure_secs = pos 0;
    earliest_catch_secs = pos 0;
  }

  pub impact_of : ScheduledStopTime → ℤ → ImpactLevel → TransferImpact
  unfolding reported
  impact_of next_dep remaining at_risk = reported next_dep remaining at_risk
  impact_of next_dep remaining broken =
      let earliest_catch = add64 (add64 eff ev.delay_seconds) min in
      let (trip, wait) =
        next_viable next_dep (get_next_departures g station route earliest_catch 1) in
      record (reported next_dep remaining broken) {
        next_viable_trip_id = trip;
        additional_wait_seconds = wait;
        sched_connection_departure_secs = wrap32 next_dep.departure_secs;
        earliest_catch_secs = wrap32 earliest_catch;
      }

  -- From the connecting trip's delay on.
  pub judge : ScheduledStopTime → ℤ → Option TransferImpact
  unfolding impact_of
  judge next_dep connecting_delay =
      let margin = wrap32 (sub64 next_dep.departure_secs eff) in
      let remaining = add32 (sub32 margin ev.delay_seconds) connecting_delay in
      elim (classify remaining min) [
        | none ↦ none
        | some level ↦ some (impact_of next_dep remaining level)
      ]

module _ (f : Float64) (r : Redis) (c : Codec r.Value (DelayState f.F)) (g : TransitGraph) where
  pub observed_delay : Reply (Failure r.Error) (Option (DelayState f.F)) → ℤ
  observed_delay (ok (some ds)) = ds.delay_seconds
  observed_delay _ = pos 0

  unfoldable pub trip_delay_at : r.Db → Text → Text → Text → ℤ × r.Db
  unfolding observed_delay
  trip_delay_at db agency_id trip_id station_id =
      elim (get_scheduled_stop_time g trip_id station_id) [
        | none ↦ (pos 0, db)
        | some row ↦
            let (reply, db') = get_delay f r c g db agency_id trip_id row.stop_id in
            (observed_delay reply, db')
      ]

  -- `now` is the clock's reading at the start, `detected i` that for impact i.
  module _ (ev : DelayEvent) (now : ℤ) (detected : ℕ → ℤ) where
    -- The departures of the connecting route, from the first one that the transfer leaves time for.
    pub first_connection :
        r.Db → ℕ → Text → Text → ℤ → ℤ → List ScheduledStopTime → Option TransferImpact × r.Db
    unfolding judge
    first_connection db i station route min eff [] = (none, db)
    first_connection db i station route min eff (next_dep ∷ _) =
        let (delay, db') = trip_delay_at db ev.agency_id next_dep.trip_id station in
        (judge g ev station route min eff (detected i) next_dep delay, db')

    -- The body of the inner loop.
    pub check_route : r.Db → ℕ → Transfer → Text → Option TransferImpact × r.Db
    unfolding first_connection
    check_route db i xfer route =
        let min = min_transfer xfer in
        let (_, eff) = next_departures_after g xfer.to_stop_id route (arrival_tod g now ev) 1 in
        if route == ev.route_id
        then (none, db)
        else first_connection db i xfer.to_stop_id route min eff
            (get_next_departures g xfer.to_stop_id route (add64 eff min) 3)

    pub check_routes : r.Db → ℕ → Transfer → List Text → List TransferImpact × r.Db
    unfolding check_route
    check_routes db i xfer [] = ([], db)
    check_routes db i xfer (route ∷ rest) =
        let (impact, db1) = check_route db i xfer route in
        elim impact [
          | none ↦ check_routes db1 i xfer rest
          | some imp ↦ let (more, db2) = check_routes db1 (i + 1) xfer rest in (imp ∷ more, db2)
        ]

    pub check_transfers : r.Db → ℕ → List Transfer → List TransferImpact × r.Db
    unfolding check_routes
    check_transfers db i [] = ([], db)
    check_transfers db i (xfer ∷ rest) =
        let (here, db1) = check_routes db i xfer (get_routes_at_stop g xfer.to_stop_id) in
        let (more, db2) = check_transfers db1 (i + length here) rest in (here ++ more, db2)

    unfoldable pub evaluate_delay : r.Db → List TransferImpact × r.Db
    unfolding check_transfers
    evaluate_delay db =
        if leb_ℤ ev.delay_seconds (pos 0)
        then ([], db)
        else check_transfers db 0 (get_transfers_from g ev.stop_id)
