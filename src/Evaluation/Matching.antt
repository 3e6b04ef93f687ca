-- ===== src/Evaluation/Matching.antt =====
-- `OnDelayEvent` of internal/evaluation/evaluator.go: observed delays against the predictions that
-- wait for them. `now` is the clock's reading.
pub mod Maximum
use urban_goggles.Base.{
  ℤ, pos, ltb_ℤ, leb_ℤ, int_eq, sub32, Text, Text_eq, is_empty, Bool, true, false, not, ◌&&◌, ◌||◌,
  Option, none, some, List, [], ◌∷◌, lookup, if◌then◌else◌,
}
use urban_goggles.External.Redis.{Redis, Reply, ok, err, Codec}
use urban_goggles.External.SortedSets.{SortedSets}
use urban_goggles.Transit.{DelayEvent, is_delay_type}
use urban_goggles.Graph.{TransitGraph, read_or, parent_station_id}
use urban_goggles.State.{Failure, redis, event_route}
use urban_goggles.Evaluation.{PendingPrediction}
use urban_goggles.Evaluation.Pending.{find_active, update_pending}

module _ {F : Type 0} where
  -- The direction of an event is `none` where its trip is not in the schedule.
  unfoldable pub concerns : DelayEvent → Option ℤ → PendingPrediction F → Bool
  concerns ev dir p =
      not (ltb_ℤ ev.observed_at p.created_at || ltb_ℤ p.expires_at ev.observed_at)
      && not (
          leb_ℤ (pos 0) p.direction
          && elim dir [ none ↦ false | some d ↦ not (int_eq d p.direction) ])

  unfoldable pub additional_delay : DelayEvent → PendingPrediction F → ℤ
  additional_delay ev p =
      let additional = sub32 ev.delay_seconds p.baseline_secs in
      if ltb_ℤ additional (pos 0) then pos 0 else additional

  -- The prediction to be rewritten, `none` where the event changes nothing.
  unfoldable pub observe :
      DelayEvent → Option ℤ → PendingPrediction F → Option (PendingPrediction F)
  unfolding concerns additional_delay
  observe ev dir p =
      let additional = additional_delay ev p in
      if concerns ev dir p && (not p.matched || ltb_ℤ p.observed_max additional)
      then some (record p { matched = true; observed_max = additional })
      else none

-- The first error is kept.
unfoldable pub first_error : {E : Type 0} → Option E → Option E → Option E
first_error none e = e
first_error (some first) e = some first

module _ {F : Type 0} (r : Redis) (z : SortedSets r) (c : Codec r.Value (PendingPrediction F))
    (g : TransitGraph) (agency_id : Text) where
  match_all :
      DelayEvent
      → Option ℤ
      → List (PendingPrediction F)
      → r.Db
      → Option (Failure r.Error)
      → Option (Failure r.Error) × r.Db
  unfolding first_error
  match_all ev dir [] db first = (first, db)
  match_all ev dir (p ∷ rest) db first = elim (observe ev dir p) [
    | none ↦ match_all ev dir rest db first
    | some p' ↦
        let (e, db') = update_pending r z c db p' in match_all ev dir rest db' (first_error first e)
  ]

  match_at : r.Db → DelayEvent → Text → ℤ → Option (Failure r.Error) × r.Db
  unfolding match_all
  match_at db ev route_id now =
      let (found, db1) =
        find_active r z c db agency_id route_id (parent_station_id g ev.stop_id) now in
      elim found [
        | err e ↦ (some (redis e), db1)
        | ok pendings ↦ match_all ev (lookup ev.trip_id g.trip_direction) pendings db1 none
      ]

  unfoldable pub on_delay_event : r.Db → DelayEvent → ℤ → Option (Failure r.Error) × r.Db
  unfolding match_at
  on_delay_event db ev now =
      if not (is_delay_type ev.event_type)
      then (none, db)
      else if is_empty (event_route g ev)
      then (none, db)
      else match_at db ev (event_route g ev) now
