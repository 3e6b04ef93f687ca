-- ===== src/State.antt =====
-- internal/state/manager.go: reconciled delay state in Redis. Logging and metrics are left out.
pub mod Store
pub mod Retraction
pub mod Smoothing
pub mod Listing
use urban_goggles.Base.{
  ℤ, pos, ltb_ℤ, leb_ℤ, ◌*◌, add64, sub32, abs32, Text, Text_eq, codes, is_empty, ◌==◌, Bool, true,
  false, ◌&&◌, Option, none, some, List, [], ◌∷◌, ◌++◌, lookup, if◌then◌else◌,
}
use urban_goggles.External.Redis.{Redis, Reply, ok, err, Codec}
use urban_goggles.External.Float.{Float64}
use urban_goggles.Graph.{TransitGraph, read_or}
use urban_goggles.Transit.{
  DelayEvent, arrival_delay, departure_delay, trip_cancelled, skip_stop, EventType,
}

-- 2 hours in nanoseconds.
abbrev pub key_ttl : ℤ
key_ttl = pos (2 * 3600 * 1000000000)

abbrev pub smoothing_threshold : ℤ
smoothing_threshold = pos 120

abbrev pub smoothing_max_updates : ℤ
smoothing_max_updates = pos 3

abbrev pub confidence_close_delta : ℤ
confidence_close_delta = pos 30

abbrev pub active_delay_threshold : ℤ
active_delay_threshold = pos 60

pub record DelayState (F : Type 0) : Type 0 where
  pub agency_id : Text
  pub trip_id : Text
  pub route_id : Text
  pub stop_id : Text
  pub delay_seconds : ℤ
  pub observed_at : ℤ
  pub confidence : F
  pub update_count : ℤ

pub data Failure (E : Type 0) : Type 0 where
  redis : E → Failure E
  json : Failure E

-- `delay:%s:%s:`, before the stop.
unfoldable pub trip_prefix : Text → Text → Text
trip_prefix agency_id trip_id = codes "delay:" ++ (agency_id ++ (b':' ∷ (trip_id ++ b':' ∷ [])))

unfoldable pub delay_key : Text → Text → Text → Text
delay_key agency_id trip_id stop_id = trip_prefix agency_id trip_id ++ stop_id

unfoldable pub event_key : DelayEvent → Text
event_key ev = delay_key ev.agency_id ev.trip_id ev.stop_id

-- The route of an event, looked up by its trip where the feed gives none.
unfoldable pub event_route : TransitGraph → DelayEvent → Text
event_route g ev =
    if is_empty ev.route_id then read_or [] (lookup ev.trip_id g.trip_route) else ev.route_id

module _ (f : Float64) where
  abbrev pub confidence_init : f.F
  confidence_init = f.lit 5 1

  abbrev pub confidence_step : f.F
  confidence_step = f.lit 1 1

  abbrev pub confidence_max : f.F
  confidence_max = f.lit 1 0

  -- 0.7 * incoming + 0.3 * stored, rounded.
  unfoldable pub smooth : ℤ → ℤ → ℤ
  smooth incoming stored =
      f.round_int32
        (f.add (f.mul (f.lit 7 1) (f.of_int incoming)) (f.mul (f.lit 3 1) (f.of_int stored)))

  unfoldable pub final_delay : DelayState f.F → ℤ → ℤ
  unfolding smooth
  final_delay existing incoming =
      if ltb_ℤ smoothing_threshold (abs32 (sub32 incoming existing.delay_seconds))
        && ltb_ℤ existing.update_count smoothing_max_updates
      then smooth incoming existing.delay_seconds
      else incoming

  unfoldable pub next_confidence : DelayState f.F → ℤ → f.F
  next_confidence existing incoming =
      if leb_ℤ (abs32 (sub32 incoming existing.delay_seconds)) confidence_close_delta
      then (let conf = f.add existing.confidence confidence_step in
          if f.ltf confidence_max conf then confidence_max else conf)
      else confidence_init

  unfoldable pub first_state : TransitGraph → DelayEvent → DelayState f.F
  first_state g ev = record {
    agency_id = ev.agency_id;
    trip_id = ev.trip_id;
    route_id = event_route g ev;
    stop_id = ev.stop_id;
    delay_seconds = ev.delay_seconds;
    observed_at = ev.observed_at;
    confidence = confidence_init;
    update_count = pos 1;
  }

  unfoldable pub reconcile : TransitGraph → DelayState f.F → DelayEvent → DelayState f.F
  reconcile g existing ev = record {
    agency_id = ev.agency_id;
    trip_id = ev.trip_id;
    route_id = event_route g ev;
    stop_id = ev.stop_id;
    delay_seconds = final_delay existing ev.delay_seconds;
    observed_at = ev.observed_at;
    confidence = next_confidence existing ev.delay_seconds;
    update_count = add64 existing.update_count (pos 1);
  }

module _ (f : Float64) (r : Redis) (c : Codec r.Value (DelayState f.F)) (g : TransitGraph) where
  decode : Option r.Value → Reply (Failure r.Error) (Option (DelayState f.F))
  decode none = ok none
  decode (some raw) = elim (c.unmarshal raw) [ none ↦ err json | some ds ↦ ok (some ds) ]

  read_reply : Reply r.Error (Option r.Value) → Reply (Failure r.Error) (Option (DelayState f.F))
  unfolding decode
  read_reply (err e) = err (redis e)
  read_reply (ok v) = decode v

  -- `ok none` is redis.Nil, which `GetDelay` turns into (nil, nil).
  unfoldable pub get_delay :
      r.Db → Text → Text → Text → Reply (Failure r.Error) (Option (DelayState f.F)) × r.Db
  unfolding read_reply
  get_delay db agency_id trip_id stop_id =
      let (reply, db') = r.get db (delay_key agency_id trip_id stop_id) in (read_reply reply, db')

  as_failure : Option r.Error → Option (Failure r.Error)
  as_failure none = none
  as_failure (some e) = some (redis e)

  unfoldable pub set_state : r.Db → Text → DelayState f.F → Option (Failure r.Error) × r.Db
  unfolding as_failure
  set_state db key ds = elim (c.marshal ds) [
    | none ↦ (some json, db)
    | some v ↦ let (e, db') = r.set db key v key_ttl in (as_failure e, db')
  ]

  del_keys : r.Db → List Text → Option (Failure r.Error) × r.Db
  unfolding as_failure
  del_keys db [] = (none, db)
  del_keys db (k ∷ ks) = let (e, db') = r.del db (k ∷ ks) in (as_failure e, db')

  unfoldable pub clear_trip_delays : r.Db → Text → Text → Option (Failure r.Error) × r.Db
  unfolding del_keys
  clear_trip_delays db agency_id trip_id =
      let ((keys, e), db') = r.scan db (trip_prefix agency_id trip_id ++ b'*' ∷ []) in
      elim e [ some failed ↦ (some (redis failed), db') | none ↦ del_keys db' keys ]

  -- From the reply of `getState` on.
  store_event :
      r.Db
      → DelayEvent
      → Reply (Failure r.Error) (Option (DelayState f.F))
      → Option (Failure r.Error) × r.Db
  store_event db ev (err e) = (some e, db)
  store_event db ev (ok none) = set_state db (event_key ev) (first_state f g ev)
  store_event db ev (ok (some existing)) =
      if ltb_ℤ ev.observed_at existing.observed_at
      then (none, db)
      else set_state db (event_key ev) (reconcile f g existing ev)

  observe_event : r.Db → DelayEvent → Option (Failure r.Error) × r.Db
  unfolding store_event
  observe_event db ev =
      let (reply, db') = get_delay db ev.agency_id ev.trip_id ev.stop_id in store_event db' ev reply

  process_type : EventType → r.Db → DelayEvent → Option (Failure r.Error) × r.Db
  unfolding observe_event as_failure
  process_type trip_cancelled db ev = clear_trip_delays db ev.agency_id ev.trip_id
  process_type skip_stop db ev = let (e, db') = r.del db (event_key ev ∷ []) in (as_failure e, db')
  process_type _ db ev = observe_event db ev

  -- The error, `none` for nil, and the server afterwards.
  unfoldable pub process_event : r.Db → DelayEvent → Option (Failure r.Error) × r.Db
  unfolding process_type
  process_event db ev = process_type ev.event_type db ev
