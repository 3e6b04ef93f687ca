-- ===== src/State/Store.antt =====
-- `ProcessEvent` against a map from keys to states: what each kind of event does to the server.
use urban_goggles.Base.{
  ltb_ℤ, Text, Text_eq, text_eq_iff, ◌==◌, true, Option, none, some, ◌≡◌, refl, ap, inl, inr, arith,
  if◌then◌else◌, Bool-cases, Option-cases,
}
use urban_goggles.External.Redis.{Redis, IsRedis, Reply, ok, err, Codec, IsCodec}
use urban_goggles.External.Float.{Float64}
use urban_goggles.Graph.{TransitGraph}
use urban_goggles.Transit.{
  DelayEvent, EventType, arrival_delay, departure_delay, trip_cancelled, skip_stop, is_delay_type,
}
use urban_goggles.State.{
  DelayState, Failure, redis, delay_key, event_key, first_state, reconcile, decode, read_reply,
  get_delay, set_state, store_event, observe_event, process_type, process_event, key_ttl,
}

-- What the state of a key becomes when a delay is observed.
unfoldable pub observed :
    (f : Float64) → TransitGraph → DelayEvent → Option (DelayState f.F) → DelayState f.F
observed f g ev none = first_state f g ev
observed f g ev (some existing) =
    if ltb_ℤ ev.observed_at existing.observed_at then existing else reconcile f g existing ev

abbrev pub map_reply {ℓ} : {E A B : Type ℓ} → (A → B) → Reply E A → Reply E B
map_reply h (ok a) = ok (h a)
map_reply h (err e) = err e

module _ (f : Float64) (r : Redis) (c : Codec r.Value (DelayState f.F)) (g : TransitGraph) where
  -- The state that the server holds for a key, `err json` if it is no state.
  unfoldable pub view : r.Db → Text → Reply (Failure r.Error) (Option (DelayState f.F))
  unfolding decode
  view db k = decode f r c g (r.held db k)

  -- `GetDelay` by the reply to its read.
  pub get_delay_answered :
      (db db' : r.Db) (agency_id trip_id stop_id : Text) (found : Option r.Value)
      → let key = delay_key agency_id trip_id stop_id in
        (r.get db' key).0 ≡ ok found
        → found ≡ r.held db key
        → (get_delay f r c g db' agency_id trip_id stop_id).0 ≡ view db key
  unfolding get_delay read_reply view
  get_delay_answered db db' agency_id trip_id stop_id found replied same =
      rw (get_delay, replied, same) refl

  pub get_delay_refused :
      (db : r.Db) (agency_id trip_id stop_id : Text) (e : r.Error)
      → (r.get db (delay_key agency_id trip_id stop_id)).0 ≡ err e
      → (get_delay f r c g db agency_id trip_id stop_id).0 ≡ err (redis e)
  unfolding get_delay read_reply
  get_delay_refused db agency_id trip_id stop_id e replied = rw (get_delay, replied) refl

module _ (f : Float64) (r : Redis) (laws : IsRedis r) (c : Codec r.Value (DelayState f.F))
    (codec : IsCodec c) (g : TransitGraph) where
  set_state-view :
      (db : r.Db) (k j : Text) (ds : DelayState f.F)
      → (set_state f r c g db k ds).0 ≡ none
      → view f r c g (set_state f r c g db k ds).1 j
        ≡ (if k == j then ok (some ds) else view f r c g db j)
  unfolding set_state view decode
  set_state-view db k j ds h = elim (Option-cases (c.marshal ds)) [
    | inl e ↦ absurd (ground (arith, e))
    | inr (v, e) ↦
        rw (e, set_state)
          (ground (arith, e, laws.held-set db k j v key_ttl, codec.round_trip ds v e))
  ]

  store_event-view :
      (db db1 : r.Db) (ev : DelayEvent) (j : Text)
      → view f r c g db1 j ≡ view f r c g db j
      → (store_event f r c g db1 ev (view f r c g db (event_key ev))).0 ≡ none
      → view f r c g (store_event f r c g db1 ev (view f r c g db (event_key ev))).1 j ≡ (
          if event_key ev == j
          then map_reply (λ o. some (observed f g ev o)) (view f r c g db (event_key ev))
          else view f r c g db j)
  unfolding store_event observed
  store_event-view db db1 ev j same h = go (view f r c g db (event_key ev)) refl h
    where
      go :
          (reply : Reply (Failure r.Error) (Option (DelayState f.F)))
          → view f r c g db (event_key ev) ≡ reply
          → (store_event f r c g db1 ev reply).0 ≡ none
          → view f r c g (store_event f r c g db1 ev reply).1 j ≡ (
              if event_key ev == j
              then map_reply (λ o. some (observed f g ev o)) reply
              else view f r c g db j)
      go (err e) eq h = cc
      go (ok none) eq h =
          ground (arith, set_state-view db1 (event_key ev) j (first_state f g ev) h, same)
      go (ok (some existing)) eq h = elim (Bool-cases (ltb_ℤ ev.observed_at existing.observed_at)) [
        | inl stale ↦
            rw (stale, store_event, observed)
              (ground (arith, eq, same, text_eq_iff (event_key ev) j))
        | inr newer ↦
            let h' : (set_state f r c g db1 (event_key ev) (reconcile f g existing ev)).0 ≡ none =
              rw (newer, store_event) at h in
            rw (newer, store_event, observed)
              (ground
                (arith, set_state-view db1 (event_key ev) j (reconcile f g existing ev) h', same))
      ]

  observe_event-view :
      (db : r.Db) (ev : DelayEvent) (j : Text)
      → (observe_event f r c g db ev).0 ≡ none
      → view f r c g (observe_event f r c g db ev).1 j ≡ (
          if event_key ev == j
          then map_reply (λ o. some (observed f g ev o)) (view f r c g db (event_key ev))
          else view f r c g db j)
  unfolding observe_event get_delay event_key
  observe_event-view db ev j h = go (r.get db (event_key ev)).0 refl h
    where
      db1 : r.Db
      db1 = (r.get db (event_key ev)).1

      same : view f r c g db1 j ≡ view f r c g db j
      same = unfold view in ap (decode f r c g) (laws.held-get db (event_key ev) j)

      go :
          (reply : Reply r.Error (Option r.Value))
          → (r.get db (event_key ev)).0 ≡ reply
          → (store_event f r c g db1 ev (read_reply f r c g reply)).0 ≡ none
          → view f r c g (store_event f r c g db1 ev (read_reply f r c g reply)).1 j ≡ (
              if event_key ev == j
              then map_reply (λ o. some (observed f g ev o)) (view f r c g db (event_key ev))
              else view f r c g db j)
      go (err e) eq h = unfold store_event in cc
      go (ok v) eq h =
          let found : read_reply f r c g (ok v) ≡ view f r c g db (event_key ev) =
            unfold view in ap (decode f r c g) (laws.get_reply db (event_key ev) v eq) in
          rw found (store_event-view db db1 ev j same (rw found at h))

  -- If an arrival or departure event is processed without an error, the server then holds for the
  -- event's key the first state of the event, the state that was there if it is newer, or the two
  -- reconciled, and for any other key what it held before.
  pub process_event-observes :
      (db : r.Db) (ev : DelayEvent) (j : Text)
      → is_delay_type ev.event_type ≡ true
      → (process_event f r c g db ev).0 ≡ none
      → view f r c g (process_event f r c g db ev).1 j ≡ (
          if event_key ev == j
          then map_reply (λ o. some (observed f g ev o)) (view f r c g db (event_key ev))
          else view f r c g db j)
  unfolding process_event process_type
  process_event-observes db ev j t h = by_type ev.event_type t h
    where
      by_type :
          (ty : EventType)
          → is_delay_type ty ≡ true
          → (process_type f r c g ty db ev).0 ≡ none
          → view f r c g (process_type f r c g ty db ev).1 j ≡ (
              if event_key ev == j
              then map_reply (λ o. some (observed f g ev o)) (view f r c g db (event_key ev))
              else view f r c g db j)
      by_type arrival_delay t h = observe_event-view db ev j h
      by_type departure_delay t h = observe_event-view db ev j h
      by_type trip_cancelled t h = cc
      by_type skip_stop t h = cc
