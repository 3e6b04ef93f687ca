-- ===== src/State/Retraction.antt =====
-- Cancellations and skipped stops in internal/state/manager.go: they remove states and write none.
use urban_goggles.Base.{
  Text, Text_eq, ◌==◌, none, List, [], ◌∷◌, ◌++◌, ◌≡◌, ◌≢◌, refl, ap, inl, inr, arith, exists_in,
  starts_with, starts_with-cases, if◌then◌else◌, Bool-cases, Option-cases,
}
use urban_goggles.External.Redis.{Redis, IsRedis, ok, Codec, IsGlobFree}
use urban_goggles.External.Float.{Float64}
use urban_goggles.Graph.{TransitGraph}
use urban_goggles.Transit.{DelayEvent, trip_cancelled, skip_stop}
use urban_goggles.State.{
  DelayState, trip_prefix, event_key, decode, as_failure, del_keys, clear_trip_delays, process_type,
  process_event,
}
use urban_goggles.State.Store.{view}

module _ (f : Float64) (r : Redis) (laws : IsRedis r) (c : Codec r.Value (DelayState f.F))
    (g : TransitGraph) where
  held-del_keys :
      (db : r.Db) (ks : List Text) (j : Text)
      → (del_keys f r c g db ks).0 ≡ none
      → r.held (del_keys f r c g db ks).1 j
        ≡ (if exists_in (λ k. k == j) ks then none else r.held db j)
  unfolding del_keys exists_in
  held-del_keys db [] j h = refl
  held-del_keys db (k ∷ ks) j h = unfold exists_in in ground (arith, laws.held-del db (k ∷ ks) j)

  held-clear_trip_delays :
      (db : r.Db) (agency_id trip_id j : Text)
      → (clear_trip_delays f r c g db agency_id trip_id).0 ≡ none
      → let scanned = r.scan db (trip_prefix agency_id trip_id ++ b'*' ∷ []) in
        (scanned.0.1 ≡ none)
        × (r.held (clear_trip_delays f r c g db agency_id trip_id).1 j
            ≡ (if exists_in (λ k. k == j) scanned.0.0 then none else r.held db j))
  unfolding clear_trip_delays
  held-clear_trip_delays db agency_id trip_id j h =
      let scanned = r.scan db (trip_prefix agency_id trip_id ++ b'*' ∷ []) in
      elim (Option-cases scanned.0.1) [
        | inl e ↦ (
          e,
          ground (
            arith,
            e,
            held-del_keys scanned.1 scanned.0.0 j,
            laws.held-scan db (trip_prefix agency_id trip_id ++ b'*' ∷ []) j,
          ),
        )
        | inr (x, e) ↦ absurd (ground (arith, e))
      ]

  view-skip_stop :
      (db : r.Db) (ev : DelayEvent) (j : Text)
      → (process_type f r c g skip_stop db ev).0 ≡ none
      → view f r c g (process_type f r c g skip_stop db ev).1 j
        ≡ (if event_key ev == j then ok none else view f r c g db j)
  unfolding process_type exists_in view decode as_failure
  view-skip_stop db ev j h = elim (Option-cases (r.del db (event_key ev ∷ [])).0) [
    | inl e ↦ ground (arith, e, laws.held-del db (event_key ev ∷ []) j)
    | inr (x, e) ↦ absurd (ground (arith, e))
  ]

  -- If a skipped stop is processed without an error, the server then holds no state for the
  -- event's key, and for any other key what it held before.
  process_event-skips :
      (db : r.Db) (ev : DelayEvent) (j : Text)
      → ev.event_type ≡ skip_stop
      → (process_event f r c g db ev).0 ≡ none
      → view f r c g (process_event f r c g db ev).1 j
        ≡ (if event_key ev == j then ok none else view f r c g db j)
  unfolding process_event event_key
  process_event-skips db ev j t h = rw t (view-skip_stop db ev j (rw t at h))

  view-cancelled :
      (db : r.Db) (ev : DelayEvent) (j : Text)
      → ev.event_type ≡ trip_cancelled
      → (process_event f r c g db ev).0 ≡ none
      → let scanned = r.scan db (trip_prefix ev.agency_id ev.trip_id ++ b'*' ∷ []) in
        (scanned.0.1 ≡ none)
        × (r.held (process_event f r c g db ev).1 j
            ≡ (if exists_in (λ k. k == j) scanned.0.0 then none else r.held db j))
  unfolding process_event process_type
  view-cancelled db ev j t h =
      rw t (held-clear_trip_delays db ev.agency_id ev.trip_id j (rw t at h))

  view-cancelled_own :
      (db : r.Db) (ev : DelayEvent) (s : Text)
      → ev.event_type ≡ trip_cancelled
      → IsGlobFree (trip_prefix ev.agency_id ev.trip_id)
      → (process_event f r c g db ev).0 ≡ none
      → view f r c g (process_event f r c g db ev).1 (trip_prefix ev.agency_id ev.trip_id ++ s)
        ≡ ok none
  unfolding view decode
  view-cancelled_own db ev s t globless h =
      let p = trip_prefix ev.agency_id ev.trip_id in
      let k = p ++ s in
      let (ended, held) = view-cancelled db ev k t h in
      let gone : r.held (process_event f r c g db ev).1 k ≡ none =
        elim (Option-cases (r.held db k)) [
          | inl e ↦ ground (arith, e, held)
          | inr (v, e) ↦
              ground (arith, held, laws.scan_yields db p s globless ended (ground (arith, e)))
        ] in
      ap (decode f r c g) gone

  view-cancelled_other :
      (db : r.Db) (ev : DelayEvent) (j : Text)
      → ev.event_type ≡ trip_cancelled
      → IsGlobFree (trip_prefix ev.agency_id ev.trip_id)
      → (process_event f r c g db ev).0 ≡ none
      → ((s : Text) → j ≢ trip_prefix ev.agency_id ev.trip_id ++ s)
      → view f r c g (process_event f r c g db ev).1 j ≡ view f r c g db j
  unfolding view
  view-cancelled_other db ev j t globless h apart =
      let p = trip_prefix ev.agency_id ev.trip_id in
      let found = exists_in (λ k. k == j) (r.scan db (p ++ b'*' ∷ [])).0.0 in
      elim (Bool-cases found) [
        | inl seen ↦ let (s, e) = laws.scan_only db p j globless seen in absurd (apart s e)
        | inr unseen ↦ ap (decode f r c g) (ground (arith, unseen, (view-cancelled db ev j t h).1))
      ]

  -- If a cancellation is processed without an error, and no glob character stands in the trip's
  -- key prefix, the server then holds no state for the keys with that prefix, and what it held
  -- before for every other key.
  pub process_event-cancels :
      (db : r.Db) (ev : DelayEvent) (j : Text)
      → ev.event_type ≡ trip_cancelled
      → IsGlobFree (trip_prefix ev.agency_id ev.trip_id)
      → (process_event f r c g db ev).0 ≡ none
      → view f r c g (process_event f r c g db ev).1 j ≡ (
          if starts_with (trip_prefix ev.agency_id ev.trip_id) j
          then ok none
          else view f r c g db j)
  process_event-cancels db ev j t globless h =
      elim (starts_with-cases (trip_prefix ev.agency_id ev.trip_id) j) [
        | inl (same, s, e) ↦ rw (same, e) (view-cancelled_own db ev s t globless h)
        | inr (other, apart) ↦ rw other (view-cancelled_other db ev j t globless h apart)
      ]
