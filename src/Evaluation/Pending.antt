-- ===== src/Evaluation/Pending.antt =====
-- internal/evaluation/pending.go: pending predictions in Redis, each a document under its id, with
-- its id in the index of its route and station and in the set by expiry.
pub mod Claims
pub mod Finds
use urban_goggles.Base.{
  ℕ, ℤ, pos, ◌*◌, leb_ℤ, add64, Text, Bool, true, false, Option, none, some, List, [], ◌∷◌,
  if◌then◌else◌,
}
use urban_goggles.External.Redis.{Redis, Reply, ok, err, Codec}
use urban_goggles.External.SortedSets.{SortedSets, Command, set, expire, del, zadd, zrem}
use urban_goggles.State.{Failure, redis, json}
use urban_goggles.Evaluation.{
  PendingPrediction, PendingError, failed, already_expired, pending_key, index_key, expiry_key,
  pending_index_ttl,
}

module _ {F : Type 0} (r : Redis) (z : SortedSets r) (c : Codec r.Value (PendingPrediction F)) where
  add_error : Option r.Error → Option (PendingError r.Error)
  add_error none = none
  add_error (some e) = some (failed (redis e))

  -- The pipeline of `Add`.
  unfoldable pub registration : PendingPrediction F → r.Value → ℤ → List (Command r.Value)
  registration p payload ttl =
      let idx_key = index_key p.agency_id p.route_id p.station_id in
      set (pending_key p.id) payload ttl
      ∷ zadd idx_key p.expires_at p.id
      ∷ expire idx_key pending_index_ttl
      ∷ zadd expiry_key p.expires_at p.id
      ∷ []

  -- `until` stands for time.Until of a Unix second, in nanoseconds.
  unfoldable pub add_pending :
      (ℤ → ℤ) → r.Db → PendingPrediction F → Option (PendingError r.Error) × r.Db
  unfolding add_error
  add_pending until db p = elim (c.marshal p) [
    | none ↦ (some (failed json), db)
    | some payload ↦
        let ttl = add64 (until p.expires_at) (pos (10 * 60 * 1000000000)) in
        if leb_ℤ ttl (pos 0)
        then (some already_expired, db)
        else (let (e, db') = z.exec db (registration p payload ttl) in (add_error e, db'))
  ]

  parse_reply : Reply r.Error (Option r.Value) → Option (PendingPrediction F)
  parse_reply (ok (some v)) = c.unmarshal v
  parse_reply _ = none

  -- `none` stands for any error.
  unfoldable pub get_pending : r.Db → Text → Option (PendingPrediction F) × r.Db
  unfolding parse_reply
  get_pending db id = let (reply, db') = r.get db (pending_key id) in (parse_reply reply, db')

  -- The loop of `FindActive`.
  get_all : List Text → r.Db → List (PendingPrediction F) × r.Db
  unfolding get_pending
  get_all [] db = ([], db)
  get_all (id ∷ ids) db =
      let (p, db1) = get_pending db id in
      let (out, db2) = get_all ids db1 in (elim p [ none ↦ out | some found ↦ found ∷ out ], db2)

  unfoldable pub find_active :
      r.Db → Text → Text → Text → ℤ → Reply r.Error (List (PendingPrediction F)) × r.Db
  unfolding get_all
  find_active db agency_id route_id station_id now =
      let (reply, db1) =
        z.zrange_by_score db (index_key agency_id route_id station_id) (some now) none none in
      elim reply [
        | err e ↦ (err e, db1)
        | ok ids ↦ let (out, db2) = get_all ids db1 in (ok out, db2)
      ]

  -- A key that is gone is no error.
  set_error : Reply r.Error Bool → Option (Failure r.Error)
  set_error (ok _) = none
  set_error (err e) = some (redis e)

  unfoldable pub update_pending : r.Db → PendingPrediction F → Option (Failure r.Error) × r.Db
  unfolding set_error
  update_pending db p = elim (c.marshal p) [
    | none ↦ (some json, db)
    | some payload ↦
        let (reply, db') = z.set_existing db (pending_key p.id) payload in (set_error reply, db')
  ]

  -- What a claimed prediction still has in Redis.
  unfoldable pub removal : PendingPrediction F → Text → List (Command r.Value)
  removal p id = zrem (index_key p.agency_id p.route_id p.station_id) id ∷ del (pending_key id) ∷ []

  -- After the claim of an id: the prediction, if its document is still there.
  unfoldable pub take_claimed : r.Db → Text → Option (PendingPrediction F) × r.Db
  take_claimed db id =
      let (p, db1) = get_pending db id in
      elim p [ none ↦ (none, db1) | some found ↦ (some found, (z.exec db1 (removal found id)).1) ]

  -- One round of the loop of `PopExpired`.
  unfoldable pub claim : r.Db → Text → Option (PendingPrediction F) × r.Db
  unfolding take_claimed
  claim db id =
      let (removed, db1) = z.zremove db expiry_key id in
      elim removed [
        | err _ ↦ (none, db1)
        | ok was_there ↦ elim was_there [ false ↦ (none, db1) | true ↦ take_claimed db1 id ]
      ]

  unfoldable pub claim_all : List Text → r.Db → List (PendingPrediction F) × r.Db
  unfolding claim
  claim_all [] db = ([], db)
  claim_all (id ∷ ids) db =
      let (p, db1) = claim db id in
      let (out, db2) = claim_all ids db1 in (elim p [ none ↦ out | some found ↦ found ∷ out ], db2)

  unfoldable pub pop_expired : r.Db → ℤ → ℕ → Reply r.Error (List (PendingPrediction F)) × r.Db
  unfolding claim_all
  pop_expired db now limit =
      let (reply, db1) = z.zrange_by_score db expiry_key none (some now) (some limit) in
      elim reply [
        | err e ↦ (err e, db1)
        | ok ids ↦ let (out, db2) = claim_all ids db1 in (ok out, db2)
      ]
