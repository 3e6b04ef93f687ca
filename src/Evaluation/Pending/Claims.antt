-- ===== src/Evaluation/Pending/Claims.antt =====
-- Expired predictions are claimed once: a claim takes the id out of the set by expiry, and what is
-- not in the set cannot be claimed.
use mathlib.Core.List.{Memᴰ}
use mathlib.Core.Path.{subst}
use urban_goggles.Base.{
  ℕ, ℤ, ◌≤ℤ◌, Text, Text_eq, ◌==◌, true, false, Option, none, some, List, [], ◌∷◌, ◌≡◌, refl, sym,
  ap, ◌∙◌, ◌⊎◌, inl, inr, arith, All, All-at, All-map, same_refl, Option-cases, Bool-cases, text_eq,
}
use urban_goggles.External.Redis.{Redis, IsRedis, Reply, ok, err, Reply-cases, Codec}
use urban_goggles.External.SortedSets.{SortedSets, IsSortedSets, IsDistinctList}
use urban_goggles.Evaluation.{PendingPrediction, pending_key, index_key, expiry_key}
use urban_goggles.Evaluation.Pending.{
  parse_reply, get_pending, removal, take_claimed, claim, claim_all, pop_expired,
}

module _ {F : Type 0} (r : Redis) (redis_laws : IsRedis r) (z : SortedSets r)
    (laws : IsSortedSets z) (c : Codec r.Value (PendingPrediction F)) where
  -- The id has a score in the set by expiry.
  due_score : r.Db → Text → Option ℤ
  due_score db id = z.scored db expiry_key id

  -- The document of an id.
  abbrev pub Documents : r.Db → Text → PendingPrediction F → Type 0
  Documents db id p =
      (v : r.Value) × (r.held db (pending_key id) ≡ some v) × (c.unmarshal v ≡ some p)

  pub get_pending-keeps :
      (db : r.Db) (id j m : Text)
      → (r.held (get_pending r z c db id).1 j ≡ r.held db j)
        × (z.scored (get_pending r z c db id).1 j m ≡ z.scored db j m)
  unfolding get_pending
  get_pending-keeps db id j m =
      (redis_laws.held-get db (pending_key id) j, laws.get_scores db (pending_key id) j m)

  parse_reply-Documents :
      (db : r.Db) (id : Text) (p : PendingPrediction F) (reply : Reply r.Error (Option r.Value))
      → ((v : Option r.Value) → reply ≡ ok v → v ≡ r.held db (pending_key id))
      → parse_reply r z c reply ≡ some p
      → Documents db id p
  unfolding parse_reply
  parse_reply-Documents db id p (ok (some v)) is h = (v, sym (is (some v) refl), h)
  parse_reply-Documents db id p (ok none) is h = absurd (ground (arith, h))
  parse_reply-Documents db id p (err e) is h = absurd (ground (arith, h))

  get_pending-Documents :
      (db : r.Db) (id : Text) (p : PendingPrediction F)
      → (get_pending r z c db id).0 ≡ some p
      → Documents db id p
  unfolding get_pending
  get_pending-Documents db id p found =
      parse_reply-Documents db id p (r.get db (pending_key id)).0
        (λ v. redis_laws.get_reply db (pending_key id) v) found

  -- What follows the claim leaves other ids and the set by expiry alone.
  take_claimed-keeps :
      (db : r.Db) (id other m : Text)
      → (id == other) ≡ false
      → (r.held (take_claimed r z c db id).1 (pending_key other) ≡ r.held db (pending_key other))
  unfolding take_claimed removal index_key pending_key text_eq
  take_claimed-keeps db id other m apart = elim (Option-cases (get_pending r z c db id).0) [
    | inl gone ↦ rw (take_claimed, gone) (get_pending-keeps db id (pending_key other) m).0
    | inr (p, found) ↦
        rw (take_claimed, found)
          ((laws.exec_keeps _ (removal r z c p id) (pending_key other) m (refl, (apart, tt))).0
            ∙ (get_pending-keeps db id (pending_key other) m).0)
  ]

  take_claimed-due :
      (db : r.Db) (id m : Text) → due_score (take_claimed r z c db id).1 m ≡ due_score db m
  unfolding take_claimed due_score removal index_key pending_key text_eq
  take_claimed-due db id m = elim (Option-cases (get_pending r z c db id).0) [
    | inl gone ↦ rw (take_claimed, gone) (get_pending-keeps db id expiry_key m).1
    | inr (p, found) ↦
        rw (take_claimed, found)
          ((laws.exec_keeps _ (removal r z c p id) expiry_key m (refl, (refl, tt))).1
            ∙ (get_pending-keeps db id expiry_key m).1)
  ]

  -- A claim ends with the reply to ZREM, or goes on with the document where the id was there.
  claim-cases :
      (db : r.Db) (id : Text)
      → (claim r z c db id ≡ (none, (z.zremove db expiry_key id).1))
        ⊎ (((z.zremove db expiry_key id).0 ≡ ok true)
            × (claim r z c db id ≡ take_claimed r z c (z.zremove db expiry_key id).1 id))
  unfolding claim
  claim-cases db id = elim (Reply-cases (z.zremove db expiry_key id).0) [
    | inr (e, failure) ↦ inl (rw (claim, failure) refl)
    | inl (was_there, replied) ↦ elim (Bool-cases was_there) [
      | inl yes_there ↦ inr (replied ∙ ap ok yes_there, rw (claim, replied, yes_there) refl)
      | inr not_there ↦ inl (rw (claim, replied, not_there) refl)
    ]
  ]

  claim-shrinks :
      (db : r.Db) (id m : Text)
      → (due_score (claim r z c db id).1 m ≡ due_score db m)
        ⊎ (due_score (claim r z c db id).1 m ≡ none)
  unfolding due_score
  claim-shrinks db id m =
      let removed = (z.zremove db expiry_key id).1 in
      elim (claim-cases db id) [
        | inl ended ↦ rw ended (laws.remove_shrinks db expiry_key id expiry_key m)
        | inr (_, went_on) ↦
            rw (went_on, take_claimed-due removed id m)
              (laws.remove_shrinks db expiry_key id expiry_key m)
      ]

  claim-keeps :
      (db : r.Db) (id other : Text)
      → (id == other) ≡ false
      → r.held (claim r z c db id).1 (pending_key other) ≡ r.held db (pending_key other)
  claim-keeps db id other apart =
      let removed = (z.zremove db expiry_key id).1 in
      elim (claim-cases db id) [
        | inl ended ↦ rw ended (laws.remove_holds db expiry_key id (pending_key other))
        | inr (_, went_on) ↦ rw went_on (
            take_claimed-keeps removed id other id apart
            ∙ laws.remove_holds db expiry_key id (pending_key other))
      ]

  take_claimed-found :
      (db : r.Db) (id : Text) (p : PendingPrediction F)
      → (take_claimed r z c db id).0 ≡ some p
      → (get_pending r z c db id).0 ≡ some p
  unfolding take_claimed
  take_claimed-found db id p = elim (Option-cases (get_pending r z c db id).0) [
    | inl gone ↦ rw (take_claimed, gone) (λ h. h)
    | inr (q, found) ↦ rw (take_claimed, found) (λ h. h)
  ]

  -- A claimed prediction was in the set by expiry with its document, and is out of the set.
  claim-takes :
      (db : r.Db) (id : Text) (p : PendingPrediction F)
      → (claim r z c db id).0 ≡ some p
      → Documents db id p × (due_score (claim r z c db id).1 id ≡ none)
  unfolding due_score
  claim-takes db id p =
      let removed = (z.zremove db expiry_key id).1 in
      elim (claim-cases db id) [
        | inl ended ↦ rw ended (λ h. absurd (ground (arith, h)))
        | inr (was_there, went_on) ↦ rw went_on (λ h.
            let (v, holds, decodes) =
              get_pending-Documents removed id p (take_claimed-found removed id p h) in
            (
              (v, sym (laws.remove_holds db expiry_key id (pending_key id)) ∙ holds, decodes),
              take_claimed-due removed id id
                  ∙ rw
                      (
                        laws.remove_scores db expiry_key id expiry_key id true was_there,
                        same_refl expiry_key,
                        same_refl id,
                      )
                      refl,
            ))
      ]

  claim_all-out :
      (ids : List Text) (db : r.Db) (m : Text)
      → due_score db m ≡ none
      → due_score (claim_all r z c ids db).1 m ≡ none
  unfolding claim_all
  claim_all-out [] db m out = out
  claim_all-out (id ∷ ids) db m out =
      claim_all-out ids (claim r z c db id).1 m
        (elim (claim-shrinks db id m) [ inl same ↦ same ∙ out | inr gone ↦ gone ])

  -- The prediction is the document of one of the ids, which is out of the set by expiry at the end.
  abbrev IsTaken : r.Db → r.Db → List Text → PendingPrediction F → Type 0
  IsTaken db end ids p = (id : Text) × Memᴰ id ids × Documents db id p × (due_score end id ≡ none)

  IsTaken-claim :
      (db : r.Db) (id : Text) (ids : List Text) (end : r.Db) (p : PendingPrediction F)
      → All (λ n. (id == n) ≡ false) ids
      → IsTaken (claim r z c db id).1 end ids p
      → IsTaken db end (id ∷ ids) p
  IsTaken-claim db id ids end p apart (other, m, (v, holds, decodes), out) = (
    other,
    Memᴰ.tail m,
    (v, sym (claim-keeps db id other (All-at _ other ids m apart)) ∙ holds, decodes),
    out,
  )

  claim_all-IsTaken :
      (ids : List Text) (db : r.Db)
      → IsDistinctList ids
      → All (IsTaken db (claim_all r z c ids db).1 ids) (claim_all r z c ids db).0
  unfolding claim_all
  claim_all-IsTaken [] db distinct = tt
  claim_all-IsTaken (id ∷ ids) db distinct =
      let db1 = (claim r z c db id).1 in
      let later =
        All-map _ (IsTaken db (claim_all r z c ids db1).1 (id ∷ ids)) _
          (λ p. IsTaken-claim db id ids _ p distinct.0) (claim_all-IsTaken ids db1 distinct.1) in
      elim (Option-cases (claim r z c db id).0) [
        | inl nothing ↦ rw (claim_all, nothing) later
        | inr (p, found) ↦
            let (documents, out) = claim-takes db id p found in
            rw (claim_all, found)
              ((id, Memᴰ.head refl, documents, claim_all-out ids db1 id out), later)
      ]

  -- The prediction is stored under an id whose window had ended, and that id is out of the set by
  -- expiry at the end.
  abbrev pub IsClaimed : r.Db → r.Db → ℤ → PendingPrediction F → Type 0
  IsClaimed db end now p =
      (id : Text) × (expires : ℤ) × Documents db id p
      × (z.scored db expiry_key id ≡ some expires)
      × (expires ≤ℤ now)
      × (z.scored end expiry_key id ≡ none)

  taken-IsClaimed :
      (db : r.Db) (now : ℤ) (limit : ℕ) (ids : List Text)
      → (z.zrange_by_score db expiry_key none (some now) (some limit)).0 ≡ ok ids
      → (end : r.Db) (p : PendingPrediction F)
      → IsTaken (z.zrange_by_score db expiry_key none (some now) (some limit)).1 end ids p
      → IsClaimed db end now p
  unfolding due_score
  taken-IsClaimed db now limit ids replied end p (id, m, (v, holds, decodes), out) =
      let (s, scored, between) =
        laws.range_sound db expiry_key id none (some now) (some limit) ids replied m in
      (
        id,
        s,
        (
          v,
          sym (laws.range_reads db expiry_key (pending_key id) none (some now) (some limit))
              ∙ holds,
          decodes,
        ),
        scored,
        between,
        out,
      )

  -- Every prediction that `PopExpired` returns was stored under an id that the set by expiry had
  -- with a time of `now` or before, and the id is out of the set afterwards.
  pub pop_expired-IsClaimed :
      (db : r.Db) (now : ℤ) (limit : ℕ) (out : List (PendingPrediction F))
      → (pop_expired r z c db now limit).0 ≡ ok out
      → All (IsClaimed db (pop_expired r z c db now limit).1 now) out
  unfolding pop_expired due_score
  pop_expired-IsClaimed db now limit out =
      let ranged = z.zrange_by_score db expiry_key none (some now) (some limit) in
      elim (Reply-cases ranged.0) [
        | inr (e, failure) ↦ rw (pop_expired, failure) (λ h. absurd (ground (arith, h)))
        | inl (ids, replied) ↦
            let distinct =
              laws.range_distinct db expiry_key none (some now) (some limit) ids replied in
            rw (pop_expired, replied)
              (λ h.
                subst (All (IsClaimed db (claim_all r z c ids ranged.1).1 now))
                  {x = (claim_all r z c ids ranged.1).0} {y = out} (ground (arith, h))
                  (All-map _ (IsClaimed db (claim_all r z c ids ranged.1).1 now) _
                    (λ p. taken-IsClaimed db now limit ids replied _ p)
                    (claim_all-IsTaken ids ranged.1 distinct)))
      ]

  -- An id is claimed once: where a claim yields a prediction, the next claim of the id yields none.
  claim-once :
      (db : r.Db) (id : Text) (p : PendingPrediction F)
      → (claim r z c db id).0 ≡ some p
      → (claim r z c (claim r z c db id).1 id).0 ≡ none
  unfolding due_score
  claim-once db id p found =
      let db1 = (claim r z c db id).1 in
      elim (claim-cases db1 id) [
        | inl ended ↦ rw ended refl
        | inr (was_there, _) ↦
            let (s, scored) = (laws.remove_reply db1 expiry_key id true was_there).0 refl in
            absurd (ground (arith, scored, (claim-takes db id p found).1))
      ]
