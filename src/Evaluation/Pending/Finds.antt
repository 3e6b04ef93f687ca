-- ===== src/Evaluation/Pending/Finds.antt =====
-- What was added is found again while its window lasts.
use mathlib.Core.List.{Memᴰ}
use mathlib.Core.Path.{subst}
use urban_goggles.Base.{
  ℤ, pos, ◌*◌, leb_ℤ, add64, ◌≤ℤ◌, Text, Text_eq, text_eq, text_eq_iff, ◌==◌, Bool, true, false,
  not, ◌&&◌, ◌||◌, Option, none, some, List, [], ◌∷◌, ◌≡◌, refl, sym, ◌∙◌, inl, inr, arith,
  same_refl, Option-cases, Bool-cases,
}
use urban_goggles.External.Redis.{Redis, IsRedis, Reply, Reply-cases, ok, err, Codec, IsCodec}
use urban_goggles.External.SortedSets.{SortedSets, IsSortedSets}
use urban_goggles.Evaluation.{PendingPrediction, pending_key, index_key, expiry_key}
use urban_goggles.Evaluation.Pending.{
  add_error, add_pending, registration, parse_reply, get_pending, get_all, find_active,
}
use urban_goggles.Evaluation.Pending.Claims.{get_pending-keeps}

expiry-index : (a b s : Text) → (expiry_key == index_key a b s) ≡ false
unfolding index_key text_eq
expiry-index a b s = refl

module _ {F : Type 0} (r : Redis) (redis_laws : IsRedis r) (z : SortedSets r)
    (laws : IsSortedSets z) (c : Codec r.Value (PendingPrediction F)) (codec_laws : IsCodec c) where
  -- The server has the document of the prediction and its id in the index.
  abbrev Registered : r.Db → PendingPrediction F → Type 0
  Registered db p =
      (v : r.Value) × (r.held db (pending_key p.id) ≡ some v)
      × (c.unmarshal v ≡ some p)
      × (z.scored db (index_key p.agency_id p.route_id p.station_id) p.id ≡ some p.expires_at)

  add_error-none : (e : Option r.Error) → add_error r z c e ≡ none → e ≡ none
  unfolding add_error
  add_error-none none h = refl
  add_error-none (some e) h = absurd (ground (arith, h))

  add_pending-Registered :
      (until : ℤ → ℤ) (db : r.Db) (p : PendingPrediction F)
      → (add_pending r z c until db p).0 ≡ none
      → Registered (add_pending r z c until db p).1 p
  unfolding add_pending registration
  add_pending-Registered until db p = elim (Option-cases (c.marshal p)) [
    | inl refused ↦ rw (add_pending, refused) (λ h. absurd (ground (arith, h)))
    | inr (payload, encoded) ↦
        let ttl = add64 (until p.expires_at) (pos (10 * 60 * 1000000000)) in
        elim (Bool-cases (leb_ℤ ttl (pos 0))) [
          | inl late ↦ rw (add_pending, encoded, late) (λ h. absurd (ground (arith, h)))
          | inr early ↦
              rw (add_pending, encoded, early)
                (λ h.
                  let done = add_error-none (z.exec db (registration r z c p payload ttl)).0 h in
                  (
                    payload,
                    laws.exec_holds db _ (pending_key p.id) done
                        ∙ rw (same_refl (pending_key p.id)) refl,
                    codec_laws.round_trip p payload encoded,
                    laws.exec_scores db _ _ p.id done
                        ∙ rw
                            (
                              expiry-index p.agency_id p.route_id p.station_id,
                              same_refl (index_key p.agency_id p.route_id p.station_id),
                              same_refl p.id,
                            )
                            refl,
                  ))
        ]
  ]

  -- Whether a reply is an answer, a missing key included.
  abbrev is_answer : {A : Type 0} → Reply r.Error A → Bool
  is_answer (ok _) = true
  is_answer (err _) = false

  -- The loop over the ids is answered whenever it reads the document of one of them.
  unfoldable pub reads_answered : Text → List Text → r.Db → Bool
  reads_answered id [] db = true
  reads_answered id (k ∷ ks) db =
      (not (k == id) || is_answer (r.get db (pending_key k)).0)
      && reads_answered id ks (get_pending r z c db k).1

  get_pending-finds :
      (db : r.Db) (p : PendingPrediction F) (v : r.Value)
      → is_answer (r.get db (pending_key p.id)).0 ≡ true
      → r.held db (pending_key p.id) ≡ some v
      → c.unmarshal v ≡ some p
      → (get_pending r z c db p.id).0 ≡ some p
  unfolding get_pending parse_reply
  get_pending-finds db p v answered holds decodes =
      elim (Reply-cases (r.get db (pending_key p.id)).0) [
        | inl (found, reply) ↦
            let read = redis_laws.get_reply db (pending_key p.id) found reply in
            rw (get_pending, reply, read, holds) decodes
        | inr (e, reply) ↦ absurd (ground (arith, reply, answered))
      ]

  get_all-finds :
      (ids : List Text) (db : r.Db) (p : PendingPrediction F) (v : r.Value)
      → reads_answered p.id ids db ≡ true
      → Memᴰ p.id ids
      → r.held db (pending_key p.id) ≡ some v
      → c.unmarshal v ≡ some p
      → Memᴰ p (get_all r z c ids db).0
  unfolding get_all reads_answered
  get_all-finds [] db p v answers m holds decodes = elim m [ ]
  get_all-finds (id ∷ ids) db p v answers (Memᴰ.head same) holds decodes =
      let is_own : (id == p.id) ≡ true = (text_eq_iff id p.id).1 (sym same) in
      let read : is_answer (r.get db (pending_key id)).0 ≡ true = ground (arith, is_own, answers) in
      let own = subst (λ k. is_answer (r.get db (pending_key k)).0 ≡ true) (sym same) read in
      let found : (get_pending r z c db id).0 ≡ some p =
        subst (λ k. (get_pending r z c db k).0 ≡ some p) same
          (get_pending-finds db p v own holds decodes) in
      rw (get_all, found) (Memᴰ.head refl)
  get_all-finds (id ∷ ids) db p v answers (Memᴰ.tail m) holds decodes =
      let later =
        get_all-finds ids (get_pending r z c db id).1 p v (ground (arith, answers)) m
          ((get_pending-keeps r redis_laws z laws c db id (pending_key p.id) id).0 ∙ holds)
          decodes in
      elim (Option-cases (get_pending r z c db id).0) [
        | inl nothing ↦ rw (get_all, nothing) later
        | inr (other, found) ↦ rw (get_all, found) (Memᴰ.tail later)
      ]

  -- If a prediction is added without an error, the index of its agency, route and station then
  -- replies with some ids while the prediction's window lasts, and the reads of the prediction's own
  -- document are answered, then `FindActive` returns no error, and the prediction is among those
  -- that it returns.
  pub find_active-add_pending :
      (until : ℤ → ℤ) (db : r.Db) (p : PendingPrediction F) (now : ℤ) (ids : List Text)
      → (add_pending r z c until db p).0 ≡ none
      → now ≤ℤ p.expires_at
      → let db1 = (add_pending r z c until db p).1 in
        let asked =
          z.zrange_by_score db1
            (index_key p.agency_id p.route_id p.station_id)
            (some now)
            none
            none in
        asked.0 ≡ ok ids
        → reads_answered p.id ids asked.1 ≡ true
        → (out : List (PendingPrediction F)) × ((find_active r z c db1 p.agency_id p.route_id
              p.station_id now).0
            ≡ ok out)
          × Memᴰ p out
  unfolding find_active
  find_active-add_pending until db p now ids added window replied answers =
      let db1 = (add_pending r z c until db p).1 in
      let key = index_key p.agency_id p.route_id p.station_id in
      let (v, holds, decodes, scored) = add_pending-Registered until db p added in
      (
        _,
        rw (find_active, replied) refl,
        get_all-finds ids _ p v answers
            (laws.range_complete db1 key p.id (some now) none ids p.expires_at replied scored
              window)
            (laws.range_reads db1 key (pending_key p.id) (some now) none none ∙ holds) decodes,
      )
