-- ===== src/State/Listing.antt =====
-- `GetRouteDelays` and `GetAllActiveDelays` of internal/state/manager.go. The iterator's scan is
-- taken as a whole before the reads, which change no key.
use urban_goggles.Base.{
  ltb_ℤ, abs32, Text, Text_eq, text_eq_iff, codes, ◌==◌, Bool, true, Option, none, some, List, [],
  ◌∷◌, ◌++◌, ◌≡◌, refl, sym, ap, ◌∙◌, inl, inr, arith, All, All-append, exists_in, if◌then◌else◌,
  Bool-cases, Option-cases,
}
use urban_goggles.External.Redis.{Redis, IsRedis, Reply, ok, err, Codec, IsGlobFree}
use urban_goggles.External.SortedSets.{SortedSets}
use urban_goggles.External.Reads.{Reads, gets, scans}
use urban_goggles.External.Float.{Float64}
use urban_goggles.Graph.{TransitGraph}
use urban_goggles.State.{DelayState, decode, active_delay_threshold}
use urban_goggles.State.Store.{view}

-- `delay:%s:`, before the trip.
abbrev pub agency_prefix : Text → Text
agency_prefix agency_id = codes "delay:" ++ (agency_id ++ b':' ∷ [])

module _ (f : Float64) (r : Redis) (c : Codec r.Value (DelayState f.F)) where
  -- What a reply to one read adds: a state that decodes and passes the test.
  chosen : (DelayState f.F → Bool) → Reply r.Error (Option r.Value) → List (DelayState f.F)
  chosen p (ok (some raw)) = elim (c.unmarshal raw) [
    | none ↦ []
    | some ds ↦ if p ds then ds ∷ [] else []
  ]
  chosen p _ = []

  collect : (DelayState f.F → Bool) → r.Db → List Text → List (DelayState f.F) × r.Db
  unfolding chosen
  collect p db [] = ([], db)
  collect p db (k ∷ ks) =
      let (reply, db1) = r.get db k in
      let (out, db2) = collect p db1 ks in (chosen p reply ++ out, db2)

  list_delays : (DelayState f.F → Bool) → r.Db → Text → Reply r.Error (List (DelayState f.F)) × r.Db
  unfolding collect
  list_delays p db agency_id =
      let ((keys, e), db1) = r.scan db (agency_prefix agency_id ++ b'*' ∷ []) in
      let (out, db2) = collect p db1 keys in
      elim e [ some failed ↦ (err failed, db2) | none ↦ (ok out, db2) ]

  unfoldable pub get_route_delays :
      r.Db → Text → Text → Reply r.Error (List (DelayState f.F)) × r.Db
  unfolding list_delays
  get_route_delays db agency_id route_id = list_delays (λ ds. ds.route_id == route_id) db agency_id

  unfoldable pub get_all_active_delays : r.Db → Text → Reply r.Error (List (DelayState f.F)) × r.Db
  unfolding list_delays
  get_all_active_delays db agency_id =
      list_delays (λ ds. ltb_ℤ active_delay_threshold (abs32 ds.delay_seconds)) db agency_id

module _ (f : Float64) {r : Redis} (z : SortedSets r) (c : Codec r.Value (DelayState f.F)) where
  collect-Reads :
      (p : DelayState f.F → Bool) {db : r.Db} (ks : List Text) {db' : r.Db}
      → Reads z db db'
      → Reads z db (collect f r c p db' ks).1
  unfolding collect
  collect-Reads p [] t = t
  collect-Reads p (k ∷ ks) t = collect-Reads p ks (gets k t)

  list_delays-Reads :
      (p : DelayState f.F → Bool) {db db' : r.Db} (agency_id : Text)
      → Reads z db db'
      → Reads z db (list_delays f r c p db' agency_id).1
  unfolding list_delays
  list_delays-Reads p {db} {db'} agency_id t =
      let pattern = agency_prefix agency_id ++ b'*' ∷ [] in
      let read = collect-Reads p (r.scan db' pattern).0.0 (scans pattern t) in
      elim (Option-cases (r.scan db' pattern).0.1) [
        | inl e ↦ rw (list_delays, e) read
        | inr (x, e) ↦ rw (list_delays, e) read
      ]

  -- Both lists only read.
  pub get_route_delays-Reads :
      {db db' : r.Db} (agency_id route_id : Text)
      → Reads z db db'
      → Reads z db (get_route_delays f r c db' agency_id route_id).1
  unfolding get_route_delays
  get_route_delays-Reads agency_id route_id t = list_delays-Reads _ agency_id t

  pub get_all_active_delays-Reads :
      {db db' : r.Db} (agency_id : Text)
      → Reads z db db'
      → Reads z db (get_all_active_delays f r c db' agency_id).1
  unfolding get_all_active_delays
  get_all_active_delays-Reads agency_id t = list_delays-Reads _ agency_id t

-- A listed state passes the test and is what the server holds for a key of the agency.
pub record IsListed (f : Float64) (r : Redis) (c : Codec r.Value (DelayState f.F))
    (g : TransitGraph) (db : r.Db) (agency_id : Text) (p : DelayState f.F → Bool)
    (ds : DelayState f.F) : Type 0 where
  pub passes : p ds ≡ true
  pub key : Text
  pub rest : Text
  pub of_agency : key ≡ agency_prefix agency_id ++ rest
  pub holds : view f r c g db key ≡ ok (some ds)

-- Another server with the same values lists it as well.
pub IsListed-held :
    (f : Float64) (r : Redis) (c : Codec r.Value (DelayState f.F)) (g : TransitGraph)
    (db db' : r.Db) (agency_id : Text) (p : DelayState f.F → Bool) (ds : DelayState f.F)
    → ((k : Text) → r.held db' k ≡ r.held db k)
    → IsListed f r c g db' agency_id p ds
    → IsListed f r c g db agency_id p ds
unfolding view
IsListed-held f r c g db db' agency_id p ds same h = record {
  passes = h.passes;
  key = h.key;
  rest = h.rest;
  of_agency = h.of_agency;
  holds = ap (decode f r c g) (sym (same h.key)) ∙ h.holds;
}

module _ (f : Float64) (r : Redis) (laws : IsRedis r) (c : Codec r.Value (DelayState f.F))
    (g : TransitGraph) (db : r.Db) (agency_id : Text) (p : DelayState f.F → Bool) where
  -- The server after some reads holds what it did.
  Same : r.Db → Type 0
  Same db' = (k : Text) → r.held db' k ≡ r.held db k

  chosen-IsListed :
      (db' : r.Db) (k s : Text) (reply : Reply r.Error (Option r.Value))
      → ((v : Option r.Value) → reply ≡ ok v → v ≡ r.held db k)
      → k ≡ agency_prefix agency_id ++ s
      → All (IsListed f r c g db agency_id p) (chosen f r c p reply)
  unfolding chosen
  chosen-IsListed db' k s (err e) same of_agency = tt
  chosen-IsListed db' k s (ok none) same of_agency = tt
  chosen-IsListed db' k s (ok (some raw)) same of_agency = elim (Option-cases (c.unmarshal raw)) [
    | inl e ↦ rw (e, chosen) tt
    | inr (ds, e) ↦ elim (Bool-cases (p ds)) [
      | inr fails ↦ rw (e, chosen, fails) tt
      | inl passes ↦
          let held : r.held db k ≡ some raw = sym (same (some raw) refl) in
          rw (e, chosen, passes)
            (
              record {
                passes = passes;
                key = k;
                rest = s;
                of_agency = of_agency;
                holds = unfold view decode in ground (arith, held, e);
              },
              tt,
            )
    ]
  ]

  collect-IsListed :
      (db' : r.Db) (ks : List Text)
      → Same db'
      → All (λ k. (s : Text) × (k ≡ agency_prefix agency_id ++ s)) ks
      → All (IsListed f r c g db agency_id p) (collect f r c p db' ks).0
  unfolding collect Same
  collect-IsListed db' [] same of_agency = tt
  collect-IsListed db' (k ∷ ks) same of_agency =
      let (s, e) = of_agency.0 in
      All-append _ (chosen f r c p (r.get db' k).0) _
        (chosen-IsListed db' k s (r.get db' k).0 (λ v got. laws.get_reply db' k v got ∙ same k) e)
        (collect-IsListed (r.get db' k).1 ks (λ j. laws.held-get db' k j ∙ same j) of_agency.1)

  All-of_members :
      (Q : Text → Type 0) (ks : List Text)
      → ((k : Text) → exists_in (λ j. j == k) ks ≡ true → Q k)
      → All Q ks
  unfolding exists_in
  All-of_members Q [] h = tt
  All-of_members Q (k ∷ ks) h =
      (h k (ground (arith, text_eq_iff k k)), All-of_members Q ks (λ j m. h j (ground (arith, m))))

  list_delays-IsListed :
      {out : List (DelayState f.F)}
      → IsGlobFree (agency_prefix agency_id)
      → (list_delays f r c p db agency_id).0 ≡ ok out
      → All (IsListed f r c g db agency_id p) out
  unfolding list_delays Same
  list_delays-IsListed {out} globless h =
      let pattern = agency_prefix agency_id ++ b'*' ∷ [] in
      let scanned = r.scan db pattern in
      let listed = collect-IsListed scanned.1 scanned.0.0 (laws.held-scan db pattern) (
        All-of_members _ scanned.0.0
          (λ k. laws.scan_only db (agency_prefix agency_id) k globless)) in
      elim (Option-cases scanned.0.1) [
        | inl e ↦
            let same : (collect f r c p scanned.1 scanned.0.0).0 ≡ out = ground (arith, e, h) in
            rw⁻¹ same listed
        | inr (x, e) ↦ absurd (ground (arith, e, h))
      ]

module _ (f : Float64) (r : Redis) (laws : IsRedis r) (c : Codec r.Value (DelayState f.F))
    (g : TransitGraph) (db : r.Db) (agency_id : Text)
    (globless : IsGlobFree (agency_prefix agency_id)) where
  -- If the agency's key prefix has no glob character and `GetRouteDelays` returns no error, every
  -- state that it returns is of the route and is what the server holds for a key of the agency.
  pub get_route_delays-IsListed :
      (route_id : Text) {out : List (DelayState f.F)}
      → (get_route_delays f r c db agency_id route_id).0 ≡ ok out
      → All (IsListed f r c g db agency_id (λ ds. ds.route_id == route_id)) out
  unfolding get_route_delays
  get_route_delays-IsListed route_id {out} h =
      list_delays-IsListed f r laws c g db agency_id (λ ds. ds.route_id == route_id) {out = out}
        globless h

  -- If the agency's key prefix has no glob character and `GetAllActiveDelays` returns no error,
  -- every state that it returns is off by more than the active threshold and is what the server
  -- holds for a key of the agency.
  pub get_all_active_delays-IsListed :
      {out : List (DelayState f.F)}
      → (get_all_active_delays f r c db agency_id).0 ≡ ok out
      → All
          (IsListed f r c g db agency_id
            (λ ds. ltb_ℤ active_delay_threshold (abs32 ds.delay_seconds)))
          out
  unfolding get_all_active_delays
  get_all_active_delays-IsListed {out} h =
      list_delays-IsListed f r laws c g db agency_id _ {out = out} globless h
