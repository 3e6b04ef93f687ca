-- ===== src/Graph/Headway/Groups.antt =====
-- The maps that the index of headways is built from: departures by line, and gaps by hour.
use mathlib.Core.List.{append_assoc, append-nil}
use mathlib.Core.Option.{some-injective}
use mathlib.Core.Path.{subst}
use urban_goggles.Base.{
  ℤ, pos, leb_ℤ, ltb_ℤ, int_eq, int_eq_iff, same_refl, sub64, quot, Text, Text_eq, ℤ_eq, ◌==◌, Eq,
  Bool, true, false, ◌&&◌, ◌||◌, Bool-cases, Option-cases, none, some, List, [], ◌∷◌, ◌++◌, map,
  keep_if, ◌≡◌, ◌≢◌, refl, sym, ap, ◌∙◌, arith, inl, inr, Map, lookup, insert, lookup-insert,
  insert-IsDistinct, IsDistinct, if◌then◌else◌,
}
use urban_goggles.Graph.{TransitGraph, ScheduledStopTime, read_or}
use urban_goggles.Graph.Headway.{
  max_headway_gap_secs, max_headway_hour, route_direction, append_to, append_at, group_departures,
  add_gap, bucket_gaps,
}

module _ {ℓ κ} {K : Type ℓ} {V : Type κ} where
  -- Every entry of a map has the property.
  abbrev pub Entries {μ} : (K → V → Type μ) → Map K V → Type μ
  Entries P [] = Unit
  Entries P ((k, v) ∷ m) = P k v × Entries P m

module _ {ℓ κ μ} {K : Type ℓ} {V : Type κ} ⦃e : Eq K⦄ (P : K → V → Type μ) where
  pub insert-Entries :
      (k : K) (v : V) (m : Map K V) → P k v → Entries P m → Entries P (insert k v m)
  unfolding insert
  insert-Entries k v [] p h = (p, tt)
  insert-Entries k v ((j, w) ∷ m) p h = elim (Bool-cases (j == k)) [
    | inl same ↦ rw (insert, same) (p, h.1)
    | inr other ↦ rw (insert, other) (h.0, insert-Entries k v m p h.1)
  ]

  pub lookup-Entries : (k : K) (m : Map K V) (v : V) → Entries P m → lookup k m ≡ some v → P k v
  unfolding lookup
  lookup-Entries k [] v h = λ got. absurd (ground (arith, got))
  lookup-Entries k ((j, w) ∷ m) v h = elim (Bool-cases (j == k)) [
    | inl same ↦
        rw (lookup, same)
          (λ got.
            subst (P k) (some-injective w v got) (subst (λ i. P i w) ((e.same_iff j k).0 same) h.0))
    | inr other ↦ rw (lookup, other) (lookup-Entries k m v h.1)
  ]

  -- Where no key has two entries, an entry is what a lookup finds.
  pub Entries-of_lookup :
      (m : Map K V) → IsDistinct m → ((k : K) (v : V) → lookup k m ≡ some v → P k v) → Entries P m
  unfolding lookup
  Entries-of_lookup [] d h = tt
  Entries-of_lookup ((j, w) ∷ m) d h = (
    h j w (rw (same_refl j) refl),
    Entries-of_lookup m d.1 (λ k v found. h k v (later k v found)),
  )
    where
      later : (k : K) (v : V) → lookup k m ≡ some v → lookup k ((j, w) ∷ m) ≡ some v
      later k v found = elim (Bool-cases (j == k)) [
        | inl same ↦
            let gone = subst (λ i. lookup i m ≡ none) ((e.same_iff j k).0 same) d.0 in
            absurd (ground (arith, gone, found))
        | inr other ↦ rw other found
      ]

-- `m[k] = append(m[k], v)`, read at any key.
lookup-append_value :
    {K : Type 0} ⦃e : Eq K⦄ (k j : K) (v : ℤ) (m : Map K (List ℤ))
    → read_or [] (lookup j (insert k (read_or [] (lookup k m) ++ v ∷ []) m))
      ≡ read_or [] (lookup j m) ++ (if k == j then v ∷ [] else [])
lookup-append_value ⦃e⦄ k j v m = elim (Bool-cases (k == j)) [
  | inl same ↦
      rw (lookup-insert k j (read_or [] (lookup k m) ++ v ∷ []) m, same, (e.same_iff k j).0 same)
        refl
  | inr other ↦
      rw (lookup-insert k j (read_or [] (lookup k m) ++ v ∷ []) m, other)
        (sym (append-nil (read_or [] (lookup j m))))
]

append-if :
    {A : Type 0} (b : Bool) (old : List A) (x : A) (rest : List A)
    → (old ++ (if b then x ∷ [] else [])) ++ rest ≡ old ++ (if b then x ∷ rest else rest)
append-if true old x rest = append_assoc old (x ∷ []) rest
append-if false old x rest = ap (λ xs. xs ++ rest) (append-nil old)

-- The gap after a departure belongs to the hour and is counted.
abbrev pub is_gap : ℤ → ℤ → ℤ → Bool
is_gap hour earlier later =
    ltb_ℤ (pos 0) (sub64 later earlier)
    && (leb_ℤ (sub64 later earlier) max_headway_gap_secs
        && (leb_ℤ hour max_headway_hour && int_eq (quot earlier 3600) hour))

-- The gaps between each departure and the next that start in the hour.
unfoldable pub gaps_in : ℤ → List ℤ → List ℤ
gaps_in hour [] = []
gaps_in hour (a ∷ []) = []
gaps_in hour (a ∷ b ∷ rest) =
    let others = gaps_in hour (b ∷ rest) in if is_gap hour a b then sub64 b a ∷ others else others

lookup-add_gap :
    (hour a b : ℤ) (gaps : Map ℤ (List ℤ))
    → read_or [] (lookup hour (add_gap a b gaps))
      ≡ read_or [] (lookup hour gaps) ++ (if is_gap hour a b then sub64 b a ∷ [] else [])
unfolding add_gap append_at
lookup-add_gap hour a b gaps =
    let kept = sym (append-nil (read_or [] (lookup hour gaps))) in
    elim (Bool-cases (leb_ℤ (sub64 b a) (pos 0) || ltb_ℤ max_headway_gap_secs (sub64 b a))) [
      | inl out ↦
          let none_counted : is_gap hour a b ≡ false = ground (arith, out) in
          rw (add_gap, out, none_counted) kept
      | inr inside ↦ elim (Bool-cases (ltb_ℤ max_headway_hour (quot a 3600))) [
        | inl late ↦
            let none_counted : is_gap hour a b ≡ false =
              ground (arith, late, int_eq_iff (quot a 3600) hour) in
            rw (add_gap, inside, late, none_counted) kept
        | inr early ↦
            let counted : is_gap hour a b ≡ int_eq (quot a 3600) hour =
              ground (arith, inside, early, int_eq_iff (quot a 3600) hour) in
            rw (add_gap, inside, early, counted)
              (lookup-append_value (quot a 3600) hour (sub64 b a) gaps)
      ]
    ]

pub lookup-bucket_gaps :
    (hour : ℤ) (times : List ℤ) (gaps : Map ℤ (List ℤ))
    → read_or [] (lookup hour (bucket_gaps times gaps))
      ≡ read_or [] (lookup hour gaps) ++ gaps_in hour times
unfolding bucket_gaps gaps_in
lookup-bucket_gaps hour [] gaps = sym (append-nil _)
lookup-bucket_gaps hour (a ∷ []) gaps = sym (append-nil _)
lookup-bucket_gaps hour (a ∷ b ∷ rest) gaps =
    let others = gaps_in hour (b ∷ rest) in
    lookup-bucket_gaps hour (b ∷ rest) (add_gap a b gaps)
    ∙ ap (λ xs. xs ++ others) (lookup-add_gap hour a b gaps)
    ∙ append-if (is_gap hour a b) (read_or [] (lookup hour gaps)) (sub64 b a) others

-- Every bucket has a gap, and no hour has two buckets.
abbrev pub IsFilled : Map ℤ (List ℤ) → Type 0
IsFilled gaps = IsDistinct gaps × Entries (λ hour xs. xs ≢ []) gaps

append-filled : (xs : List ℤ) (x : ℤ) → xs ++ x ∷ [] ≢ []
append-filled [] x e = ground (arith, e)
append-filled (y ∷ ys) x e = ground (arith, e)

add_gap-IsFilled : (a b : ℤ) (gaps : Map ℤ (List ℤ)) → IsFilled gaps → IsFilled (add_gap a b gaps)
unfolding add_gap append_at
add_gap-IsFilled a b gaps h =
    elim (Bool-cases (leb_ℤ (sub64 b a) (pos 0) || ltb_ℤ max_headway_gap_secs (sub64 b a))) [
      | inl out ↦ rw (add_gap, out) h
      | inr inside ↦ elim (Bool-cases (ltb_ℤ max_headway_hour (quot a 3600))) [
        | inl late ↦ rw (add_gap, inside, late) h
        | inr early ↦
            rw (add_gap, inside, early)
              (
                insert-IsDistinct (quot a 3600) _ gaps h.0,
                insert-Entries (λ hour xs. xs ≢ []) (quot a 3600) _ gaps (append-filled _ _) h.1,
              )
      ]
    ]

pub bucket_gaps-IsFilled :
    (times : List ℤ) (gaps : Map ℤ (List ℤ)) → IsFilled gaps → IsFilled (bucket_gaps times gaps)
unfolding bucket_gaps
bucket_gaps-IsFilled [] gaps h = h
bucket_gaps-IsFilled (a ∷ []) gaps h = h
bucket_gaps-IsFilled (a ∷ b ∷ rest) gaps h =
    bucket_gaps-IsFilled (b ∷ rest) (add_gap a b gaps) (add_gap-IsFilled a b gaps h)

module _ (g : TransitGraph) where
  -- The direction of a row's trip, 0 where it is not known.
  abbrev pub direction_of : ScheduledStopTime → ℤ
  direction_of st = read_or (pos 0) (lookup st.trip_id g.trip_direction)

  unfoldable pub on_line : Text → ScheduledStopTime → Bool
  on_line line st = elim (lookup st.trip_id g.trip_route) [
    | none ↦ false
    | some route ↦ route_direction route (direction_of st) == line
  ]

  pub lookup-group_departures :
      (line : Text) (rows : List ScheduledStopTime) (deps : Map Text (List ℤ))
      → read_or [] (lookup line (group_departures g rows deps))
        ≡ read_or [] (lookup line deps)
          ++ map (λ st. st.departure_secs) (keep_if (on_line line) rows)
  unfolding group_departures append_to keep_if on_line
  lookup-group_departures line [] deps = sym (append-nil _)
  lookup-group_departures line (st ∷ rest) deps =
      let others = map (λ st. st.departure_secs) (keep_if (on_line line) rest) in
      elim (Option-cases (lookup st.trip_id g.trip_route)) [
        | inl unknown ↦
            rw (group_departures, on_line, unknown) (lookup-group_departures line rest deps)
        | inr (route, known) ↦
            let own = route_direction route (direction_of st) in
            rw (group_departures, on_line, known)
              (lookup-group_departures line rest (append_to own st.departure_secs deps)
                ∙ ap (λ xs. xs ++ others) (lookup-append_value own line st.departure_secs deps)
                ∙ append-if (own == line) (read_or [] (lookup line deps)) st.departure_secs others
                ∙ ap (λ xs. read_or [] (lookup line deps) ++ xs)
                    (elim (Bool-cases (own == line)) [
                      | inl same ↦ rw same refl
                      | inr other ↦ rw other refl
                    ]))
      ]

  -- Each line is that of a trip's route, and has one entry.
  abbrev pub AreLines : Map Text (List ℤ) → Type 0
  AreLines deps =
      IsDistinct deps
      × Entries
          (λ line times.
            (trip route : Text) × (direction : ℤ) × (lookup trip g.trip_route ≡ some route)
            × (line ≡ route_direction route direction))
          deps

  pub group_departures-AreLines :
      (rows : List ScheduledStopTime) (deps : Map Text (List ℤ))
      → AreLines deps
      → AreLines (group_departures g rows deps)
  unfolding group_departures append_to
  group_departures-AreLines [] deps h = h
  group_departures-AreLines (st ∷ rest) deps h =
      elim (Option-cases (lookup st.trip_id g.trip_route)) [
        | inl unknown ↦ rw (group_departures, unknown) (group_departures-AreLines rest deps h)
        | inr (route, known) ↦
            let own = route_direction route (direction_of st) in
            rw (group_departures, known)
              (group_departures-AreLines rest _ (
                insert-IsDistinct own _ deps h.0,
                insert-Entries _ own _ deps (st.trip_id, route, direction_of st, known, refl) h.1,
              ))
      ]
