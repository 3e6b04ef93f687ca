-- ===== src/Graph/Build/Rows.antt =====
-- The stop times of a built graph against the rows of the schedule.
use mathlib.Core.List.{Permᴰ, append-nil, append_assoc}
use urban_goggles.Base.{
  Text, Text_eq, text_eq_iff, ◌==◌, ◌&&◌, Bool, true, false, Bool-cases, none, some, List, [], ◌∷◌,
  ◌++◌, ◌≡◌, refl, sym, ap, ◌∙◌, ◌⊎◌, arith, inl, inr, Map, lookup, insert, lookup-insert, keep_if,
  keep_if-congr, All-of_mem, exists_in, ◌||◌, ℤ, if◌then◌else◌,
}
use urban_goggles.Graph.{
  Stop, ScheduledStopTime, WallClock, read_or, parent_station, parent_station_id, stop_times_at,
}
use urban_goggles.Graph.Departures.{IsSorted}
use urban_goggles.Graph.Build.{
  Parsed, Trip, index_trips, TripIndex, RowIndex, Sort, append_row, is_running, add_row, index_rows,
  sort_values, departs_before, trips_of, rows_of, build_graph,
}

-- What sort.Slice promises where the order is that of departures: the same rows, sorted.
pub record IsSort (sort : Sort) : Type 0 where
  pub keeps : (xs : List ScheduledStopTime) → Permᴰ (sort departs_before xs) xs
  pub sorts : (xs : List ScheduledStopTime) → IsSorted (sort departs_before xs)

pub lookup-append_row {ℓ} :
    {V : Type ℓ} (k j : Text) (v : V) (m : Map Text (List V))
    → read_or [] (lookup j (append_row k v m))
      ≡ read_or [] (lookup j m) ++ (if k == j then v ∷ [] else [])
unfolding append_row
lookup-append_row k j v m = elim (Bool-cases (k == j)) [
  | inl same ↦
      rw
        (
          append_row,
          lookup-insert k j (read_or [] (lookup k m) ++ v ∷ []) m,
          same,
          (text_eq_iff k j).0 same,
        )
        refl
  | inr other ↦
      rw (append_row, lookup-insert k j (read_or [] (lookup k m) ++ v ∷ []) m, other)
        (sym (append-nil (read_or [] (lookup j m))))
]

append-if {ℓ} :
    {V : Type ℓ} (b : Bool) (old : List V) (x : V) (rest : List V)
    → old ++ (if b then x ∷ [] else []) ++ rest ≡ old ++ (if b then x ∷ rest else rest)
append-if true old x rest = append_assoc old (x ∷ []) rest
append-if false old x rest = ap (λ xs. xs ++ rest) (append-nil old)

lookup-sort_values :
    (sorted : List ScheduledStopTime → List ScheduledStopTime) (k : Text)
    (m : Map Text (List ScheduledStopTime))
    → ((lookup k (sort_values sorted m) ≡ none) × (lookup k m ≡ none))
      ⊎ ((rows : List ScheduledStopTime) × (lookup k m ≡ some rows)
          × (lookup k (sort_values sorted m) ≡ some (sorted rows)))
unfolding lookup sort_values
lookup-sort_values sorted k [] = inl (refl, refl)
lookup-sort_values sorted k ((j, rows) ∷ m) = elim (Bool-cases (j == k)) [
  | inl same ↦ rw (lookup, sort_values, same) (inr (rows, refl, refl))
  | inr other ↦ rw (lookup, sort_values, other) (lookup-sort_values sorted k m)
]

module _ (stops : Map Text Stop) (trips : TripIndex) where
  -- The row is of a running trip and at the station.
  abbrev pub is_at : Text → ScheduledStopTime → Bool
  is_at station st = is_running stops trips st && parent_station st.stop_id stops == station

  rows_at_index_rows :
      (rows : List ScheduledStopTime) (ix : RowIndex) (station : Text)
      → read_or [] (lookup station (index_rows stops trips rows ix).by_stop)
        ≡ read_or [] (lookup station ix.by_stop) ++ keep_if (is_at station) rows
  unfolding index_rows keep_if
  rows_at_index_rows [] ix station = sym (append-nil _)
  rows_at_index_rows (st ∷ rest) ix station = elim (Bool-cases (is_running stops trips st)) [
    | inr idle ↦ rw (index_rows, keep_if, idle) (rows_at_index_rows rest ix station)
    | inl runs ↦
        let parent = parent_station st.stop_id stops in
        rw (index_rows, runs)
          (rows_at_index_rows rest (add_row stops trips st ix) station
            ∙ ap (λ rows. rows ++ keep_if (is_at station) rest)
                (lookup-append_row parent station st ix.by_stop)
            ∙ append-if (parent == station) (read_or [] (lookup station ix.by_stop)) st _)
  ]

-- Some trip with the id has a service that is active.
abbrev pub runs_today : Map Text Bool → List Trip → Text → Bool
runs_today active trips id =
    exists_in (λ t. t.id == id && read_or false (lookup t.service_id active)) trips

pub read-insert :
    (act : Bool) (k id : Text) (m : Map Text Bool)
    → read_or false (lookup id (if act then insert k true m else m))
      ≡ (k == id && act || read_or false (lookup id m))
read-insert true k id m =
    rw (lookup-insert k id true m)
      (elim (Bool-cases (k == id)) [ inl same ↦ rw same refl | inr other ↦ rw other refl ])
read-insert false k id m = elim (Bool-cases (k == id)) [
  | inl same ↦ rw same refl
  | inr other ↦ rw other refl
]

pub or-swap : (a b c : Bool) → (a || (b || c)) ≡ (b || a || c)
or-swap a b c = ground arith

active_trips_lem :
    (active : Map Text Bool) (trips : List Trip) (ix : TripIndex) (id : Text)
    → read_or false (lookup id (index_trips active trips ix).active_trips)
      ≡ (runs_today active trips id || read_or false (lookup id ix.active_trips))
unfolding index_trips exists_in
active_trips_lem active [] ix id = refl
active_trips_lem active (t ∷ rest) ix id =
    let act = read_or false (lookup t.service_id active) in
    active_trips_lem active rest _ id
    ∙ ap (λ b. runs_today active rest id || b) (read-insert act t.id id ix.active_trips)
    ∙ or-swap (runs_today active rest id) (t.id == id && act) _

-- The rows of the trips that run today at a station.
abbrev pub rows_today : Parsed → Text → List ScheduledStopTime
rows_today parsed station =
    keep_if
      (λ st.
        runs_today parsed.active parsed.trips st.trip_id
        && parent_station st.stop_id parsed.stops == station)
      parsed.all_stop_times

pub or-false : (a : Bool) → (a || false) ≡ a
or-false a = ground arith

rows_of-rows_today :
    (parsed : Parsed) (station : Text)
    → read_or [] (lookup station (rows_of parsed).by_stop) ≡ rows_today parsed station
unfolding rows_of trips_of keep_if lookup
rows_of-rows_today parsed station =
    rows_at_index_rows parsed.stops (trips_of parsed) parsed.all_stop_times _ station
    ∙ keep_if-congr _ _ parsed.all_stop_times (
        All-of_mem _ _ (λ st m.
          ap (λ b. b && parent_station st.stop_id parsed.stops == station)
            (active_trips_lem parsed.active parsed.trips _ st.trip_id
              ∙ or-false (runs_today parsed.active parsed.trips st.trip_id))))

-- In a built graph a stop's times are the rows of today's trips at the stop's station, each once, in
-- the order of their departures.
pub build_graph-rows_today :
    (sort : Sort) (laws : IsSort sort) (tz : ℤ → WallClock) (parsed : Parsed) (stop_id : Text)
    → Permᴰ
        (stop_times_at (build_graph sort tz parsed) stop_id)
        (rows_today parsed (parent_station stop_id parsed.stops))
      × IsSorted (stop_times_at (build_graph sort tz parsed) stop_id)
unfolding build_graph stop_times_at parent_station_id
build_graph-rows_today sort laws tz parsed stop_id =
    let station = parent_station stop_id parsed.stops in
    elim (lookup-sort_values (sort departs_before) station (rows_of parsed).by_stop) [
      | inl (gone, missing) ↦
          rw (gone, sym (rows_of-rows_today parsed station), missing) (Permᴰ.nil, tt)
      | inr (rows, found, sorted) ↦
          rw (sorted, sym (rows_of-rows_today parsed station), found)
            (laws.keeps rows, laws.sorts rows)
    ]
