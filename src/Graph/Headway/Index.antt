-- ===== src/Graph/Headway/Index.antt =====
-- What the index of headways holds: each entry is made of a line at a station.
use mathlib.Core.List.{Memᴰ}
use mathlib.Core.Path.{subst}
use urban_goggles.Base.{
  ℤ, ℤ_eq, Text, Text_eq, some, List, [], ◌∷◌, map, keep_if, ◌≡◌, ◌≢◌, sym, ap, ◌∙◌, refl, All,
  All-of_mem, Map, lookup,
}
use urban_goggles.External.Float.{Float64}
use urban_goggles.Graph.{TransitGraph, ScheduledStopTime, read_or}
use urban_goggles.Graph.Headway.{
  bucket_gaps, group_departures, median, route_direction, add_medians, add_groups, add_stations,
  build_headway_index, headway_key,
}
use urban_goggles.Graph.Headway.Groups.{
  Entries, insert-Entries, lookup-Entries, Entries-of_lookup, gaps_in, lookup-bucket_gaps,
  bucket_gaps-IsFilled, on_line, lookup-group_departures, group_departures-AreLines,
}

module _ (f : Float64) (sort : List ℤ → List ℤ) (g : TransitGraph) where
  -- The median of the gaps of a line that start in an hour at a station, of which there are some.
  abbrev pub IsEntry : Text → f.F → Type 0
  IsEntry key h =
      (station : Text) × (rows : List ScheduledStopTime) × (trip route : Text) × (direction
        hour : ℤ)
      × Memᴰ (station, rows) g.stop_times_by_stop
      × (lookup trip g.trip_route ≡ some route)
      × (key ≡ headway_key route direction station hour)
      × (let times =
            map (λ st. st.departure_secs)
              (keep_if (on_line g (route_direction route direction)) rows) in
          (h ≡ median f (sort (gaps_in hour times))) × (gaps_in hour times ≢ []))

  module _ (station : Text) (rows : List ScheduledStopTime)
      (there : Memᴰ (station, rows) g.stop_times_by_stop) where
    module _ (trip route : Text) (direction : ℤ)
        (known : lookup trip g.trip_route ≡ some route) where
      abbrev times_of : List ℤ
      times_of =
          map (λ st. st.departure_secs) (keep_if (on_line g (route_direction route direction)) rows)

      add_medians-Entries :
          (buckets : Map ℤ (List ℤ)) (headways : Map Text f.F)
          → Entries (λ hour xs. (xs ≡ gaps_in hour times_of) × (xs ≢ [])) buckets
          → Entries IsEntry headways
          → Entries IsEntry
              (add_medians f sort (route_direction route direction) station buckets headways)
      unfolding add_medians headway_key
      add_medians-Entries [] headways b h = h
      add_medians-Entries ((hour, xs) ∷ rest) headways b h = add_medians-Entries rest _ b.1 (
          insert-Entries IsEntry _ _ headways
            (
              station,
              rows,
              trip,
              route,
              direction,
              hour,
              there,
              known,
              refl,
              (ap (λ ys. median f (sort ys)) b.0.0, subst (λ ys. ys ≢ []) b.0.0 b.0.1),
            )
            h)

      buckets-Entries :
          (times : List ℤ)
          → times ≡ times_of
          → Entries (λ hour xs. (xs ≡ gaps_in hour times_of) × (xs ≢ [])) (bucket_gaps times [])
      unfolding lookup
      buckets-Entries times same =
          let filled = bucket_gaps-IsFilled times [] (tt, tt) in
          Entries-of_lookup _ (bucket_gaps times []) filled.0 (λ hour xs found.
            let read = ap (read_or []) (sym found) ∙ lookup-bucket_gaps hour times [] in
            (
              read ∙ ap (gaps_in hour) same,
              lookup-Entries (λ hour xs. xs ≢ []) hour (bucket_gaps times []) xs filled.1 found,
            ))

    abbrev IsGroup : Text → List ℤ → Type 0
    IsGroup line times =
        (times ≡ map (λ st. st.departure_secs) (keep_if (on_line g line) rows))
        × (trip route : Text) × (direction : ℤ) × (lookup trip g.trip_route ≡ some route)
        × (line ≡ route_direction route direction)

    add_groups-Entries :
        (groups : Map Text (List ℤ)) (headways : Map Text f.F)
        → Entries IsGroup groups
        → Entries IsEntry headways
        → Entries IsEntry (add_groups f sort station groups headways)
    unfolding add_groups
    add_groups-Entries [] headways all h = h
    add_groups-Entries ((line, times) ∷ rest) headways
          ((same, trip, route, direction, known, named), all) h =
        let own =
          same ∙ ap (λ l. map (λ st. st.departure_secs) (keep_if (on_line g l) rows)) named in
        add_groups-Entries rest _ all (
          subst
            (λ l. Entries IsEntry (add_medians f sort l station (bucket_gaps times []) headways))
            (sym named)
            (add_medians-Entries trip route direction known (bucket_gaps times []) headways
              (buckets-Entries trip route direction known times own) h))

    groups-Entries : Entries IsGroup (group_departures g rows [])
    unfolding lookup
    groups-Entries =
        let lines = group_departures-AreLines g rows [] (tt, tt) in
        Entries-of_lookup IsGroup (group_departures g rows []) lines.0 (λ line times found.
          let (trip, route, direction, known, named) =
            lookup-Entries _ line (group_departures g rows []) times lines.1 found in
          (
            ap (read_or []) (sym found) ∙ lookup-group_departures g line rows [],
            trip,
            route,
            direction,
            known,
            named,
          ))

  add_stations-Entries :
      (stations : Map Text (List ScheduledStopTime)) (headways : Map Text f.F)
      → All (λ entry. Memᴰ entry g.stop_times_by_stop) stations
      → Entries IsEntry headways
      → Entries IsEntry (add_stations f sort g stations headways)
  unfolding add_stations
  add_stations-Entries [] headways all h = h
  add_stations-Entries ((station, rows) ∷ rest) headways all h = add_stations-Entries rest _ all.1 (
      add_groups-Entries station rows all.0 (group_departures g rows []) headways
        (groups-Entries station rows all.0) h)

  pub build_headway_index-Entries : Entries IsEntry (build_headway_index f sort g)
  unfolding build_headway_index
  build_headway_index-Entries =
      add_stations-Entries g.stop_times_by_stop []
        (All-of_mem (λ entry. Memᴰ entry g.stop_times_by_stop) g.stop_times_by_stop (λ e m. m)) tt
