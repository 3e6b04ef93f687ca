-- ===== src/Evaluation/Matching/Maximum.antt =====
-- What a prediction has observed after any number of events.
use mathlib.Core.List.{Memᴰ}
use urban_goggles.Base.{
  ℤ, ltb_ℤ, ◌≤ℤ◌, true, not, ◌&&◌, ◌||◌, Bool-cases, Option, List, [], ◌∷◌, ◌≡◌, refl, ap, sym, ◌∙◌,
  arith, inl, inr, All, All-map, ◌⊎◌,
}
use urban_goggles.Graph.{read_or}
use urban_goggles.Transit.{DelayEvent}
use urban_goggles.Evaluation.{PendingPrediction}
use urban_goggles.Evaluation.Matching.{concerns, additional_delay, observe}

module _ {F : Type 0} where
  -- The stored prediction after an event.
  abbrev pub after_event : DelayEvent × Option ℤ → PendingPrediction F → PendingPrediction F
  after_event (ev, dir) p = read_or p (observe ev dir p)

  abbrev pub after_events : List (DelayEvent × Option ℤ) → PendingPrediction F → PendingPrediction F
  after_events [] p = p
  after_events (seen ∷ rest) p = after_events rest (after_event seen p)

  after_event-cases :
      (seen : DelayEvent) (at : Option ℤ) (p : PendingPrediction F)
      → (after_event (seen, at) p ≡ p)
        ⊎ ((concerns seen at p ≡ true)
            × (after_event (seen, at) p
                ≡ record p { matched = true; observed_max = additional_delay seen p }))
  unfolding observe
  after_event-cases seen at p =
      elim (Bool-cases
        (concerns seen at p && (not p.matched || ltb_ℤ p.observed_max (additional_delay seen p)))) [
          | inl changed ↦ rw (observe, changed) (inr (ground (arith, changed), refl))
          | inr kept ↦ rw (observe, kept) (inl refl)
        ]

  after_event-concerns :
      (seen : DelayEvent × Option ℤ) (p : PendingPrediction F) (ev : DelayEvent) (dir : Option ℤ)
      → (concerns ev dir (after_event seen p) ≡ concerns ev dir p)
        × (additional_delay ev (after_event seen p) ≡ additional_delay ev p)
  unfolding concerns additional_delay
  after_event-concerns (seen, at) p ev dir = elim (after_event-cases seen at p) [
    | inl same ↦ (ap (concerns ev dir) same, ap (additional_delay ev) same)
    | inr (_, changed) ↦ (ap (concerns ev dir) changed, ap (additional_delay ev) changed)
  ]

  -- Once matched, always matched, and the maximum only grows.
  after_event-grows :
      (seen : DelayEvent × Option ℤ) (p : PendingPrediction F)
      → p.matched ≡ true
      → ((after_event seen p).matched ≡ true)
        × (p.observed_max ≤ℤ (after_event seen p).observed_max)
  unfolding observe
  after_event-grows (seen, at) p matched =
      elim (Bool-cases
        (concerns seen at p && (not p.matched || ltb_ℤ p.observed_max (additional_delay seen p)))) [
          | inl changed ↦ rw (observe, changed) (refl, ground (arith, changed, matched))
          | inr kept ↦ rw (observe, kept) (matched, omega arith)
        ]

  after_event-counts :
      (seen : DelayEvent) (at : Option ℤ) (p : PendingPrediction F)
      → concerns seen at p ≡ true
      → ((after_event (seen, at) p).matched ≡ true)
        × (additional_delay seen p ≤ℤ (after_event (seen, at) p).observed_max)
  unfolding observe
  after_event-counts seen at p mine =
      elim (Bool-cases
        (concerns seen at p && (not p.matched || ltb_ℤ p.observed_max (additional_delay seen p)))) [
          | inl changed ↦ rw (observe, changed) (refl, omega arith)
          | inr kept ↦ rw (observe, kept) (ground (arith, kept, mine))
        ]

  after_events-grows :
      (events : List (DelayEvent × Option ℤ)) (p : PendingPrediction F)
      → p.matched ≡ true
      → ((after_events events p).matched ≡ true)
        × (p.observed_max ≤ℤ (after_events events p).observed_max)
  after_events-grows [] p matched = (matched, omega arith)
  after_events-grows (seen ∷ rest) p matched =
      let now = after_event-grows seen p matched in
      let later = after_events-grows rest (after_event seen p) now.0 in
      (later.0, omega (arith, now.1, later.1))

  -- What a prediction that was stored has observed is at least what an event adds to it.
  abbrev pub Counts : PendingPrediction F → PendingPrediction F → DelayEvent × Option ℤ → Type 0
  Counts p q (ev, dir) =
      concerns ev dir p ≡ true → (q.matched ≡ true) × (additional_delay ev p ≤ℤ q.observed_max)

  -- The maximum is that of an event.
  abbrev pub Attained :
      PendingPrediction F → PendingPrediction F → List (DelayEvent × Option ℤ) → Type 0
  Attained p q events =
      (ev : DelayEvent) × (dir : Option ℤ) × Memᴰ (ev, dir) events
      × (concerns ev dir p ≡ true)
      × (q.observed_max ≡ additional_delay ev p)

  after_events-Counts :
      (events : List (DelayEvent × Option ℤ)) (p : PendingPrediction F)
      → All (Counts p (after_events events p)) events
  after_events-Counts [] p = tt
  after_events-Counts ((ev, dir) ∷ rest) p = (
    (λ mine.
        let here = after_event-counts ev dir p mine in
        let later = after_events-grows rest (after_event (ev, dir) p) here.0 in
        (later.0, omega (arith, here.1, later.1))),
    All-map _ _ rest
        (λ other counts mine.
          let same = after_event-concerns (ev, dir) p other.0 other.1 in
          rw⁻¹ same.1 (counts (same.0 ∙ mine)))
        (after_events-Counts rest (after_event (ev, dir) p)),
  )

  after_events-Attained :
      (events : List (DelayEvent × Option ℤ)) (p : PendingPrediction F)
      → (after_events events p ≡ p) ⊎ Attained p (after_events events p) events
  after_events-Attained [] p = inl refl
  after_events-Attained ((ev, dir) ∷ rest) p =
      elim (after_events-Attained rest (after_event (ev, dir) p)) [
        | inr (other, at, m, mine, same) ↦
            let fields = after_event-concerns (ev, dir) p other at in
            inr (other, at, Memᴰ.tail m, sym fields.0 ∙ mine, same ∙ fields.1)
        | inl last ↦ elim (after_event-cases ev dir p) [
          | inl kept ↦ inl (last ∙ kept)
          | inr (mine, changed) ↦
              inr (ev, dir, Memᴰ.head refl, mine, ap (λ q. q.observed_max) (last ∙ changed))
        ]
      ]

  -- After any events a prediction is matched and has observed at least what each of the events that
  -- concern it adds to its baseline; and either nothing in it has changed, or its maximum is what
  -- one of these events adds.
  pub after_events-IsMaximum :
      (events : List (DelayEvent × Option ℤ)) (p : PendingPrediction F)
      → All (Counts p (after_events events p)) events
        × ((after_events events p ≡ p) ⊎ Attained p (after_events events p) events)
  after_events-IsMaximum events p = (after_events-Counts events p, after_events-Attained events p)
