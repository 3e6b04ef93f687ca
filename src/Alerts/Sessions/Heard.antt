-- ===== src/Alerts/Sessions/Heard.antt =====
-- What the sessions of internal/server/alerts.go send to a subscriber, told by the history of their events.
use urban_goggles.Base.{
  ℕ_eq, ℕ, zero, suc, ◌*◌, ◌^◌, ℤ, pos, int_eq, Text, Bool, false, not, ◌&&◌, ◌||◌, Option, none,
  some, List, [], ◌∷◌, ◌++◌, length, keep_if, exists_in, if◌then◌else◌, ◌≡◌,
}
use urban_goggles.Transit.{TransferImpact}
use urban_goggles.Alerts.{Action}
use urban_goggles.Alerts.Reconnect.{capped}
use urban_goggles.Alerts.Delivery.{sent_to}
use urban_goggles.Alerts.Sessions.{
  Event, delivers, fails, meanwhile, Attempt, SessionError, consume_events, consume_once,
}

-- The events before, the latest first, have not closed the partition's channel.
abbrev closes : ℤ → Event → Bool
closes p (delivers q none) = int_eq q p
closes _ _ = false

abbrev is_read : List ℤ → List Event → ℤ → Bool
is_read started before p = exists_in (int_eq p) started && not (exists_in (closes p) before)

-- The waits from number i on.
unfoldable pub delays : ℕ → ℕ → List ℤ
delays i zero = []
delays i (suc n) = pos (capped (5000000000 * 2 ^ i)) ∷ delays (suc i) n

-- The partitions of an attempt that can be consumed.
unfoldable pub started : Attempt → List ℤ
started a = elim a.client [
  | none ↦ []
  | some none ↦ []
  | some (some partitions) ↦ keep_if a.opens partitions
]

abbrev shown : Option TransferImpact → List TransferImpact
shown none = []
shown (some impact) = impact ∷ []

module _ (unmarshal : Text → Option TransferImpact) (k : ℕ) where
  abbrev impact_in : Option Text → List TransferImpact
  impact_in none = []
  impact_in (some value) = shown (unmarshal value)

  -- The decoded messages of the partitions that are read when they arrive.
  unfoldable pub decoded : List ℤ → List Event → List Event → List TransferImpact
  decoded opened before [] = []
  decoded opened before (delivers p msg ∷ rest) =
      (if is_read opened before p then impact_in msg else [])
      ++ decoded opened (delivers p msg ∷ before) rest
  decoded opened before (fails p ∷ rest) = decoded opened (fails p ∷ before) rest
  decoded opened before (meanwhile v ∷ rest) = decoded opened (meanwhile v ∷ before) rest

  first_heard : Attempt → List ℤ → List TransferImpact → List TransferImpact
  first_heard a [] later = if a.cancelled || a.cancelled_waiting then [] else later
  first_heard a (p ∷ ps) later = decoded (p ∷ ps) [] a.events

  -- Those of the first attempt that has a partition to consume, if the context lasts until then.
  unfoldable pub heard : List Attempt → List TransferImpact
  unfolding first_heard
  heard [] = []
  heard (a ∷ rest) = first_heard a (started a) (heard rest)

  abbrev Tracks : List ℤ → List Event → List ℤ → Type 0
  Tracks opened before running = (p : ℤ) → exists_in (int_eq p) running ≡ is_read opened before p

  abbrev Consumes : Attempt → List ℤ → Type 0
  Consumes a [] = (e : SessionError) × (consume_once unmarshal k a ≡ (some e, []))
  Consumes a (p ∷ ps) =
      consume_once unmarshal k a ≡ (none, consume_events unmarshal k a.events (p ∷ ps))

  -- What is to be shown of the loop, at its waits and calls.
  abbrev Told : ℕ → List ℤ × List Action → List TransferImpact → Type 0
  Told i r impacts = (r.0 ≡ delays i (length r.0)) × (sent_to k r.1 ≡ impacts)
