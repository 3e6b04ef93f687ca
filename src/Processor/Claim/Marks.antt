-- ===== src/Processor/Claim/Marks.antt =====
-- Which messages a claim marks as consumed.
use urban_goggles.Base.{
  ℕ, ℤ, ◌≡◌, refl, Text, Bool, Option, none, some, List, [], ◌∷◌, Option-cases, inl, inr, ◌⊎◌,
}
use urban_goggles.Transit.{DelayEvent}
use urban_goggles.Graph.{TransitGraph}
use urban_goggles.Processor.Enrich.{enrich_event}
use urban_goggles.Processor.Claim.{
  Components, Message, process_retried, detect_broken, consume_claim,
}

module _ {Db E : Type 0} (parts : Components Db E) (unmarshal : Text → Option DelayEvent)
    (g : TransitGraph) (stop permit : ℤ → ℕ → Bool) where
  -- The event of a message, as the components see it.
  abbrev pub event_of : Message → DelayEvent → DelayEvent
  event_of msg raw = (enrich_event g msg.handled_at raw).0

  -- The server after a message whose event was processed.
  abbrev pub db_past : Message → DelayEvent → Db → Db
  db_past msg raw db =
      let ev = event_of msg raw in
      (detect_broken parts (permit msg.offset) msg ev
        (process_retried parts (stop msg.offset) db ev).1).1

  -- The marked offsets are those of a first part of the messages, each of which cannot be decoded or
  -- was processed at the server that the messages before it left; the error that ends the claim is
  -- that of the next message there, which is not marked, and without an error all are marked.
  abbrev pub IsMarked : List Message → Db → List ℤ → Option E → Type 0
  IsMarked [] db marked error = (marked ≡ []) × (error ≡ none)
  IsMarked (msg ∷ rest) db [] error =
      (e : E) × (raw : DelayEvent) × (error ≡ some e)
      × (unmarshal msg.value ≡ some raw)
      × ((process_retried parts (stop msg.offset) db (event_of msg raw)).0 ≡ some e)
  IsMarked (msg ∷ rest) db (offset ∷ marked) error =
      (offset ≡ msg.offset)
      × (((unmarshal msg.value ≡ none) × IsMarked rest db marked error)
          ⊎ ((raw : DelayEvent) × (unmarshal msg.value ≡ some raw)
              × ((process_retried parts (stop msg.offset) db (event_of msg raw)).0 ≡ none)
              × IsMarked rest (db_past msg raw db) marked error))

  -- A claim marks the messages in order up to the first whose event could not be processed, and ends
  -- with its error. Each that it marks cannot be decoded, or was processed at the server that the
  -- messages before it left.
  pub consume_claim-IsMarked :
      (messages : List Message) (db : Db)
      → IsMarked messages db
          (consume_claim parts unmarshal g stop permit messages db).marked
          (consume_claim parts unmarshal g stop permit messages db).error
  unfolding consume_claim
  consume_claim-IsMarked [] db = (refl, refl)
  consume_claim-IsMarked (msg ∷ rest) db = elim (Option-cases (unmarshal msg.value)) [
    | inl garbled ↦
        rw (consume_claim, garbled) (refl, inl (garbled, consume_claim-IsMarked rest db))
    | inr (raw, decoded) ↦
        let tried = process_retried parts (stop msg.offset) db (event_of msg raw) in
        elim (Option-cases tried.0) [
          | inr (e, fails) ↦ rw (consume_claim, decoded, fails) (e, raw, refl, decoded, fails)
          | inl success ↦
              rw (consume_claim, decoded, success)
                (
                  refl,
                  inr (raw, decoded, success, consume_claim-IsMarked rest (db_past msg raw db)),
                )
        ]
  ]
