-- ===== src/Processor/Claim.antt =====
-- `ConsumeClaim` of cmd/processor/main.go: the events of a partition, each taken through the parts of
-- the processor. The lag of each message is Processor.Lag's; metrics and logging are left out, and a
-- propagation that is started runs beside the loop.
pub mod Marks
use urban_goggles.Base.{
  ℕ, zero, suc, ◌+◌, ℤ, pos, Text, Bool, true, false, Option, none, some, List, [], ◌∷◌, ◌++◌,
  length, if◌then◌else◌,
}
use urban_goggles.External.Redis.{Redis, Codec}
use urban_goggles.External.SortedSets.{SortedSets}
use urban_goggles.External.Float.{Float64}
use urban_goggles.Transit.{DelayEvent, TransferImpact, ImpactLevel, broken, at_risk}
use urban_goggles.Graph.{TransitGraph}
use urban_goggles.State.{DelayState, Failure, process_event}
use urban_goggles.Transfers.{evaluate_delay}
use urban_goggles.Evaluation.{PendingPrediction}
use urban_goggles.Evaluation.Matching.{on_delay_event}
use urban_goggles.Processor.Enrich.{enrich_event}
use urban_goggles.Processor.Retry.{with_retry}

-- The components that the handler calls, each with the server that it leaves. The first argument is
-- the clock's reading as the message is handled.
pub record Components (Db E : Type 0) : Type 0 where
  pub process : Db → DelayEvent → Option E × Db
  pub match_event : ℤ → Db → DelayEvent → Db
  pub detect : ℤ → Db → DelayEvent → List TransferImpact × Db

-- The processor's own components. `detected t i` is the clock's reading for impact i of the event
-- handled at t; the error of the matching is only logged.
unfoldable pub components :
    (f : Float64) (r : Redis) (z : SortedSets r) (cs : Codec r.Value (DelayState f.F))
    (c : Codec r.Value (PendingPrediction f.F)) (g : TransitGraph) (agency_id : Text)
    (detected : ℤ → ℕ → ℤ)
    → Components r.Db (Failure r.Error)
components f r z cs c g agency_id detected = record {
  process = process_event f r cs g;
  match_event = λ t db ev. (on_delay_event r z c g agency_id db ev t).1;
  detect = λ t db ev. evaluate_delay f r cs g ev t (detected t) db;
}

pub record Message : Type 0 where
  pub value : Text
  pub offset : ℤ
  pub handled_at : ℤ
  -- What the flag of the catch-up mode says when the message is handled.
  pub catch_up : Bool

-- What a claim has done: the offsets that it marked, the propagations that it started, the error
-- that ended it.
pub record Claimed (Db E : Type 0) : Type 0 where
  pub marked : List ℤ
  pub started : List TransferImpact
  pub error : Option E
  pub db : Db

module _ {Db E : Type 0} (parts : Components Db E) where
  -- The server after some attempts at an event.
  db_after : DelayEvent → Db → ℕ → Db
  db_after ev db zero = db
  db_after ev db (suc n) = (parts.process (db_after ev db n) ev).1

  -- Three attempts, 200 ms before the second; every wait but the last attempt's is followed by one.
  unfoldable pub process_retried : (ℕ → Bool) → Db → DelayEvent → Option E × Db
  unfolding db_after
  process_retried stop db ev =
      let (error, waits) =
        with_retry (λ i. (parts.process (db_after ev db i) ev).0) stop 3 (pos 200000000) in
      (error, db_after ev db (length waits + 1))

  -- The broken impacts for which a permit is free; the rest are shed.
  unfoldable pub start_broken : (ℕ → Bool) → ℕ → List TransferImpact → List TransferImpact
  start_broken permit i [] = []
  start_broken permit i (impact ∷ rest) = elim impact.level [
    | at_risk ↦ start_broken permit i rest
    | broken ↦
        let more = start_broken permit (i + 1) rest in if permit i then impact ∷ more else more
  ]

  -- After an event was processed.
  unfoldable pub detect_broken : (ℕ → Bool) → Message → DelayEvent → Db → List TransferImpact × Db
  unfolding start_broken
  detect_broken permit msg ev db =
      let matched = parts.match_event msg.handled_at db ev in
      elim msg.catch_up [
        | true ↦ ([], matched)
        | false ↦
            let (impacts, db') = parts.detect msg.handled_at matched ev in
            (start_broken permit 0 impacts, db')
      ]

  module _ (unmarshal : Text → Option DelayEvent) (g : TransitGraph)
      (stop permit : ℤ → ℕ → Bool) where
    -- `stop` and `permit` tell, for the message at an offset, whether the context is done in a wait
    -- and whether a permit is free for a broken impact.
    unfoldable pub consume_claim : List Message → Db → Claimed Db E
    unfolding process_retried detect_broken
    consume_claim [] db = record { marked = []; started = []; error = none; db = db }
    consume_claim (msg ∷ rest) db = elim (unmarshal msg.value) [
      | none ↦
          let later = consume_claim rest db in record later { marked = msg.offset ∷ later.marked }
      | some raw ↦
          let ev = (enrich_event g msg.handled_at raw).0 in
          let (error, db1) = process_retried (stop msg.offset) db ev in
          elim error [
            | some e ↦ record { marked = []; started = []; error = some e; db = db1 }
            | none ↦
                let (started, db2) = detect_broken (permit msg.offset) msg ev db1 in
                let later = consume_claim rest db2 in
                record {
                  marked = msg.offset ∷ later.marked;
                  started = started ++ later.started;
                  error = later.error;
                  db = later.db;
                }
          ]
    ]
