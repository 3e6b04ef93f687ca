-- ===== src/External/Reads.antt =====
-- A server after calls that only read: GET, SCAN and ZRANGEBYSCORE.
use urban_goggles.Base.{ℕ, ℤ, Text, Option, ◌≡◌, refl, ◌∙◌}
use urban_goggles.External.Redis.{Redis, IsRedis}
use urban_goggles.External.SortedSets.{SortedSets, IsSortedSets}

module _ {r : Redis} (z : SortedSets r) where
  pub data Reads (db : r.Db) : r.Db → Type 0 where
    here : Reads db db
    gets : {db' : r.Db} (k : Text) → Reads db db' → Reads db (r.get db' k).1
    scans : {db' : r.Db} (p : Text) → Reads db db' → Reads db (r.scan db' p).1
    ranges :
        {db' : r.Db} (k : Text) (low high : Option ℤ) (limit : Option ℕ)
        → Reads db db'
        → Reads db (z.zrange_by_score db' k low high limit).1

  module _ (redis_laws : IsRedis r) (laws : IsSortedSets z) where
    -- It holds what it did.
    pub held-Reads : {db db' : r.Db} → Reads db db' → (j : Text) → r.held db' j ≡ r.held db j
    held-Reads here j = refl
    held-Reads (gets {db'} k t) j = redis_laws.held-get db' k j ∙ held-Reads t j
    held-Reads (scans {db'} p t) j = redis_laws.held-scan db' p j ∙ held-Reads t j
    held-Reads (ranges {db'} k low high limit t) j =
        laws.range_reads db' k j low high limit ∙ held-Reads t j
