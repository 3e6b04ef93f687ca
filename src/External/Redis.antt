-- ===== src/External/Redis.antt =====
-- The Redis server as the program's client sees it, and JSON documents as its values. Both are
-- parameters: `Redis` and `Codec` hold the operations, `IsRedis` and `IsCodec` what their
-- documentation promises. An operation returns its reply and the server afterwards, since a call
-- may change the server and the network.
use urban_goggles.Base.{
  ℤ, ◌⊎◌, inl, inr, refl, Text, Text_eq, ◌==◌, nat_eq, true, false, Option, none, some, List, [],
  ◌∷◌, ◌++◌, ◌≡◌, ◌≢◌, All, exists_in, if◌then◌else◌,
}

pub data Reply {ℓ κ} (E : Type ℓ) (A : Type κ) : Type (ℓ ⊔ κ) where
  ok : A → Reply E A
  err : E → Reply E A

pub Reply-cases {ℓ κ} :
    {E : Type ℓ} {A : Type κ} (reply : Reply E A)
    → ((a : A) × (reply ≡ ok a)) ⊎ ((e : E) × (reply ≡ err e))
Reply-cases (ok a) = inl (a, refl)
Reply-cases (err e) = inr (e, refl)

pub record Redis : Type 1 where
  pub Db : Type 0
  pub Error : Type 0
  pub Value : Type 0
  -- `none` is the reply redis.Nil.
  pub get : Db → Text → Reply Error (Option Value) × Db
  -- The last argument is the time to live, in nanoseconds.
  pub set : Db → Text → Value → ℤ → Option Error × Db
  pub del : Db → List Text → Option Error × Db
  -- The keys that a whole SCAN yields, and the error that ended it.
  pub scan : Db → Text → (List Text × Option Error) × Db
  -- What the server holds for a key.
  pub held : Db → Text → Option Value

-- A pattern `p*` with no other glob character in it.
abbrev pub IsGlobFree : Text → Type 0
IsGlobFree = All λ c. exists_in (nat_eq c) (b'*' ∷ b'?' ∷ b'[' ∷ b']' ∷ b'^' ∷ 92 ∷ []) ≡ false

-- The documented behaviour, where no time to live runs out and no other client writes in between.
pub record IsRedis (r : Redis) : Type 0 where
  pub get_reply :
      (db : r.Db) (k : Text) (v : Option r.Value) → (r.get db k).0 ≡ ok v → v ≡ r.held db k
  pub held-get : (db : r.Db) (k j : Text) → r.held (r.get db k).1 j ≡ r.held db j
  pub held-set :
      (db : r.Db) (k j : Text) (v : r.Value) (ttl : ℤ)
      → (r.set db k v ttl).0 ≡ none
      → r.held (r.set db k v ttl).1 j ≡ (if k == j then some v else r.held db j)
  pub held-del :
      (db : r.Db) (ks : List Text) (j : Text)
      → (r.del db ks).0 ≡ none
      → r.held (r.del db ks).1 j ≡ (if exists_in (λ k. k == j) ks then none else r.held db j)
  pub held-scan : (db : r.Db) (p j : Text) → r.held (r.scan db p).1 j ≡ r.held db j
  -- A scan that ends without an error has yielded the keys with the prefix, and no others.
  pub scan_yields :
      (db : r.Db) (p s : Text)
      → IsGlobFree p
      → (r.scan db (p ++ b'*' ∷ [])).0.1 ≡ none
      → r.held db (p ++ s) ≢ none
      → exists_in (λ k. k == p ++ s) (r.scan db (p ++ b'*' ∷ [])).0.0 ≡ true
  pub scan_only :
      (db : r.Db) (p k : Text)
      → IsGlobFree p
      → exists_in (λ j. j == k) (r.scan db (p ++ b'*' ∷ [])).0.0 ≡ true
      → (s : Text) × (k ≡ p ++ s)

-- json.Marshal and json.Unmarshal at one type. `none` is an error.
pub record Codec (Value A : Type 0) : Type 0 where
  pub marshal : A → Option Value
  pub unmarshal : Value → Option A

-- What was encoded decodes to itself.
pub record IsCodec {Value A : Type 0} (c : Codec Value A) : Type 0 where
  pub round_trip : (a : A) (v : Value) → c.marshal a ≡ some v → c.unmarshal v ≡ some a
