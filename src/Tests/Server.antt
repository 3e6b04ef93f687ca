-- ===== src/Tests/Server.antt =====
-- An association list in place of the Redis server: it satisfies what the interface asks of it.
use urban_goggles.Base.{
  starts_with, Text, Text_eq, text_eq_iff, nat_eq_iff, ◌==◌, true, none, some, List, [], ◌∷◌, ◌++◌,
  map, ◌≡◌, ◌≢◌, refl, arith, Lacks, before_byte, before_byte-append, exists_in, keep_if, Map,
  lookup, insert, delete, lookup-insert, lookup-delete, if◌then◌else◌,
}
use urban_goggles.External.Redis.{Redis, IsRedis, ok, Codec, IsCodec, IsGlobFree}

abbrev delete_all : {V : Type 0} → List Text → Map Text V → Map Text V
delete_all [] m = m
delete_all (k ∷ ks) m = delete_all ks (delete k m)

unfoldable pub matching : {V : Type 0} → Text → Map Text V → List Text
matching p m = keep_if (starts_with p) (map (λ e. e.0) m)

abbrev pub server : Type 0 → Redis
server V = record {
  Db = Map Text V;
  Error = Unit {0};
  Value = V;
  get = λ db k. (ok (lookup k db), db);
  set = λ db k v ttl. (none, insert k v db);
  del = λ db ks. (none, delete_all ks db);
  scan = λ db pattern. ((matching (before_byte b'*' pattern) db, none), db);
  held = λ db k. lookup k db;
}

starts_with-append : (p s : Text) → starts_with p (p ++ s) ≡ true
unfolding starts_with
starts_with-append [] s = refl
starts_with-append (c ∷ p) s = ground (arith, starts_with-append p s, nat_eq_iff c c)

starts_with-rest : (p k : Text) → starts_with p k ≡ true → (s : Text) × (k ≡ p ++ s)
unfolding starts_with
starts_with-rest [] k h = (k, refl)
starts_with-rest (c ∷ p) [] h = absurd (ground (arith, h))
starts_with-rest (c ∷ p) (d ∷ k) h =
    let (s, e) = starts_with-rest p k (ground arith) in (s, ground (arith, nat_eq_iff c d, e))

module _ {V : Type 0} where
  matching_yields :
      (p k : Text) (m : Map Text V)
      → starts_with p k ≡ true
      → lookup k m ≢ none
      → exists_in (λ j. j == k) (matching p m) ≡ true
  unfolding matching exists_in keep_if lookup
  matching_yields p k [] h held = absurd (held refl)
  matching_yields p k ((j, v) ∷ m) h held = ground (arith, matching_yields p k m h, text_eq_iff j k)

  matching_only :
      (p k : Text) (m : Map Text V)
      → exists_in (λ j. j == k) (matching p m) ≡ true
      → starts_with p k ≡ true
  unfolding matching exists_in keep_if
  matching_only p k [] h = absurd (ground arith)
  matching_only p k ((j, v) ∷ m) h = ground (arith, matching_only p k m, text_eq_iff j k)

  lookup-delete_all :
      (ks : List Text) (j : Text) (m : Map Text V)
      → lookup j (delete_all ks m) ≡ (if exists_in (λ k. k == j) ks then none else lookup j m)
  unfolding exists_in
  lookup-delete_all [] j m = refl
  lookup-delete_all (k ∷ ks) j m =
      ground (arith, lookup-delete_all ks j (delete k m), lookup-delete k j m)

starless : (p : Text) → IsGlobFree p → Lacks b'*' p
unfolding exists_in
starless [] h = tt
starless (c ∷ p) h = (ground arith, starless p h.1)

prefix_of : (p : Text) → IsGlobFree p → before_byte b'*' (p ++ b'*' ∷ []) ≡ p
prefix_of p h = before_byte-append b'*' p [] (starless p h)

pub server-IsRedis : (V : Type 0) → IsRedis (server V)
server-IsRedis V = record {
  get_reply = λ db k v e. cc;
  held-get = λ db k j. refl;
  held-set = λ db k j v ttl h. lookup-insert k j v db;
  held-del = λ db ks j h. lookup-delete_all ks j db;
  held-scan = λ db p j. refl;
  scan_yields = λ db p s free ended held.
      rw (prefix_of p free) (matching_yields p (p ++ s) db (starts_with-append p s) held);
  scan_only =
      λ db p k free h. starts_with-rest p k (matching_only p k db (rw (prefix_of p free) at h));
}

-- Values that are their own documents.
abbrev pub plain : (A : Type 0) → Codec A A
plain A = record { marshal = some; unmarshal = some }

pub plain-IsCodec : (A : Type 0) → IsCodec (plain A)
plain-IsCodec A = record { round_trip = λ a v e. cc }
