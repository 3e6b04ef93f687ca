-- ===== src/Tests/Sets.antt =====
-- Values and scores as functions, in place of Redis with its sorted sets: they satisfy what the
-- interfaces ask of them. The roster has every member that a set may hold.
use mathlib.Core.List.{Memᴰ}
use mathlib.Core.Path.{subst}
use urban_goggles.Base.{
  ℕ, zero, suc, ℤ, leb_ℤ, Text, Text_eq, text_eq_iff, ◌==◌, ◌&&◌, ◌||◌, not, Bool, true, false,
  Option, none, some, List, [], ◌∷◌, ◌++◌, ◌≡◌, refl, sym, ◌∙◌, ap, arith, ◌⊎◌, ◌↔◌, inl, inr, All,
  keep_if, exists_in, take, Bool-cases, if◌then◌else◌,
}
use urban_goggles.External.Redis.{Redis, IsRedis, Reply, ok, err}
use urban_goggles.External.SortedSets.{
  SortedSets, IsSortedSets, IsDistinctList, IsBetween, Command, set, expire, del, zadd, zrem,
  zrem_to, held_after, scored_after, all_held, all_scored, command_key,
}

pub record Memory (V : Type 0) : Type 0 where
  pub values : Text → Option V
  pub scores : Text → Text → Option ℤ
  pub roster : List Text

abbrev pub is_in : Text → List Text → Bool
is_in m ms = exists_in (λ n. n == m) ms

module _ {V : Type 0} where
  abbrev pub score_of : Memory V → Text → Text → Option ℤ
  score_of db k m = if is_in m db.roster then db.scores k m else none

  abbrev pub set_value : Text → Option V → Memory V → Memory V
  set_value k v db = record db { values = λ j. if k == j then v else db.values j }

abbrev pub memory : Type 0 → Redis
memory V = record {
  Db = Memory V;
  Error = Unit {0};
  Value = V;
  get = λ db k. (ok (db.values k), db);
  set = λ db k v ttl. (none, set_value k (some v) db);
  del = λ db ks.
      (none, record db { values = λ j. if exists_in (λ k. k == j) ks then none else db.values j });
  scan = λ db pattern. (([], some tt), db);
  held = λ db k. db.values k;
}

pub memory-IsRedis : (V : Type 0) → IsRedis (memory V)
unfolding exists_in
memory-IsRedis V = record {
  get_reply = λ db k v e. ground (arith, e);
  held-get = λ db k j. refl;
  held-set = λ db k j v ttl h. refl;
  held-del = λ db ks j h. refl;
  held-scan = λ db p j. refl;
  scan_yields = λ db p s free ended held. absurd (ground (arith, ended));
  scan_only = λ db p k free h. absurd (ground (arith, h));
}

abbrev pub between : Option ℤ → Option ℤ → ℤ → Bool
between none none s = true
between (some low) none s = leb_ℤ low s
between none (some high) s = leb_ℤ s high
between (some low) (some high) s = leb_ℤ low s && leb_ℤ s high

abbrev pub in_range : Option ℤ → Option ℤ → Option ℤ → Bool
in_range low high none = false
in_range low high (some s) = between low high s

-- Each member once.
unfoldable pub nub : List Text → List Text
nub [] = []
nub (m ∷ ms) = m ∷ keep_if (λ n. not (m == n)) (nub ms)

abbrev pub limited : Option ℕ → List Text → List Text
limited none ms = ms
limited (some n) ms = take n ms

unfoldable pub range_of : {V : Type 0} → Memory V → Text → Option ℤ → Option ℤ → List Text
range_of db k low high = keep_if (λ m. in_range low high (score_of db k m)) (nub db.roster)

abbrev pub added : {V : Type 0} → List (Command V) → List Text
added [] = []
added (zadd k s m ∷ cs) = m ∷ added cs
added (_ ∷ cs) = added cs

abbrev pub sets : (V : Type 0) → SortedSets (memory V)
sets V = record {
  zrange_by_score = λ db k low high limit. (ok (limited limit (range_of db k low high)), db);
  zremove = λ db k m. (
    ok (elim (score_of db k m) [ none ↦ false | some _ ↦ true ]),
    record db { scores = λ j n. if k == j && m == n then none else score_of db j n },
  );
  set_existing = λ db k v. (
    ok (elim (db.values k) [ none ↦ false | some _ ↦ true ]),
    record db {
      values =
          λ j. elim (db.values j) [ none ↦ none | some old ↦ if k == j then some v else some old ];
    },
  );
  exec = λ db cs. (
    none,
    record {
      values = all_held cs db.values;
      scores = all_scored cs (score_of db);
      roster = added cs ++ db.roster;
    },
  );
  scored = score_of;
}

head_or_tail :
    (p : Text → Bool) (m n : Text) (ms kept : List Text)
    → (Memᴰ m kept → (p m ≡ true) × Memᴰ m ms)
    → p n ≡ true
    → Memᴰ m (n ∷ kept)
    → (p m ≡ true) × Memᴰ m (n ∷ ms)
head_or_tail p m n ms kept later passes (Memᴰ.head same) = (ap p same ∙ passes, Memᴰ.head same)
head_or_tail p m n ms kept later passes (Memᴰ.tail h) =
    let (also, at) = later h in (also, Memᴰ.tail at)

keep_if-mem :
    (p : Text → Bool) (m : Text) (ms : List Text) → Memᴰ m (keep_if p ms) → (p m ≡ true) × Memᴰ m ms
unfolding keep_if
keep_if-mem p m [] = λ h. elim h [ ]
keep_if-mem p m (n ∷ ms) = elim (Bool-cases (p n)) [
  | inl kept ↦ rw (keep_if, kept) (head_or_tail p m n ms (keep_if p ms) (keep_if-mem p m ms) kept)
  | inr dropped ↦
      rw (keep_if, dropped) (λ h. let (passes, at) = keep_if-mem p m ms h in (passes, Memᴰ.tail at))
]

mem-keep_if :
    (p : Text → Bool) (m : Text) (ms : List Text) → p m ≡ true → Memᴰ m ms → Memᴰ m (keep_if p ms)
unfolding keep_if
mem-keep_if p m [] e h = elim h [ ]
mem-keep_if p m (n ∷ ms) e (Memᴰ.head same) = rw (keep_if, sym (ap p same), e) (Memᴰ.head same)
mem-keep_if p m (n ∷ ms) e (Memᴰ.tail h) = elim (Bool-cases (p n)) [
  | inl kept ↦ rw (keep_if, kept) (Memᴰ.tail (mem-keep_if p m ms e h))
  | inr dropped ↦ rw (keep_if, dropped) (mem-keep_if p m ms e h)
]

All-keep_if {κ} :
    (P : Text → Type κ) (p : Text → Bool) (ms : List Text) → All P ms → All P (keep_if p ms)
unfolding keep_if
All-keep_if P p [] h = tt
All-keep_if P p (n ∷ ms) h = elim (Bool-cases (p n)) [
  | inl kept ↦ rw (keep_if, kept) (h.0, All-keep_if P p ms h.1)
  | inr dropped ↦ rw (keep_if, dropped) (All-keep_if P p ms h.1)
]

keep_if-IsDistinctList :
    (p : Text → Bool) (ms : List Text) → IsDistinctList ms → IsDistinctList (keep_if p ms)
unfolding keep_if
keep_if-IsDistinctList p [] h = tt
keep_if-IsDistinctList p (n ∷ ms) h = elim (Bool-cases (p n)) [
  | inl kept ↦ rw (keep_if, kept) (All-keep_if _ p ms h.0, keep_if-IsDistinctList p ms h.1)
  | inr dropped ↦ rw (keep_if, dropped) (keep_if-IsDistinctList p ms h.1)
]

keep_if-passes :
    (m : Text) (ms : List Text) → All (λ n. (m == n) ≡ false) (keep_if (λ n. not (m == n)) ms)
unfolding keep_if
keep_if-passes m [] = tt
keep_if-passes m (n ∷ ms) = elim (Bool-cases (m == n)) [
  | inl same ↦ rw (keep_if, same) (keep_if-passes m ms)
  | inr apart ↦ rw (keep_if, apart) (apart, keep_if-passes m ms)
]

nub-IsDistinctList : (ms : List Text) → IsDistinctList (nub ms)
unfolding nub
nub-IsDistinctList [] = tt
nub-IsDistinctList (m ∷ ms) =
    (keep_if-passes m (nub ms), keep_if-IsDistinctList _ _ (nub-IsDistinctList ms))

mem-nub : (m : Text) (ms : List Text) → is_in m ms ≡ true → Memᴰ m (nub ms)
unfolding nub exists_in
mem-nub m [] = λ h. absurd (ground (arith, h))
mem-nub m (n ∷ ms) = elim (Bool-cases (n == m)) [
  | inl same ↦ rw (exists_in, same) (λ h. Memᴰ.head (sym ((text_eq_iff n m).0 same)))
  | inr apart ↦
      rw (exists_in, apart)
        (λ h. Memᴰ.tail (mem-keep_if _ m (nub ms) (rw apart refl) (mem-nub m ms h)))
]

limited-mem : (limit : Option ℕ) (m : Text) (ms : List Text) → Memᴰ m (limited limit ms) → Memᴰ m ms
limited-mem none m ms h = h
limited-mem (some zero) m ms h = elim h [ ]
limited-mem (some (suc n)) m [] h = elim h [ ]
limited-mem (some (suc n)) m (x ∷ ms) (Memᴰ.head same) = Memᴰ.head same
limited-mem (some (suc n)) m (x ∷ ms) (Memᴰ.tail h) = Memᴰ.tail (limited-mem (some n) m ms h)

All-limited {κ} :
    (P : Text → Type κ) (limit : Option ℕ) (ms : List Text) → All P ms → All P (limited limit ms)
All-limited P none ms h = h
All-limited P (some zero) ms h = tt
All-limited P (some (suc n)) [] h = tt
All-limited P (some (suc n)) (x ∷ ms) h = (h.0, All-limited P (some n) ms h.1)

limited-IsDistinctList :
    (limit : Option ℕ) (ms : List Text) → IsDistinctList ms → IsDistinctList (limited limit ms)
limited-IsDistinctList none ms h = h
limited-IsDistinctList (some zero) ms h = tt
limited-IsDistinctList (some (suc n)) [] h = tt
limited-IsDistinctList (some (suc n)) (x ∷ ms) h =
    (All-limited _ (some n) ms h.0, limited-IsDistinctList (some n) ms h.1)

between-IsBetween :
    (low high : Option ℤ) (s : ℤ) → (between low high s ≡ true) ↔ IsBetween low high s
between-IsBetween none none s = (λ h. tt, λ h. refl)
between-IsBetween (some low) none s = ground arith
between-IsBetween none (some high) s = ground arith
between-IsBetween (some low) (some high) s = ground arith

module _ {V : Type 0} (db : Memory V) (k : Text) (low high : Option ℤ) where
  in_range-score :
      (score : Option ℤ)
      → in_range low high score ≡ true
      → (s : ℤ) × (score ≡ some s) × IsBetween low high s
  in_range-score none h = absurd (ground (arith, h))
  in_range-score (some s) h = (s, refl, (between-IsBetween low high s).0 h)

  range_of_sound :
      (m : Text)
      → Memᴰ m (range_of db k low high)
      → (s : ℤ) × (score_of db k m ≡ some s) × IsBetween low high s
  unfolding range_of
  range_of_sound m h = in_range-score (score_of db k m) (keep_if-mem _ m (nub db.roster) h).0

  range_of-IsDistinctList : IsDistinctList (range_of db k low high)
  unfolding range_of
  range_of-IsDistinctList = keep_if-IsDistinctList _ _ (nub-IsDistinctList db.roster)

  score_of-is_in : (m : Text) (s : ℤ) → score_of db k m ≡ some s → is_in m db.roster ≡ true
  score_of-is_in m s h = ground (arith, h)

  range_of_complete :
      (m : Text) (s : ℤ)
      → score_of db k m ≡ some s
      → IsBetween low high s
      → Memᴰ m (range_of db k low high)
  unfolding range_of
  range_of_complete m s h b =
      mem-keep_if _ m (nub db.roster) (rw h ((between-IsBetween low high s).1 b))
        (mem-nub m db.roster (score_of-is_in m s h))

is_some :
    (o : Option ℤ) → (elim o [ none ↦ false | some _ ↦ true ] ≡ true) ↔ ((s : ℤ) × (o ≡ some s))
is_some none = (λ h. absurd (ground (arith, h)), λ h. absurd (ground (arith, h.1)))
is_some (some s) = (λ h. (s, refl), λ h. refl)

ok_inj : {A : Type 0} (a b : A) → Path (Reply (Unit {0}) A) (ok a) (ok b) → a ≡ b
ok_inj {A} a b h = ap (λ (r : Reply (Unit {0}) A). elim r as (λ _. A) [ ok x ↦ x | err _ ↦ a ]) h

or-false : (a b : Bool) → (a || b) ≡ false → (a ≡ false) × (b ≡ false)
or-false a b h = ground (arith, h)

is_in-append :
    (m : Text) (xs ys : List Text)
    → is_in m (xs ++ ys) ≡ false
    → (is_in m xs ≡ false) × (is_in m ys ≡ false)
unfolding exists_in
is_in-append m [] ys h = (refl, h)
is_in-append m (x ∷ xs) ys h =
    let (here, rest) = or-false (x == m) _ h in
    let (first, last) = is_in-append m xs ys rest in (rw (here, first) refl, last)

module _ {V : Type 0} where
  -- A member that nothing adds has no score afterwards either.
  all_scored-none :
      (cs : List (Command V)) (scored : Text → Text → Option ℤ) (m : Text)
      → is_in m (added cs) ≡ false
      → ((j : Text) → scored j m ≡ none)
      → (j : Text) → all_scored cs scored j m ≡ none
  unfolding exists_in
  all_scored-none [] scored m out h = h
  all_scored-none (zadd k s n ∷ cs) scored m out h =
      let apart : ((n == m) ≡ false) × (is_in m (added cs) ≡ false) = or-false (n == m) _ out in
      all_scored-none cs _ m apart.1 (λ j. rw (apart.0, h j) (ground arith))
  all_scored-none (set k v ttl ∷ cs) scored m out h =
      all_scored-none cs _ m out (λ j. ground (arith, h j))
  all_scored-none (expire k ttl ∷ cs) scored m out h = all_scored-none cs _ m out h
  all_scored-none (del k ∷ cs) scored m out h =
      all_scored-none cs _ m out (λ j. ground (arith, h j))
  all_scored-none (zrem k n ∷ cs) scored m out h =
      all_scored-none cs _ m out (λ j. ground (arith, h j))
  all_scored-none (zrem_to k s ∷ cs) scored m out h =
      all_scored-none cs _ m out (λ j. rw (h j) (ground arith))

  held_after-keeps :
      (c : Command V) (held : Text → Option V) (j : Text)
      → (command_key c == j) ≡ false
      → held_after c held j ≡ held j
  held_after-keeps (set k v ttl) held j h = rw h refl
  held_after-keeps (expire k ttl) held j h = refl
  held_after-keeps (del k) held j h = rw h refl
  held_after-keeps (zadd k s n) held j h = refl
  held_after-keeps (zrem k n) held j h = refl
  held_after-keeps (zrem_to k s) held j h = refl

  scored_after-keeps :
      (c : Command V) (scored : Text → Text → Option ℤ) (j m : Text)
      → (command_key c == j) ≡ false
      → scored_after c scored j m ≡ scored j m
  scored_after-keeps (set k v ttl) scored j m h = rw h refl
  scored_after-keeps (expire k ttl) scored j m h = refl
  scored_after-keeps (del k) scored j m h = rw h refl
  scored_after-keeps (zadd k s n) scored j m h = rw h refl
  scored_after-keeps (zrem k n) scored j m h = rw h refl
  scored_after-keeps (zrem_to k s) scored j m h = rw h refl

  all_held-keeps :
      (cs : List (Command V)) (held : Text → Option V) (j : Text)
      → All (λ c. (command_key c == j) ≡ false) cs
      → all_held cs held j ≡ held j
  all_held-keeps [] held j h = refl
  all_held-keeps (c ∷ cs) held j h = all_held-keeps cs _ j h.1 ∙ held_after-keeps c held j h.0

  all_scored-keeps :
      (cs : List (Command V)) (scored : Text → Text → Option ℤ) (j m : Text)
      → All (λ c. (command_key c == j) ≡ false) cs
      → all_scored cs scored j m ≡ scored j m
  all_scored-keeps [] scored j m h = refl
  all_scored-keeps (c ∷ cs) scored j m h =
      all_scored-keeps cs _ j m h.1 ∙ scored_after-keeps c scored j m h.0

  -- What the roster leaves out has no score, so it may be forgotten.
  exec-score :
      (db : Memory V) (cs : List (Command V)) (j m : Text)
      → (if is_in m (added cs ++ db.roster) then all_scored cs (score_of db) j m else none)
        ≡ all_scored cs (score_of db) j m
  exec-score db cs j m = elim (Bool-cases (is_in m (added cs ++ db.roster))) [
    | inl known ↦ rw known refl
    | inr unknown ↦
        let (not_added, not_there) = is_in-append m (added cs) db.roster unknown in
        rw unknown (sym (all_scored-none cs (score_of db) m not_added (λ i. rw not_there refl) j))
  ]

  remove-score :
      (db : Memory V) (k m j n : Text)
      → (if is_in n db.roster then (if k == j && m == n then none else score_of db j n) else none)
        ≡ (if k == j && m == n then none else score_of db j n)
  remove-score db k m j n = ground arith

  remove-shrink :
      (db : Memory V) (k m j n : Text)
      → ((if is_in n db.roster then (if k == j && m == n then none else score_of db j n) else none)
          ≡ score_of db j n)
        ⊎ ((if is_in n db.roster
              then (if k == j && m == n then none else score_of db j n)
              else none)
            ≡ none)
  remove-shrink db k m j n = ground arith

pub sets-IsSortedSets : (V : Type 0) → IsSortedSets (sets V)
sets-IsSortedSets V = record {
  range_reads = λ db k j low high limit. refl;
  range_scores = λ db k j m low high limit. refl;
  range_sound = λ db k m low high limit ms h at.
      range_of_sound db k low high m
        (limited-mem limit m _ (subst (Memᴰ m) (sym (ok_inj _ ms h)) at));
  range_complete = λ db k m low high ms s h scored b.
      subst (Memᴰ m) (ok_inj _ ms h) (range_of_complete db k low high m s scored b);
  range_distinct = λ db k low high limit ms h.
      subst IsDistinctList (ok_inj _ ms h)
        (limited-IsDistinctList limit _ (range_of-IsDistinctList db k low high));
  remove_reply = λ db k m b h.
      subst (λ c. (c ≡ true) ↔ ((s : ℤ) × (score_of db k m ≡ some s))) (ok_inj _ b h)
        (is_some (score_of db k m));
  remove_scores = λ db k m j n b h. remove-score db k m j n;
  remove_shrinks = λ db k m j n. remove-shrink db k m j n;
  remove_holds = λ db k m j. refl;
  set_existing_holds = λ db k j v b h. refl;
  exec_holds = λ db cs j h. refl;
  exec_scores = λ db cs j m h. exec-score db cs j m;
  exec_keeps = λ db cs j m h. (
    all_held-keeps cs db.values j h,
    exec-score db cs j m ∙ all_scored-keeps cs (score_of db) j m h,
  );
  get_scores = λ db k j m. refl;
}
