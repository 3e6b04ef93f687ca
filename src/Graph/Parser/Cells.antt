-- ===== src/Graph/Parser/Cells.antt =====
-- The reads of a record by column.
use urban_goggles.Base.{
  ℕ, zero, suc, ◌+◌, ◌<◌, ◌≤◌, Text, Text_eq, trim_space, Option, none, some, List, [], ◌∷◌, ◌≡◌,
  refl, inl, inr, arith, length, All, Map, lookup, insert, Option-cases, All-map,
}
use native.Mathlib.Nat.{add-zero}
use mathlib.Core.Path.{subst}
use urban_goggles.Graph.Search.{get_elem?}
use urban_goggles.Graph.Parser.{
  File, Table, trim_bom, pad, keep_records, read_csv, header_index, col_index,
}

length-pad : (n : ℕ) (fields : List Text) → n ≤ length (pad n fields)
unfolding pad
length-pad zero fields = omega arith
length-pad (suc n) [] = omega (arith, length-pad n [])
length-pad (suc n) (x ∷ fields) = omega (arith, length-pad n fields)

keep_records-long :
    (n : ℕ) (records : List (Option (List Text)))
    → All (λ row. n ≤ length row) (keep_records n records)
unfolding keep_records
keep_records-long n [] = tt
keep_records-long n (none ∷ rest) = keep_records-long n rest
keep_records-long n (some fields ∷ rest) = (length-pad n fields, keep_records-long n rest)

length-trim_bom : (header : List Text) → length (trim_bom header) ≡ length header
unfolding trim_bom
length-trim_bom [] = refl
length-trim_bom ([] ∷ rest) = refl
length-trim_bom ((a ∷ []) ∷ rest) = refl
length-trim_bom ((a ∷ b ∷ []) ∷ rest) = refl
length-trim_bom ((a ∷ b ∷ c ∷ name) ∷ rest) = ground arith

-- Every index is below a bound.
abbrev Below : ℕ → Map Text ℕ → Type 0
Below n [] = Unit
Below n ((name, i) ∷ m) = (i < n) × Below n m

Below-suc : (n : ℕ) (m : Map Text ℕ) → Below n m → Below (n + 1) m
Below-suc n [] h = tt
Below-suc n ((name, i) ∷ m) h = (omega arith, Below-suc n m h.1)

Below-insert : (n : ℕ) (name : Text) (m : Map Text ℕ) → Below n m → Below (n + 1) (insert name n m)
unfolding insert
Below-insert n name [] h = (omega arith, tt)
Below-insert n name ((other, i) ∷ m) h =
    ground (arith, Below-suc n m h.1, Below-insert n name m h.1)

Below-header_index :
    (n : ℕ) (header : List Text) (m : Map Text ℕ)
    → Below n m
    → Below (n + length header) (header_index n header m)
unfolding header_index
Below-header_index n [] m h = rw (add-zero n) h
Below-header_index n (name ∷ rest) m h =
    let e : n + 1 + length rest ≡ n + suc (length rest) = omega arith in
    subst (λ k. Below k (header_index n (name ∷ rest) m)) e
      (Below-header_index (n + 1) rest (insert (trim_space name) n m)
        (Below-insert n (trim_space name) m h))

Below-lookup :
    (n : ℕ) (name : Text) (m : Map Text ℕ) (i : ℕ) → Below n m → lookup name m ≡ some i → i < n
unfolding lookup
Below-lookup n name [] i h found = cc
Below-lookup n name ((other, j) ∷ m) i h found = ground (arith, Below-lookup n name m i h.1)

col_index-le : (header : List Text) (name : Text) → col_index header name ≤ length header
unfolding col_index
col_index-le header name = elim (Option-cases (lookup name (header_index 0 header []))) [
  | inl missing ↦ rw missing (omega arith)
  | inr (i, found) ↦
      let lt : i < 0 + length header =
        Below-lookup (0 + length header) name (header_index 0 header []) i
          (Below-header_index 0 header [] tt) found in
      rw found (omega arith)
]

get_elem?-total :
    {A : Type 0} (i : ℕ) (xs : List A) → i < length xs → (x : A) × (get_elem? xs i ≡ some x)
get_elem?-total i [] h = absurd (omega arith)
get_elem?-total zero (x ∷ xs) h = (x, refl)
get_elem?-total (suc i) (x ∷ xs) h = get_elem?-total i xs (omega arith)

rows_long :
    (file : File) (table : Table)
    → read_csv file ≡ some table
    → All (λ row. length table.header < length row) table.rows
unfolding read_csv
rows_long none table h = cc
rows_long (some (header, records)) table h =
    let read : Table = record {
      header = trim_bom header;
      rows = keep_records (length header + 1) records;
    } in
    let same : read ≡ table = cc in
    subst (λ t. All (λ row. length t.header < length row) t.rows) same
      (All-map _ _ (keep_records (length header + 1) records)
        (λ row long. omega (arith, length-trim_bom header))
        (keep_records-long (length header + 1) records))

-- In a table that is read, every row has a field at the index of every name, also of one that the
-- header does not have: no read of a field is out of range.
pub read_csv-HasFields :
    (file : File) (table : Table) (name : Text)
    → read_csv file ≡ some table
    → All
        (λ row. (text : Text) × (get_elem? row (col_index table.header name) ≡ some text))
        table.rows
read_csv-HasFields file table name h =
    All-map _ _ table.rows
      (λ row long.
        get_elem?-total (col_index table.header name) row
          (omega (arith, col_index-le table.header name)))
      (rows_long file table h)
